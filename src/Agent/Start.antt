-- ===== src/Agent/Start.antt =====
-- agent.go: NewAgent and Run. The broker accepts the connection; that of Run is the event `mqtt_up`.
use o_camera_agent.Common.{true, false, [], Option, none}
use o_camera_agent.Common.Int.{ℤ, pos, ◌*ℤ◌, wrap_int64}
use o_camera_agent.Config.{Config}
use o_camera_agent.Mqtt.{new_mqtt_client}
use o_camera_agent.Mqtt.Connection.{ClientOptions, client_options}
use o_camera_agent.Protocol.Clock.{Time, second}
use o_camera_agent.Common.Text.{Bytes}
use o_camera_agent.Protocol.Encode.{state_value}
use o_camera_agent.Source.{new_source_monitor, probe_now}
use o_camera_agent.Source.Codecs.{SourceInfo}
use o_camera_agent.Agent.World.{World, state, update_source}
use o_camera_agent.Agent.Events.{mqtt_up, happen}

-- time.Duration(n) * time.Second
unfoldable pub seconds : ℤ → ℤ
unfolding wrap_int64 ◌*ℤ◌
seconds n = wrap_int64 (n *ℤ pos second)

-- NewAgent, when the TLS configuration is valid.
unfoldable pub new_agent : Config → Time → World
unfolding seconds new_mqtt_client new_source_monitor
new_agent cfg now = record {
  cfg = cfg;
  mqtt = new_mqtt_client cfg.mqtt;
  source = new_source_monitor cfg.device.url (seconds cfg.device.probe_interval);
  sess = none;
  store = [];
  now = now;
  log = [];
}

-- The first probe, and the callback that publishes the state.
unfoldable pub first_probe : Option SourceInfo → World → World
unfolding probe_now update_source
first_probe result w =
    let w' = update_source (probe_now w.source result) w in
    record w' { source = record w'.source { on_change = true } }

-- Run, up to the loop of the source monitor.
unfoldable pub start : Option SourceInfo → World → World
unfolding first_probe
start result w = happen mqtt_up (first_probe result w)

-- The options of the connection of NewAgent.
unfoldable pub agent_options : Config → Time → Option Bytes → ClientOptions
unfolding new_agent new_mqtt_client client_options state state_value
agent_options cfg now root_cas =
    client_options (new_mqtt_client cfg.mqtt) (state_value (state false (new_agent cfg now)))
      root_cas
