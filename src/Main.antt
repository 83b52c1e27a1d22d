-- ===== src/Main.antt =====
-- main.go: the program from its configuration to a signal.
pub mod Ends
use o_camera_agent.Common.{Bool, true, false, if◌then◌else◌, List, Option, none, some}
use o_camera_agent.Common.Text.{Bytes}
use o_camera_agent.Config.{Config, ConfigError, Loaded, loaded, failed, load_config}
use o_camera_agent.Mqtt.{new_mqtt_client}
use o_camera_agent.Mqtt.Connection.{
  TlsError, TlsConfig, valid, invalid, build_tls_config, ClientOptions, client_options,
}
use o_camera_agent.Protocol.Clock.{Time}
use o_camera_agent.Protocol.Encode.{state_value}
use o_camera_agent.Source.Codecs.{SourceInfo}
use o_camera_agent.Agent.World.{World, state}
use o_camera_agent.Agent.Start.{new_agent, first_probe, start}
use o_camera_agent.Agent.Events.{Event, run, shut_down}

-- What the program meets: the file of its configuration and the YAML parser, the files of certificates,
-- the time at the start, the first probe, whether the broker accepts the connection, and what happens
-- until the signal.
pub record Surroundings : Type 0 where
  pub file : Option Bytes
  pub parse : Bytes → Option Config
  pub read : Bytes → Option Bytes
  pub has_certificate : Bytes → Bool
  pub now : Time
  pub probe : Option SourceInfo
  pub connects : Bool
  pub events : List (Time × Event)

-- How it ends: by Fatal, or after Shutdown. The world is what it was then.
pub data Exit : Type 0 where
  bad_config : ConfigError → Exit
  bad_tls : TlsError → Exit
  no_connection : World → Exit
  closed : World → Exit

-- Run and what follows it.
unfoldable pub run_agent : Surroundings → World → Exit
unfolding first_probe start run shut_down
run_agent x w =
    if x.connects
    then closed (shut_down (run (start x.probe w) x.events))
    else no_connection (first_probe x.probe w)

-- From the valid configuration on.
unfoldable pub create_agent : Surroundings → Config → Exit
unfolding new_agent build_tls_config run_agent
create_agent x cfg = elim (build_tls_config x.read x.has_certificate cfg.mqtt) [
  | invalid e ↦ bad_tls e
  | valid root_cas ↦ run_agent x (new_agent cfg x.now)
]

unfoldable pub main : Surroundings → Exit
unfolding load_config create_agent
main x = elim (load_config x.file x.parse) [
  | failed e ↦ bad_config e
  | loaded cfg ↦ create_agent x cfg
]
