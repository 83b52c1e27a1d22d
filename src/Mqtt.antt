-- ===== src/Mqtt.antt =====
-- mqtt.go: the topics of the client, the choice of TLS, and what it accepts of a message. The broker
-- and the MQTT package are outside: a message that arrives is its topic and its document.
pub mod Receive
pub mod Connection
use o_camera_agent.Common.{
  ℕ, Bool, true, false, not, ◌||◌, ◌++◌, map, Option, none, some, if◌then◌else◌, length, drop,
  ◌>>=◌,
}
use o_camera_agent.Common.Int.{ℤ, ltb_ℤ}
use o_camera_agent.Common.Text.{Bytes, codes, has_prefix, to_lower, trim_space}
use o_camera_agent.Config.{Mqtt}
use o_camera_agent.Json.{Value}
use o_camera_agent.Protocol.{Envelope, protocol_version}
use o_camera_agent.Protocol.Clock.{Time, ts_acceptable}
use o_camera_agent.Protocol.Decode.{unmarshal_envelope}
use o_camera_agent.Protocol.Ident.{id_pattern}

pub record MqttClient : Type 0 where
  pub id : Bytes
  pub cfg : Mqtt
  pub topic_in : Bytes
  pub topic_state : Bytes
  pub connected : Bool  -- client.IsConnectionOpen()
  pub acl_checked : Bool  -- whether `aclCheck` is used up

-- NewMqttClient, when the TLS configuration is valid.
unfoldable pub new_mqtt_client : Mqtt → MqttClient
new_mqtt_client cfg = record {
  id = trim_space cfg.username;
  cfg = cfg;
  topic_in = codes "ocam/dev/" ++ (cfg.username ++ codes "/in/");
  topic_state = codes "ocam/dev/" ++ (cfg.username ++ codes "/state");
  connected = false;
  acl_checked = false;
}

unfoldable pub uses_tls : Bytes → Bool
uses_tls url =
    let u = map to_lower url in
    has_prefix u (codes "ssl://")
    || has_prefix u (codes "tls://")
    || has_prefix u (codes "tcps://")
    || has_prefix u (codes "wss://")
    || has_prefix u (codes "mqtts://")

-- The mailbox of a viewer.
unfoldable pub topic_cli : MqttClient → Bytes → Bytes
topic_cli m to = codes "ocam/cli/" ++ (to ++ (codes "/in/" ++ m.id))

-- What `onEnv` is called with.
pub record Received : Type 0 where
  pub from : Bytes
  pub env : Envelope
  pub is_stale : Bool

-- The sender is the last level of the topic.
unfoldable pub sender : MqttClient → Bytes → Option Bytes
sender m topic =
    if not (has_prefix topic m.topic_in)
    then none
    else let from = drop (length m.topic_in) topic in
      if not (id_pattern from) then none else some from

-- The version check, and the time stamp's.
unfoldable pub accept : Time → Bytes → Envelope → Option Received
accept now from env =
    if ltb_ℤ protocol_version env.v
    then none
    else some (record { from = from; env = env; is_stale = not (ts_acceptable env.ts now) })

-- handleMessage, up to the call of `onEnv`; `none` is an ignored message.
unfoldable pub handle_message : MqttClient → Time → Bytes → Option Value → Option Received
handle_message m now topic payload = do
  from ← sender m topic
  env ← unmarshal_envelope payload
  accept now from env
