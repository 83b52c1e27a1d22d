-- ===== src/Mqtt/Connection.antt =====
-- mqtt.go: the options of the connection with the Last Will, its TLS configuration, what happens on a
-- connection, and the self-test of the access rights.
use o_camera_agent.Common.{
  ℕ, Bool, true, false, not, if◌then◌else◌, ◌==◌, [], ◌++◌, Option, none, some,
}
use o_camera_agent.Common.Text.{Bytes, codes, same}
use o_camera_agent.Config.{Mqtt}
use o_camera_agent.Json.{Value}
use o_camera_agent.Mqtt.{MqttClient}

pub data TlsError : Type 0 where
  cannot_read_ca no_certificate : TlsError

-- The text of the root certificates, `none` for those of the system.
pub data TlsConfig : Type 0 where
  valid : Option Bytes → TlsConfig
  invalid : TlsError → TlsConfig

-- `read` is os.ReadFile, and `has_certificate` AppendCertsFromPEM on an empty pool.
unfoldable pub build_tls_config : (Bytes → Option Bytes) → (Bytes → Bool) → Mqtt → TlsConfig
unfolding same
build_tls_config read has_certificate cfg =
    if same cfg.ca [] then valid none else (elim (read cfg.ca) [
      | none ↦ invalid cannot_read_ca
      | some pem ↦ if has_certificate pem then valid (some pem) else invalid no_certificate
    ])

-- The options that are set; times in seconds.
pub record ClientOptions : Type 0 where
  pub broker : Bytes
  pub protocol_version : ℕ
  pub client_id : Bytes
  pub username : Bytes
  pub password : Bytes
  pub clean_session : Bool
  pub keep_alive : ℕ
  pub auto_reconnect : Bool
  pub connect_retry : Bool
  pub connect_retry_interval : ℕ
  pub max_reconnect_interval : ℕ
  pub will_topic : Bytes
  pub will_payload : Value
  pub will_qos : ℕ
  pub will_retained : Bool
  pub message_channel_depth : ℕ
  pub root_cas : Option Bytes

-- The options of a client, with the payload of its Last Will.
unfoldable pub client_options : MqttClient → Value → Option Bytes → ClientOptions
client_options m will_payload root_cas = record {
  broker = m.cfg.url;
  protocol_version = 4;
  client_id = m.id;
  username = m.cfg.username;
  password = m.cfg.password;
  clean_session = true;
  keep_alive = 30;
  auto_reconnect = true;
  connect_retry = true;
  connect_retry_interval = 5;
  max_reconnect_interval = 30;
  will_topic = m.topic_state;
  will_payload = will_payload;
  will_qos = 1;
  will_retained = true;
  message_channel_depth = 255;
  root_cas = root_cas;
}

-- The topic that onConnect subscribes to, with quality 1.
unfoldable pub subscription : MqttClient → Bytes
subscription m = m.topic_in ++ codes "#"

-- onConnect runs the self-test of the access rights once.
unfoldable pub starts_acl_check : MqttClient → Bool
starts_acl_check m = not m.acl_checked

-- What the broker says to the subscription of the self-test: nothing in time, an error, or an answer
-- with the code for the topic, if there is one.
pub data AclAnswer : Type 0 where
  no_answer refused : AclAnswer
  acknowledged : Option ℕ → AclAnswer

-- What the self-test reports.
pub data AclReport : Type 0 where
  unanswered subscription_refused acl_active permissive : AclReport

abbrev is_granted : Option ℕ → Bool
is_granted none = true
is_granted (some code) = not (code == 128)

-- The report, and whether the subscription is taken back.
unfoldable pub self_test_acl : AclAnswer → AclReport × Bool
self_test_acl no_answer = (unanswered, false)
self_test_acl refused = (subscription_refused, false)
self_test_acl (acknowledged code) =
    if is_granted code then (permissive, true) else (acl_active, false)
