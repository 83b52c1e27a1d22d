-- ===== src/Tests/Protocol.antt =====
-- The theorems on messages, clocks and the configuration at concrete inputs.
use o_camera_agent.Common.{[], ◌∷◌, ◌≡◌, ◌≢◌, refl, ◌↔◌, ◌⊎◌, true, false, [], some, arith}
use o_camera_agent.Common.Int.{ℤ, pos}
use o_camera_agent.Common.Text.{
  codes, has_prefix, same, to_lower, trim_space, drop_space, width, is_space,
}
use o_camera_agent.Config.{Config, default_stun, load_config, loaded, validate, id, with_defaults}
use o_camera_agent.Config.Validation.{IsUsable, load_config-IsUsable}
use o_camera_agent.Json.{int}
use o_camera_agent.Mqtt.{MqttClient, Received, new_mqtt_client, handle_message}
use o_camera_agent.Mqtt.Receive.{Passes, handle_message_iff}
use o_camera_agent.Protocol.{Envelope}
use o_camera_agent.Protocol.Ident.{id_pattern, all_id_bytes, is_id_byte}
use o_camera_agent.Protocol.Clock.{clock_synced, ts_acceptable}
use o_camera_agent.Protocol.Clock.Window.{IsWithinSkew, IsFarAhead, ts_acceptable_iff}
use o_camera_agent.Protocol.Encode.{marshal_envelope}
use o_camera_agent.Tests.Fixtures.{camera, noon, sid, inbox}

-- A no-break space in front, a thin space behind.
trims_wide_spaces : trim_space (194 ∷ 160 ∷ b'a' ∷ 226 ∷ 128 ∷ 137 ∷ []) ≡ b'a' ∷ []
unfolding trim_space drop_space width is_space
trims_wide_spaces = refl

-- Twenty seconds late.
abbrev late : ℤ
late = pos 1_791_892_780

noon_is_synced : clock_synced noon ≡ true
unfolding clock_synced
noon_is_synced = refl

ts_acceptable_iff_example :
    (ts_acceptable late noon ≡ true) ↔ (IsWithinSkew late noon ⊎ IsFarAhead late noon)
ts_acceptable_iff_example =
    ts_acceptable_iff late noon (omega arith, omega arith) (omega arith) noon_is_synced

abbrev client : MqttClient
client = new_mqtt_client camera.mqtt

abbrev greeting : Envelope
greeting = record { v = pos 1; ts = late; sid = sid; type = codes "ice"; raw = some (int (pos 7)) }

abbrev received : Received
received = record { from = codes "anna"; env = greeting; is_stale = false }

handle_message_iff_example :
    (handle_message client noon (inbox (codes "anna")) (marshal_envelope greeting) ≡ some received)
    ↔ Passes client noon (inbox (codes "anna")) (marshal_envelope greeting) received
handle_message_iff_example =
    handle_message_iff client noon (inbox (codes "anna")) (marshal_envelope greeting) received

-- The file names no STUN server.
abbrev file : Config
file = record camera { ice = record { stun = [] } }

abbrev parsed : Config
parsed = record file { ice = record { stun = default_stun } }

file_loads : load_config (some (codes "{}")) (λ _. some file) ≡ loaded parsed
unfolding load_config validate with_defaults has_prefix same trim_space drop_space width is_space
    to_lower id_pattern all_id_bytes is_id_byte
file_loads = refl

load_config-IsUsable_example :
    IsUsable parsed × (parsed.ice.stun ≢ []) × (id parsed ≡ parsed.mqtt.username)
load_config-IsUsable_example =
    load_config-IsUsable (some (codes "{}")) (λ _. some file) parsed file_loads
