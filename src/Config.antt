-- ===== src/Config.antt =====
-- config.go: the configuration, its defaults and its validation. The YAML package is a function from
-- the text of the file to a configuration, `none` for an error.
pub mod Validation
use o_camera_agent.Common.{
  ℕ, Bool, true, false, not, List, [], ◌∷◌, map, Option, none, some, ltb, length, if◌then◌else◌,
}
use o_camera_agent.Common.Int.{ℤ}
use o_camera_agent.Common.Text.{Bytes, codes, same, has_prefix, to_lower, trim_space}
use o_camera_agent.Protocol.Ident.{id_pattern}

pub record Device : Type 0 where
  pub url : Bytes
  pub name : Bytes
  pub probe_interval : ℤ  -- seconds

pub record Mqtt : Type 0 where
  pub url : Bytes
  pub username : Bytes
  pub password : Bytes
  pub ca : Bytes

pub record Ice : Type 0 where
  pub stun : List Bytes

pub record Config : Type 0 where
  pub mqtt : Mqtt
  pub device : Device
  pub ice : Ice

unfoldable pub id : Config → Bytes
id c = trim_space c.mqtt.username

abbrev pub default_stun : List Bytes
default_stun = codes "stun:stun.l.google.com:19302" ∷ codes "stun:stun1.l.google.com:19302" ∷ []

pub data ConfigError : Type 0 where
  cannot_read cannot_parse url_required url_not_rtsp name_too_long : ConfigError
  mqtt_url_required bad_username password_required : ConfigError

pub data Loaded : Type 0 where
  loaded : Config → Loaded
  failed : ConfigError → Loaded

abbrev is_empty : Bytes → Bool
is_empty s = same s []

-- `none` is `nil`: the configuration is valid.
unfoldable pub validate : Config → Option ConfigError
validate c =
    if is_empty c.device.url
    then some url_required
    else if not (has_prefix (map to_lower c.device.url) (codes "rtsp://"))
    then some url_not_rtsp
    else if ltb 64 (length c.device.name)
    then some name_too_long
    else if is_empty (trim_space c.mqtt.url)
    then some mqtt_url_required
    else if not (id_pattern c.mqtt.username)
    then some bad_username
    else if is_empty (trim_space c.mqtt.password)
    then some password_required
    else none

abbrev pub or_default_stun : List Bytes → List Bytes
or_default_stun [] = default_stun
or_default_stun (s ∷ ss) = s ∷ ss

-- What `loadConfig` does to a parsed configuration before it is validated.
unfoldable pub with_defaults : Config → Config
with_defaults c =
    let username = trim_space c.mqtt.username in
    let name = if is_empty (trim_space c.device.name) then username else c.device.name in
    record {
      mqtt = record c.mqtt { username = username };
      device = record c.device { url = trim_space c.device.url; name = name };
      ice = record { stun = or_default_stun c.ice.stun };
    }

abbrev pub validated : Config → Option ConfigError → Loaded
validated c none = loaded c
validated c (some e) = failed e

-- What os.ReadFile returns, and the parser.
unfoldable pub load_config : Option Bytes → (Bytes → Option Config) → Loaded
load_config none parse = failed cannot_read
load_config (some text) parse = elim (parse text) [
  | none ↦ failed cannot_parse
  | some c ↦ validated (with_defaults c) (validate (with_defaults c))
]
