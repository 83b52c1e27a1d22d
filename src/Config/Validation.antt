-- ===== src/Config/Validation.antt =====
-- What a loaded configuration satisfies.
use o_camera_agent.Common.Trim.{drop_space-StartsSolid}
use o_camera_agent.Common.{
  ℕ, ◌≤◌, ◌≡◌, ◌≢◌, refl, ap, ◌∙◌, true, List, [], ◌∷◌, ◌++◌, map, Option, none, some, arith,
  length,
}
use mathlib.Core.List.{reverse, reverse-cons, reverse-reverse}
use o_camera_agent.Common.Text.{
  Bytes, codes, same_iff, has_prefix, to_lower, trim_space, drop_space, is_blank, wide, wide_back,
}
use o_camera_agent.Protocol.Ident.{id_pattern, all_id_bytes}
use o_camera_agent.Config.{
  Config, ConfigError, loaded, failed, validate, validated, with_defaults, load_config, id,
  or_default_stun, cannot_parse,
}

-- A configuration that the agent can run with.
pub record IsUsable (c : Config) : Type 0 where
  pub is_rtsp : has_prefix (map to_lower c.device.url) (codes "rtsp://") ≡ true
  pub short_name : length c.device.name ≤ 64
  pub has_broker : trim_space c.mqtt.url ≢ []
  pub is_identified : id_pattern c.mqtt.username ≡ true
  pub has_password : trim_space c.mqtt.password ≢ []

validate_sound : (c : Config) → validate c ≡ none → IsUsable c
unfolding validate
validate_sound c h = ground (
  arith,
  same_iff c.device.url [],
  same_iff (trim_space c.mqtt.url) [],
  same_iff (trim_space c.mqtt.password) [],
)

all_id_bytes-append :
    (s t : Bytes) → all_id_bytes s ≡ true → all_id_bytes t ≡ true → all_id_bytes (s ++ t) ≡ true
unfolding all_id_bytes
all_id_bytes-append [] t h k = k
all_id_bytes-append (c ∷ s) t h k = ground (arith, all_id_bytes-append s t)

all_id_bytes-reverse : (s : Bytes) → all_id_bytes s ≡ true → all_id_bytes (reverse s) ≡ true
all_id_bytes-reverse [] h = h
all_id_bytes-reverse (c ∷ s) h = rw (reverse-cons c s) (
    all_id_bytes-append (reverse s) (c ∷ [])
      (all_id_bytes-reverse s (unfold all_id_bytes in ground (arith, h)))
      (unfold all_id_bytes in ground (arith, h)))

drop_space-id : (w : ℕ → Bytes → ℕ) (s : Bytes) → all_id_bytes s ≡ true → drop_space w 0 s ≡ s
unfolding drop_space all_id_bytes is_blank
drop_space-id w [] h = refl
drop_space-id w (c ∷ s) h = drop_space-StartsSolid w (c ∷ s) (ground (arith, h))

id-all_id_bytes : (s : Bytes) → id_pattern s ≡ true → all_id_bytes s ≡ true
unfolding id_pattern
id-all_id_bytes s h = ground arith

-- An identifier has no space around it.
trim_space-id : (s : Bytes) → id_pattern s ≡ true → trim_space s ≡ s
unfolding trim_space
trim_space-id s h =
    let a = id-all_id_bytes s h in
    rw (drop_space-id wide s a, drop_space-id wide_back (reverse s) (all_id_bytes-reverse s a))
      (reverse-reverse s)

or_default_stun-ne_nil : (l : List Bytes) → or_default_stun l ≢ []
or_default_stun-ne_nil [] h = cc
or_default_stun-ne_nil (x ∷ xs) h = cc

validated-loaded :
    (c d : Config) (e : Option ConfigError) → validated c e ≡ loaded d → (c ≡ d) × (e ≡ none)
validated-loaded c d none h = (cc, refl)
validated-loaded c d (some x) h = cc

with_defaults-stun : (d : Config) → (with_defaults d).ice.stun ≢ []
unfolding with_defaults
with_defaults-stun d = or_default_stun-ne_nil d.ice.stun

-- A configuration that loads is usable, has a STUN server, and its identifier is its user name as it
-- stands.
pub load_config-IsUsable :
    (text : Option Bytes) (parse : Bytes → Option Config) (c : Config)
    → load_config text parse ≡ loaded c
    → IsUsable c × (c.ice.stun ≢ []) × (id c ≡ c.mqtt.username)
unfolding load_config id
load_config-IsUsable none parse c h = cc
load_config-IsUsable (some text) parse c h = from_parsed (parse text) h
  where
    from_parsed :
        (p : Option Config)
        → (elim p [
          | none ↦ failed cannot_parse
          | some d ↦ validated (with_defaults d) (validate (with_defaults d))
        ])
          ≡ loaded c
        → IsUsable c × (c.ice.stun ≢ []) × (trim_space c.mqtt.username ≡ c.mqtt.username)
    from_parsed none h = cc
    from_parsed (some d) h =
        let (e, v) = validated-loaded (with_defaults d) c _ h in
        let u = validate_sound c (rw e at v) in
        (
          u,
          (λ n. with_defaults-stun d (ap (λ x. x.ice.stun) e ∙ n)),
          trim_space-id c.mqtt.username u.is_identified,
        )
