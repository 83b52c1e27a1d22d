-- ===== src/Agent/Replies.antt =====
-- How many replies the calls send.
pub mod Offers
use o_camera_agent.Common.{
  ℕ, zero, suc, ◌+◌, ◌≡◌, refl, sym, ap, ◌∙◌, subst, inl, inr, Bool, true, false, not, ◌&&◌, ◌||◌,
  Bool-cases, Option-cases, if_cases, if◌then◌else◌, List, [], ◌∷◌, ◌++◌, map, Option, none, some,
  arith, length,
}
use o_camera_agent.Common.Text.{Bytes, codes, same, same_self}
use o_camera_agent.Json.{Value, int, str, obj, field, end, is_key, get, string_field}
use o_camera_agent.Mqtt.{topic_cli, MqttClient}
use o_camera_agent.Protocol.{
  Envelope, OfferData, Data, answer_data, error_data, ice_data, ErrorCode, source_unavailable,
  IceCandidate, IceData, protocol_version, type_answer, type_error, type_ice,
}
use o_camera_agent.Protocol.Clock.{unix}
use o_camera_agent.Protocol.Decode.{unmarshal_offer}
use o_camera_agent.Protocol.Ident.{sid_pattern}
use o_camera_agent.Protocol.Encode.{data_value, envelope_value, raw_omitempty, string_omitempty}
use o_camera_agent.Source.{Update, probe_now}
use o_camera_agent.Webrtc.Proxy.{new_web_rtc_proxy, handle_offer, Release, Reply, answered, refused}
use o_camera_agent.Agent.Session.{Session, start_ice, queue_ice, new_session}
use o_camera_agent.Agent.World.{
  World, Effect, publishes, adds_candidate, gives_back, emit, publish, send, send_error, send_batch,
  current, at_current_cases, put_session, publish_state, update_source, codecs,
}
use o_camera_agent.Agent.Frames.{gather_lem}
use o_camera_agent.Agent.Offer.{
  Outside, envelope, wants_audio, resend, busy_offer, give_back, gather, open_session, on_reply,
  start_session, choose_codecs, check_source, offer_decoded, bad_stream, idle_offer,
  handle_offer_message,
}

-- The type that a message names.
abbrev pub type_in : Value → Option Bytes
type_in (obj fs) = string_field (get (codes "type") fs)
type_in _ = none

abbrev pub is_final : Option Bytes → Bool
is_final none = false
is_final (some type) = same type (codes "answer") || same type (codes "error")

-- An answer or an error.
unfoldable pub is_reply : Value → Bool
unfolding same string_field get
is_reply p = is_final (type_in p)

-- How many of the calls are replies on this topic.
abbrev pub replies : Bytes → List Effect → ℕ
replies topic [] = 0
replies topic (publishes t retained p ∷ es) =
    (if not retained && same t topic && is_reply p then 1 else 0) + replies topic es
replies topic (adds_candidate r c ∷ es) = replies topic es
replies topic (gives_back r x ∷ es) = replies topic es

replies-append :
    (topic : Bytes) (xs ys : List Effect)
    → replies topic (xs ++ ys) ≡ replies topic xs + replies topic ys
replies-append topic [] ys = omega arith
replies-append topic (publishes t k p ∷ xs) ys = omega (arith, replies-append topic xs ys)
replies-append topic (adds_candidate r c ∷ xs) ys = replies-append topic xs ys
replies-append topic (gives_back r x ∷ xs) ys = replies-append topic xs ys

typed-is_reply :
    (v ts : Value) (sid type : Bytes) (raw : Option Value)
    → is_reply (
        obj (
          field (codes "v") v (
            field (codes "ts") ts (
              string_omitempty
                (codes "sid")
                sid
                (field (codes "type") (str type) (raw_omitempty (codes "data") raw end))))))
      ≡ is_final (some type)
unfolding is_reply string_omitempty raw_omitempty is_key
typed-is_reply v ts [] type none = refl
typed-is_reply v ts [] type (some r) = refl
typed-is_reply v ts (c ∷ sid) type none = refl
typed-is_reply v ts (c ∷ sid) type (some r) = refl

pub is_reply-envelope : (e : Envelope) → is_reply (envelope_value e) ≡ is_final (some e.type)
unfolding envelope_value
is_reply-envelope e = typed-is_reply (int e.v) (int e.ts) e.sid e.type e.raw

-- So many replies more, with the same client.
abbrev pub Replies : Bytes → ℕ → World → World → Type 0
Replies topic n w w' = (replies topic w'.log ≡ replies topic w.log + n) × (w'.mqtt ≡ w.mqtt)

pub Replies-then :
    (topic : Bytes) (m n : ℕ) (a b c : World)
    → Replies topic m a b
    → Replies topic n b c
    → Replies topic (m + n) a c
Replies-then topic m n a b c (h, e) (k, f) = (omega (arith, h, k), f ∙ e)

emit-Replies :
    (topic : Bytes) (es : List Effect) (w : World) → Replies topic (replies topic es) w (emit es w)
unfolding emit
emit-Replies topic es w = (replies-append topic w.log es, refl)

pub publish-Replies :
    (topic : Bytes) (p : Value) (w : World)
    → is_reply p ≡ true
    → Replies topic 1 w (publish topic false p w)
unfolding publish
publish-Replies topic p w h =
    subst (λ n. Replies topic n w (emit (publishes topic false p ∷ []) w))
      (rw (same_self topic, h) (omega arith)) (emit-Replies topic (publishes topic false p ∷ []) w)

publish_other-Replies :
    (topic t : Bytes) (retained : Bool) (p : Value) (w : World)
    → (retained || not (is_reply p)) ≡ true
    → Replies topic 0 w (publish t retained p w)
unfolding publish
publish_other-Replies topic t retained p w h =
    let none_more : replies topic (publishes t retained p ∷ []) ≡ 0 = ground (arith, h) in
    subst (λ n. Replies topic n w (emit (publishes t retained p ∷ []) w)) none_more
      (emit-Replies topic (publishes t retained p ∷ []) w)

pub final_answer : is_final (some type_answer) ≡ true
unfolding same
final_answer = refl

final_error : is_final (some type_error) ≡ true
unfolding same
final_error = refl

final_ice : is_final (some type_ice) ≡ false
unfolding same
final_ice = refl

-- The envelope of a message.
abbrev pub message : Bytes → Bytes → Data → World → Envelope
message type sid d w = record {
  v = protocol_version;
  ts = unix w.now;
  sid = sid;
  type = type;
  raw = some (data_value d);
}

pub send_error-Replies :
    (topic to sid : Bytes) (c : ErrorCode) (m : Bytes) (r : Bool) (w : World)
    → topic_cli w.mqtt to ≡ topic
    → Replies topic 1 w (send_error to sid c m r w)
unfolding send_error send
send_error-Replies topic to sid c m r w e =
    let env = message type_error sid (error_data c m r) w in
    subst (λ t. Replies topic 1 w (publish t false (envelope_value env) w)) (sym e)
      (publish-Replies topic (envelope_value env) w (is_reply-envelope env ∙ final_error))

pub send_batch-Replies :
    (topic : Bytes) (s : Session) (d : Option IceData) (w : World)
    → Replies topic 0 w (send_batch s d w)
unfolding send_batch send
send_batch-Replies topic s none w = (omega arith, refl)
send_batch-Replies topic s (some d) w =
    publish_other-Replies topic (topic_cli w.mqtt s.viewer) false
      (envelope_value (message type_ice s.sid (ice_data d) w)) w
      (ap not (is_reply-envelope (message type_ice s.sid (ice_data d) w) ∙ final_ice))

pub publish_state-Replies :
    (topic : Bytes) (online : Bool) (w : World) → Replies topic 0 w (publish_state online w)
unfolding publish_state
publish_state-Replies topic online w = publish_other-Replies topic w.mqtt.topic_state true _ w refl

pub update_source-Replies :
    (topic : Bytes) (u : Update) (w : World) → Replies topic 0 w (update_source u w)
unfolding update_source
update_source-Replies topic u w =
    if_cases (Replies topic 0 w) u.notifies _ _
      (λ _. publish_state-Replies topic true (record w { source = u.monitor }))
      (λ _. (omega arith, refl))

no_replies : (topic : Bytes) (r : ℕ) (rs : List Release) → replies topic (map (gives_back r) rs) ≡ 0
no_replies topic r [] = refl
no_replies topic r (x ∷ rs) = no_replies topic r rs

pub give_back-Replies :
    (topic : Bytes) (r : ℕ) (rs : List Release) (w : World) → Replies topic 0 w (give_back r rs w)
unfolding give_back
give_back-Replies topic r rs w =
    subst (λ n. Replies topic n w (emit (map (gives_back r) rs) w)) (no_replies topic r rs)
      (emit-Replies topic (map (gives_back r) rs) w)
