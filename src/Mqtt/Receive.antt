-- ===== src/Mqtt/Receive.antt =====
-- Which messages the client hands on.
use o_camera_agent.Common.{◌≡◌, ◌↔◌, true, not, ◌++◌, Option, some, arith, drop-append, >>=-eq-some}
use o_camera_agent.Common.Int.{◌≤ℤ◌}
use o_camera_agent.Common.Text.{Bytes, has_prefix-append, has_prefix_split}
use o_camera_agent.Json.{Value}
use o_camera_agent.Mqtt.{MqttClient, Received, sender, accept, handle_message}
use o_camera_agent.Protocol.{Envelope, protocol_version}
use o_camera_agent.Protocol.Clock.{Time, ts_acceptable}
use o_camera_agent.Protocol.Decode.{unmarshal_envelope}
use o_camera_agent.Protocol.Ident.{id_pattern}

sender-append :
    (m : MqttClient) (from : Bytes)
    → id_pattern from ≡ true
    → sender m (m.topic_in ++ from) ≡ some from
unfolding sender
sender-append m from i = rw (has_prefix-append, drop-append, i)

sender_only :
    (m : MqttClient) (topic from : Bytes)
    → sender m topic ≡ some from
    → (topic ≡ m.topic_in ++ from) × (id_pattern from ≡ true)
unfolding sender
sender_only m topic from h = ground (arith, has_prefix_split topic m.topic_in)

-- The sender of a message is the rest of its topic behind the inbox, if that is an identifier.
pub sender_iff :
    (m : MqttClient) (topic from : Bytes)
    → (sender m topic ≡ some from) ↔ ((topic ≡ m.topic_in ++ from) × (id_pattern from ≡ true))
sender_iff m topic from = (sender_only m topic from, λ h. rw h.0 (sender-append m from h.1))

-- What a message must be, to be handed on as `x`.
pub record Passes (m : MqttClient) (now : Time) (topic : Bytes) (payload : Option Value)
    (x : Received) : Type 0 where
  pub addressed : topic ≡ m.topic_in ++ x.from
  pub identified : id_pattern x.from ≡ true
  pub decoded : unmarshal_envelope payload ≡ some x.env
  pub supported : x.env.v ≤ℤ protocol_version
  pub dated : x.is_stale ≡ not (ts_acceptable x.env.ts now)

accept_only :
    (now : Time) (from : Bytes) (env : Envelope) (x : Received)
    → accept now from env ≡ some x
    → (x.from ≡ from)
      × (x.env ≡ env)
      × (env.v ≤ℤ protocol_version)
      × (x.is_stale ≡ not (ts_acceptable env.ts now))
unfolding accept
accept_only now from env x h = ground arith

accept_lem :
    (now : Time) (x : Received)
    → x.env.v ≤ℤ protocol_version
    → x.is_stale ≡ not (ts_acceptable x.env.ts now)
    → accept now x.from x.env ≡ some x
unfolding accept
accept_lem now x v d = ground arith

module _ (m : MqttClient) (now : Time) (topic : Bytes) (payload : Option Value) (x : Received) where
  handle_message-Passes : handle_message m now topic payload ≡ some x → Passes m now topic payload x
  unfolding handle_message
  handle_message-Passes h =
      let (from, s, h1) = >>=-eq-some (sender m topic) _ h in
      let (env, u, h2) = >>=-eq-some (unmarshal_envelope payload) _ h1 in
      let (a, b, c, d) = accept_only now from env x h2 in
      let (t, i) = sender_only m topic from s in
      record {
        addressed = rw a t;
        identified = rw a i;
        decoded = rw b u;
        supported = rw b c;
        dated = rw b d;
      }

  Passes-handle_message : Passes m now topic payload x → handle_message m now topic payload ≡ some x
  unfolding handle_message
  Passes-handle_message p =
      rw (p.addressed, sender-append m x.from p.identified, p.decoded)
        (accept_lem now x p.supported p.dated)

-- A message is handed on exactly when its topic is the inbox followed by an identifier, it decodes to
-- an envelope, and its version is supported; it is handed on with that sender and that envelope, and
-- as stale exactly when its time stamp is not acceptable.
pub handle_message_iff :
    (m : MqttClient) (now : Time) (topic : Bytes) (payload : Option Value) (x : Received)
    → (handle_message m now topic payload ≡ some x) ↔ Passes m now topic payload x
handle_message_iff m now topic payload x =
    (handle_message-Passes m now topic payload x, Passes-handle_message m now topic payload x)
