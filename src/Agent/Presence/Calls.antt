-- ===== src/Agent/Presence/Calls.antt =====
-- The calls that keep the published state up to date.
use o_camera_agent.Common.{
  ℕ, zero, suc, ◌≡◌, refl, ap, ◌∙◌, inl, inr, Bool, true, false, List, [], ◌∷◌, map, Option, none,
  some, arith, Bool-cases, get_elem?, set,
}
use o_camera_agent.Common.Text.{Bytes}
use o_camera_agent.Json.{Value}
use o_camera_agent.Protocol.{Data, IceData, ErrorCode}
use o_camera_agent.Source.{SourceMonitor, Update, probe_now, mark_down}
use o_camera_agent.Source.Codecs.{SourceInfo}
use o_camera_agent.Webrtc.Proxy.{Release}
use o_camera_agent.Agent.Session.{Session}
use o_camera_agent.Agent.Offer.{give_back}
use o_camera_agent.Agent.World.{
  World, Effect, publishes, adds_candidate, gives_back, emit, publish, send, send_error, send_batch,
  current, viewer, put_session, publish_state, update_source,
}
use o_camera_agent.Agent.Presence.{
  last_retained, published_last, last_retained-append, IsPublished, Alike-IsPublished,
  publish_state-IsPublished,
}

-- The effects retain nothing.
abbrev pub NoneRetained : List Effect → Type 0
NoneRetained [] = Unit
NoneRetained (publishes t k p ∷ es) = (k ≡ false) × NoneRetained es
NoneRetained (adds_candidate r c ∷ es) = NoneRetained es
NoneRetained (gives_back r x ∷ es) = NoneRetained es

last_retained-NoneRetained :
    (t : Bytes) (kept : Option Value) (es : List Effect)
    → NoneRetained es
    → last_retained t kept es ≡ kept
last_retained-NoneRetained t kept [] h = refl
last_retained-NoneRetained t kept (publishes u k p ∷ es) h =
    rw h.0 (last_retained-NoneRetained t kept es h.1)
last_retained-NoneRetained t kept (adds_candidate r c ∷ es) h =
    last_retained-NoneRetained t kept es h
last_retained-NoneRetained t kept (gives_back r x ∷ es) h = last_retained-NoneRetained t kept es h

pub emit-IsPublished :
    (es : List Effect) (w : World) → NoneRetained es → IsPublished w → IsPublished (emit es w)
unfolding emit viewer current
emit-IsPublished es w h =
    Alike-IsPublished
      (record {
        name = refl;
        mqtt = refl;
        watched = refl;
        online = refl;
        info = refl;
        viewer = refl;
      })
      (last_retained-append w.mqtt.topic_state none w.log es
        ∙ last_retained-NoneRetained w.mqtt.topic_state (published_last w) es h)

pub publish-IsPublished :
    (t : Bytes) (p : Value) (w : World) → IsPublished w → IsPublished (publish t false p w)
unfolding publish
publish-IsPublished t p w = emit-IsPublished (publishes t false p ∷ []) w (refl, tt)

pub send-IsPublished :
    (to type sid : Bytes) (d : Data) (w : World)
    → IsPublished w
    → IsPublished (send to type sid d w)
unfolding send
send-IsPublished to type sid d w = publish-IsPublished _ _ w

pub send_error-IsPublished :
    (to sid : Bytes) (c : ErrorCode) (m : Bytes) (r : Bool) (w : World)
    → IsPublished w
    → IsPublished (send_error to sid c m r w)
unfolding send_error
send_error-IsPublished to sid c m r w = send-IsPublished to _ sid _ w

pub send_batch-IsPublished :
    (s : Session) (b : Option IceData) (w : World) → IsPublished w → IsPublished (send_batch s b w)
unfolding send_batch
send_batch-IsPublished s none w h = h
send_batch-IsPublished s (some d) w h = send-IsPublished s.viewer _ s.sid _ w h

pub NoneRetained-gives_back : (r : ℕ) (xs : List Release) → NoneRetained (map (gives_back r) xs)
NoneRetained-gives_back r [] = tt
NoneRetained-gives_back r (x ∷ xs) = NoneRetained-gives_back r xs

pub give_back-IsPublished :
    (r : ℕ) (xs : List Release) (w : World) → IsPublished w → IsPublished (give_back r xs w)
unfolding give_back
give_back-IsPublished r xs w =
    emit-IsPublished (map (gives_back r) xs) w (NoneRetained-gives_back r xs)

-- A session that changes, and keeps its viewer.
abbrev pub KeepsViewer : ℕ → Session → World → Type 0
KeepsViewer r t w = (s : Session) → get_elem? w.store r ≡ some s → t.viewer ≡ s.viewer

abbrev viewer_at : ℕ → List Session → Option Bytes
viewer_at q store = elim (get_elem? store q) [ none ↦ none | some s ↦ some s.viewer ]

viewer_at-set :
    (store : List Session) (r q : ℕ) (t : Session)
    → ((s : Session) → get_elem? store r ≡ some s → t.viewer ≡ s.viewer)
    → viewer_at q (set store r t) ≡ viewer_at q store
viewer_at-set [] r q t k = refl
viewer_at-set (x ∷ xs) zero zero t k = ap some (k x refl)
viewer_at-set (x ∷ xs) zero (suc q) t k = refl
viewer_at-set (x ∷ xs) (suc r) zero t k = refl
viewer_at-set (x ∷ xs) (suc r) (suc q) t k = viewer_at-set xs r q t k

viewer-put_session :
    (r : ℕ) (t : Session) (w : World) → KeepsViewer r t w → viewer (put_session r t w) ≡ viewer w
unfolding viewer current put_session
viewer-put_session r t w k = by_sess w.sess refl
  where
    by_sess : (o : Option ℕ) → w.sess ≡ o → viewer (put_session r t w) ≡ viewer w
    by_sess none e = ground arith
    by_sess (some q) e = ground (arith, viewer_at-set w.store r q t k)

pub put_session-IsPublished :
    (r : ℕ) (t : Session) (w : World)
    → KeepsViewer r t w
    → IsPublished w
    → IsPublished (put_session r t w)
put_session-IsPublished r t w k =
    Alike-IsPublished
      (record {
        name = put_session_rest.0;
        mqtt = put_session_rest.1;
        watched = put_session_rest.2;
        online = put_session_rest.3;
        info = put_session_rest.4;
        viewer = viewer-put_session r t w k;
      })
      put_session_rest.5
  where
    put_session_rest :
        ((put_session r t w).cfg ≡ w.cfg)
        × ((put_session r t w).mqtt.topic_state ≡ w.mqtt.topic_state)
        × ((put_session r t w).source.on_change ≡ w.source.on_change)
        × ((put_session r t w).source.online ≡ w.source.online)
        × ((put_session r t w).source.info ≡ w.source.info)
        × (published_last (put_session r t w) ≡ published_last w)
    put_session_rest = unfold put_session in (refl, refl, refl, refl, refl, refl)

-- A probe that does not call `onChange` changes nothing that is published.
probe_now-silent :
    (m : SourceMonitor) (r : Option SourceInfo)
    → m.on_change ≡ true
    → (probe_now m r).notifies ≡ false
    → let m' = (probe_now m r).monitor in
      (m'.online ≡ m.online) × (m'.info ≡ m.info) × (m'.on_change ≡ m.on_change)
unfolding probe_now
probe_now-silent m none h n = ground arith
probe_now-silent m (some i) h n = ground arith

probe_now-on_change :
    (m : SourceMonitor) (r : Option SourceInfo) → (probe_now m r).monitor.on_change ≡ m.on_change
unfolding probe_now
probe_now-on_change m none = ground arith
probe_now-on_change m (some i) = ground arith

pub probe-IsPublished :
    (r : Option SourceInfo) (w : World)
    → IsPublished w
    → IsPublished (update_source (probe_now w.source r) w)
unfolding update_source
probe-IsPublished r w p = elim (Bool-cases u.notifies) [
  | inl e ↦ rw e (publish_state-IsPublished w' (probe_now-on_change w.source r ∙ p.watched))
  | inr e ↦ rw e (unchanged e)
]
  where
    u : Update
    u = probe_now w.source r

    w' : World
    w' = record w { source = u.monitor }

    unchanged : u.notifies ≡ false → IsPublished w'
    unchanged e =
        let same = probe_now-silent w.source r p.watched e in
        Alike-IsPublished {w = w} {w' = w'}
          (record {
            name = refl;
            mqtt = refl;
            watched = same.2;
            online = same.0;
            info = same.1;
            viewer = unfold viewer current in refl;
          })
          refl p

-- A camera that is marked down is still watched.
pub mark_down-watched :
    (w : World) → (update_source (mark_down w.source) w).source.on_change ≡ w.source.on_change
unfolding update_source mark_down publish_state publish emit
mark_down-watched w = ground arith
