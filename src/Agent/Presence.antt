-- ===== src/Agent/Presence.antt =====
-- The state that the agent publishes is the state of the camera.
pub mod Described
pub mod Calls
pub mod Steps
pub mod Run
pub mod Broker
pub mod Shutdown
use o_camera_agent.Common.{
  ℕ, ◌≡◌, refl, sym, ap, ◌∙◌, ◌⊎◌, inl, inr, Bool, true, false, not, ◌&&◌, List, [], ◌∷◌, ◌++◌, map,
  Option, none, some, arith, append_assoc, if◌then◌else◌, if_cases, Bool-cases, Option-cases, ◌↔◌,
}
use o_camera_agent.Common.Int.{ℤ}
use o_camera_agent.Common.Text.{Bytes, same, same_self}
use o_camera_agent.Json.{Value}
use o_camera_agent.Protocol.{State}
use o_camera_agent.Protocol.Encode.{state_value}
use o_camera_agent.Source.{SourceMonitor, Update, probe_now, mark_down}
use o_camera_agent.Source.Codecs.{SourceInfo, same_info_iff}
use o_camera_agent.Agent.World.{
  World, Effect, publishes, adds_candidate, gives_back, emit, publish, current, state, viewer,
  publish_state, update_source,
}

-- What was published last on a topic, to be retained.
abbrev pub last_retained : Bytes → Option Value → List Effect → Option Value
last_retained topic kept [] = kept
last_retained topic kept (publishes t retain payload ∷ es) =
    last_retained topic (if retain && same t topic then some payload else kept) es
last_retained topic kept (adds_candidate r c ∷ es) = last_retained topic kept es
last_retained topic kept (gives_back r x ∷ es) = last_retained topic kept es

-- The state that the agent published last.
abbrev pub published_last : World → Option Value
published_last w = last_retained w.mqtt.topic_state none w.log

pub last_retained-append :
    (topic : Bytes) (kept : Option Value) (xs ys : List Effect)
    → last_retained topic kept (xs ++ ys) ≡ last_retained topic (last_retained topic kept xs) ys
last_retained-append topic kept [] ys = refl
last_retained-append topic kept (publishes t k p ∷ xs) ys =
    last_retained-append topic (if k && same t topic then some p else kept) xs ys
last_retained-append topic kept (adds_candidate r c ∷ xs) ys = last_retained-append topic kept xs ys
last_retained-append topic kept (gives_back r x ∷ xs) ys = last_retained-append topic kept xs ys

-- The state that the camera is in, with a time of publication.
abbrev pub state_at : ℤ → World → State
state_at ts w = record (state true w) { ts = ts }

-- The state published last is the camera's, but for its time stamp.
pub record IsPublished (w : World) : Type 0 where
  pub watched : w.source.on_change ≡ true
  pub stamp : ℤ
  pub kept : published_last w ≡ some (state_value (state_at stamp w))

-- What the published state depends on.
pub record Alike (w w' : World) : Type 0 where
  pub name : w'.cfg ≡ w.cfg
  pub mqtt : w'.mqtt.topic_state ≡ w.mqtt.topic_state
  pub watched : w'.source.on_change ≡ w.source.on_change
  pub online : w'.source.online ≡ w.source.online
  pub info : w'.source.info ≡ w.source.info
  pub viewer : viewer w' ≡ viewer w

pub Alike-IsPublished :
    {w w' : World}
    → Alike w w'
    → published_last w' ≡ published_last w
    → IsPublished w
    → IsPublished w'
unfolding state
Alike-IsPublished a r p = record {
  watched = a.watched ∙ p.watched;
  stamp = p.stamp;
  kept = r ∙ p.kept ∙ simp (a.viewer, a.name, a.online, a.info);
}

-- Publishing the state makes it the last one.
pub publish_state-IsPublished :
    (w : World) → w.source.on_change ≡ true → IsPublished (publish_state true w)
unfolding publish_state publish emit state viewer current
publish_state-IsPublished w h = record {
  watched = h;
  stamp = (state true w).ts;
  kept = rw (last_retained-append, same_self);
}
