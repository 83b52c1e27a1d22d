-- ===== src/Agent/Batching.antt =====
-- agent.go: what the batches of local ICE candidates of a session hold.
use o_camera_agent.Common.{
  ◌≡◌, refl, ◌∙◌, Bool, true, false, not, ◌||◌, ◌&&◌, List, [], ◌∷◌, ◌++◌, append_assoc, append-nil,
  Option, none, some, arith,
}
use o_camera_agent.Protocol.{IceCandidate, IceData}
use o_camera_agent.Agent.Session.{Session, is_nil, flush_ice, start_ice, queue_ice, stop_ice}

-- What happens to the batching of a session.
pub data IceOp : Type 0 where
  queues : Option IceCandidate → IceOp
  timer_fires starts stops : IceOp

unfoldable pub ice_step : IceOp → Session → Session × Option IceData
unfolding queue_ice flush_ice start_ice stop_ice
ice_step (queues c) s = queue_ice c s
ice_step timer_fires s = flush_ice s
ice_step starts s = start_ice s
ice_step stops s = (stop_ice s, none)

abbrev pub consider : Option IceData → List IceData → List IceData
consider none ds = ds
consider (some d) ds = d ∷ ds

-- The session after these operations, and the batches that they send, both in order.
unfoldable pub ice_run : List IceOp → Session → Session × List IceData
ice_run [] s = (s, [])
ice_run (o ∷ os) s =
    let rest = ice_run os (ice_step o s).0 in (rest.0, consider (ice_step o s).1 rest.1)

-- The candidates of batches, and whether one of them is the last.
abbrev pub sent : List IceData → List IceCandidate
sent [] = []
sent (d ∷ ds) = d.candidates ++ sent ds

abbrev pub any_final : List IceData → Bool
any_final [] = false
any_final (d ∷ ds) = d.final || any_final ds

-- The candidates that are queued before the session is stopped, and whether the end of the gathering
-- is queued before that.
abbrev pub queued : List IceOp → List IceCandidate
queued [] = []
queued (queues none ∷ os) = queued os
queued (queues (some c) ∷ os) = c ∷ queued os
queued (timer_fires ∷ os) = queued os
queued (starts ∷ os) = queued os
queued (stops ∷ os) = []

abbrev pub end_queued : List IceOp → Bool
end_queued [] = false
end_queued (queues none ∷ os) = true
end_queued (queues (some c) ∷ os) = end_queued os
end_queued (timer_fires ∷ os) = end_queued os
end_queued (starts ∷ os) = end_queued os
end_queued (stops ∷ os) = false

abbrev is_stop : IceOp → Bool
is_stop stops = true
is_stop _ = false

-- A stopped session sends nothing and keeps its buffer.
record IsSilent (s t : Session) (ds : List IceData) : Type 0 where
  quiet : ds ≡ []
  kept : t.ice_buf ≡ s.ice_buf
  end_kept : t.ice_end ≡ s.ice_end

step_stopped :
    (o : IceOp) (s : Session)
    → s.ice_stopped ≡ true
    → ((ice_step o s).0.ice_stopped ≡ true)
      × IsSilent s (ice_step o s).0 (consider (ice_step o s).1 [])
unfolding ice_step
step_stopped (queues none) s h = ground arith
step_stopped (queues (some c)) s h = ground arith
step_stopped timer_fires s h = ground arith
step_stopped starts s h = ground arith
step_stopped stops s h = ground arith

run_stopped :
    (os : List IceOp) (s : Session)
    → s.ice_stopped ≡ true
    → IsSilent s (ice_run os s).0 (ice_run os s).1
unfolding ice_run
run_stopped [] s h = ground arith
run_stopped (o ∷ os) s h =
    let (still, quiet) = step_stopped o s h in
    ground (arith, still, quiet, run_stopped os (ice_step o s).0 still)

step_stops :
    (s : Session)
    → ((ice_step stops s).0.ice_stopped ≡ true)
      × IsSilent s (ice_step stops s).0 (consider (ice_step stops s).1 [])
unfolding ice_step
step_stops s = ground arith

-- One operation on a session that is not stopped.
abbrev one : IceOp → List IceOp
one o = o ∷ []

record Conserves (s : Session) (os : List IceOp) (t : Session) (ds : List IceData) : Type 0 where
  candidates : sent ds ++ t.ice_buf ≡ s.ice_buf ++ queued os
  final : (any_final ds || t.ice_end) ≡ (s.ice_end || end_queued os)

step-Conserves :
    (o : IceOp) (s : Session)
    → s.ice_stopped ≡ false
    → is_stop o ≡ false
    → ((ice_step o s).0.ice_stopped ≡ false)
      × Conserves s (one o) (ice_step o s).0 (consider (ice_step o s).1 [])
unfolding ice_step
step-Conserves (queues none) s h n = ground (arith, append-nil s.ice_buf)
step-Conserves (queues (some c)) s h n = ground (arith, append-nil s.ice_buf)
step-Conserves timer_fires s h n = ground (arith, append-nil s.ice_buf)
step-Conserves starts s h n = ground (arith, append-nil s.ice_buf)
step-Conserves stops s h n = cc

queued_cons :
    (o : IceOp) (os : List IceOp)
    → is_stop o ≡ false
    → queued (o ∷ os) ≡ queued (one o) ++ queued os
queued_cons (queues none) os n = refl
queued_cons (queues (some c)) os n = refl
queued_cons timer_fires os n = refl
queued_cons starts os n = refl
queued_cons stops os n = cc

end_queued_cons :
    (o : IceOp) (os : List IceOp)
    → is_stop o ≡ false
    → end_queued (o ∷ os) ≡ (end_queued (one o) || end_queued os)
end_queued_cons (queues none) os n = refl
end_queued_cons (queues (some c)) os n = refl
end_queued_cons timer_fires os n = refl
end_queued_cons starts os n = refl
end_queued_cons stops os n = cc

sent-consider :
    (b : Option IceData) (ds : List IceData)
    → (sent (consider b ds) ≡ sent (consider b []) ++ sent ds)
      × (any_final (consider b ds) ≡ (any_final (consider b []) || any_final ds))
sent-consider none ds = (refl, refl)
sent-consider (some d) ds = (simp append-nil, ground arith)

-- Two runs after one another.
module _ (s t u : Session) (o : IceOp) (os : List IceOp) (b : Option IceData)
    (ds : List IceData) where
  Conserves-cons :
      is_stop o ≡ false
      → Conserves s (one o) t (consider b [])
      → Conserves t os u ds
      → Conserves s (o ∷ os) u (consider b ds)
  Conserves-cons n c d = record {
    candidates = rw (
      (sent-consider b ds).0,
      append_assoc,
      d.candidates,
      ← append_assoc,
      c.candidates,
      append_assoc,
      queued_cons o os n,
    );
    final = ground (arith, c.final, d.final, (sent-consider b ds).1, end_queued_cons o os n);
  }

run-Conserves :
    (os : List IceOp) (s : Session)
    → s.ice_stopped ≡ false
    → Conserves s os (ice_run os s).0 (ice_run os s).1
unfolding ice_run
run-Conserves [] s h = record { candidates = rw append-nil; final = ground arith }
run-Conserves (stops ∷ os) s h =
    let (still, quiet) = step_stops s in
    let rest = run_stopped os (ice_step stops s).0 still in
    record {
      candidates = ground (arith, quiet, rest, append-nil s.ice_buf);
      final = ground (arith, quiet, rest);
    }
run-Conserves (queues c ∷ os) s h =
    let (going, kept) = step-Conserves (queues c) s h refl in
    Conserves-cons s _ _ (queues c) os _ _ refl kept (run-Conserves os _ going)
run-Conserves (timer_fires ∷ os) s h =
    let (going, kept) = step-Conserves timer_fires s h refl in
    Conserves-cons s _ _ timer_fires os _ _ refl kept (run-Conserves os _ going)
run-Conserves (starts ∷ os) s h =
    let (going, kept) = step-Conserves starts s h refl in
    Conserves-cons s _ _ starts os _ _ refl kept (run-Conserves os _ going)

-- From the start of a session, whatever order the queueing, the timer, the answer and the stop come
-- in: the candidates sent, followed by those in the buffer, are the candidates queued before the
-- stop, in order and each once; and the end is sent or pending exactly when it was queued before it.
pub batches_conserve :
    (os : List IceOp) (s : Session)
    → s.ice_stopped ≡ false
    → s.ice_buf ≡ []
    → s.ice_end ≡ false
    → let (t, ds) = ice_run os s in
      (sent ds ++ t.ice_buf ≡ queued os) × ((any_final ds || t.ice_end) ≡ end_queued os)
batches_conserve os s h b e = let c = run-Conserves os s h in (c.candidates ∙ rw b, c.final ∙ rw e)

-- If the session may send and is not stopped, then its timer is armed when a candidate waits, and the
-- end does not wait.
abbrev pub is_prompt : Session → Bool
is_prompt s =
    not s.ice_ready || s.ice_stopped || ((is_nil s.ice_buf || s.ice_timer) && not s.ice_end)

ice_step-is_prompt :
    (o : IceOp) (s : Session) → is_prompt s ≡ true → is_prompt (ice_step o s).0 ≡ true
unfolding ice_step
ice_step-is_prompt (queues none) s p = ground arith
ice_step-is_prompt (queues (some c)) s p = ground arith
ice_step-is_prompt timer_fires s p = ground arith
ice_step-is_prompt starts s p = ground arith
ice_step-is_prompt stops s p = ground arith

run-is_prompt :
    (os : List IceOp) (s : Session) → is_prompt s ≡ true → is_prompt (ice_run os s).0 ≡ true
unfolding ice_run
run-is_prompt [] s p = p
run-is_prompt (o ∷ os) s p = run-is_prompt os _ (ice_step-is_prompt o s p)

-- From a session that may not send yet, after any operations: if it may send and is not stopped, then
-- the timer is armed when a candidate waits in the buffer, and the end of the candidates does not wait.
pub candidates_prompt :
    (os : List IceOp) (s : Session) → s.ice_ready ≡ false → is_prompt (ice_run os s).0 ≡ true
candidates_prompt os s h = run-is_prompt os s (rw h)
