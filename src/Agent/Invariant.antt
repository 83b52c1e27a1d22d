-- ===== src/Agent/Invariant.antt =====
-- One peer connection at a time: which sessions hold resources.
pub mod Offers
pub mod Steps
pub mod Run
use o_camera_agent.Common.{
  ℕ, ◌<◌, ◌≡◌, ◌≢◌, refl, ◌⊎◌, inl, inr, Bool, true, false, List, [], ◌∷◌, ◌++◌, Option, none, some,
  arith, ◌==◌, get_elem?, set, length, length-append, length-set, set_cases, concat_cases, ==_false,
  ==_self, sym, get_elem?-some,
}
use o_camera_agent.Agent.Session.{Session}
use o_camera_agent.Agent.World.{World, points, is_some, current}
use o_camera_agent.Agent.Frames.{SameSessions, SameButLog}

-- The active session: its peer connection and its candidates are open, and its answer is kept.
pub record IsOpen (s : Session) : Type 0 where
  pub has_pc : s.proxy.pc ≡ true
  pub not_closed : s.proxy.closed ≡ false
  pub not_done : s.proxy.done ≡ false
  pub called_back : s.proxy.callbacks ≡ true
  pub ready : s.ice_ready ≡ true
  pub going : s.ice_stopped ≡ false
  pub has_answer : is_some s.answer ≡ true

-- Any other session: it holds no peer connection and no RTSP client, and can send no candidate.
pub record IsShut (s : Session) : Type 0 where
  pub no_pc : s.proxy.pc ≡ false
  pub no_client : s.proxy.rtsp_client ≡ false
  pub silent : (s.ice_stopped ≡ true) ⊎ (s.ice_ready ≡ false)
  pub ended : (s.proxy.closed ≡ true) ⊎ (s.proxy.started ≡ false)

abbrev pub Status : Bool → Session → Type 0
Status true s = IsOpen s
Status false s = IsShut s

pub record Inv (sess : Option ℕ) (store : List Session) : Type 0 where
  pub each : (r : ℕ) (s : Session) → get_elem? store r ≡ some s → Status (points sess r) s
  pub bound : (r : ℕ) → sess ≡ some r → r < length store

-- A session changes and keeps its status.
pub put-Inv :
    (sess : Option ℕ) (store : List Session) (r : ℕ) (s : Session)
    → Inv sess store
    → Status (points sess r) s
    → Inv sess (set store r s)
put-Inv sess store r s v h = record {
  each = λ q t e. elim (set_cases store r q s t e) [
    | inl (p, x) ↦ rw (p, x) h
    | inr (p, x) ↦ v.each q t x
  ];
  bound = λ q e. omega (arith, length-set store r s, v.bound q e);
}

-- The active session ends.
pub end-Inv :
    (store : List Session) (r : ℕ) (s : Session)
    → Inv (some r) store
    → IsShut s
    → Inv none (set store r s)
end-Inv store r s v h = record {
  each = λ q t e. elim (set_cases store r q s t e) [
    | inl (p, x) ↦ rw x h
    | inr (p, x) ↦ was_shut q t p (v.each q t x)
  ];
  bound = λ q e. cc;
}
  where
    was_shut : (q : ℕ) (t : Session) → q ≢ r → Status (points (some r) q) t → IsShut t
    was_shut q t p x = rw (==_false r q (λ e. p (sym e))) at x

-- A session that came to nothing is remembered.
pub append-Inv :
    (store : List Session) (s : Session) → Inv none store → IsShut s → Inv none (store ++ s ∷ [])
append-Inv store s v h = record {
  each = λ q t e. elim (concat_cases store s q t e) [
    | inl (p, x) ↦ rw x h
    | inr (p, x) ↦ v.each q t x
  ];
  bound = λ q e. cc;
}

-- A new session becomes the active one.
pub open-Inv :
    (store : List Session) (first s : Session)
    → Inv none store
    → IsOpen s
    → Inv (some (length store)) (set (store ++ first ∷ []) (length store) s)
open-Inv store first s v h = record {
  each = λ q t e. elim (set_cases (store ++ first ∷ []) (length store) q s t e) [
    | inl (p, x) ↦ rw (p, x, ==_self (length store)) h
    | inr (p, x) ↦ elim (concat_cases store first q t x) [
      | inl (y, z) ↦ absurd (p y)
      | inr (y, z) ↦ rw (==_false (length store) q (omega arith)) (v.each q t z)
    ]
  ];
  bound = λ q e. omega (
    arith,
    length-set (store ++ first ∷ []) (length store) s,
    length-append store (first ∷ []),
    some-eq e,
  );
}
  where
    some-eq : {q : ℕ} → some (length store) ≡ some q → length store ≡ q
    some-eq e = cc

abbrev pub WorldInv : World → Type 0
WorldInv w = Inv w.sess w.store

pub keep : {w w' : World} → SameSessions w w' → WorldInv w → WorldInv w'
keep same v = rw (same.sess, same.store) v

pub keep_log : {w w' : World} → SameButLog w w' → WorldInv w → WorldInv w'
keep_log same v = rw (same.sess, same.store) v

-- No session is current only if none is pointed to.
pub idle-sess : (w : World) → WorldInv w → current w ≡ none → w.sess ≡ none
unfolding current
idle-sess w v e = from_sess w.sess refl
  where
    from_sess : (o : Option ℕ) → w.sess ≡ o → w.sess ≡ none
    from_sess none h = h
    from_sess (some r) h =
        let (s, found) = get_elem?-some w.store r (v.bound r h) in
        absurd (ground (arith, e, found, h))
