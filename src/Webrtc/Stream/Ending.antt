-- ===== src/Webrtc/Stream/Ending.antt =====
-- How the attempts to open the stream end.
use o_camera_agent.Common.{
  ℕ, zero, suc, ◌+◌, ◌≡◌, refl, Bool, true, false, List, [], ◌∷◌, ◌++◌, append_assoc, append-nil,
  Option, none, some, arith, if◌then◌else◌,
}
use o_camera_agent.Protocol.{source_lost}
use o_camera_agent.Webrtc.Proxy.{WebRtcProxy, close}
use o_camera_agent.Webrtc.Connection.{ends}
use o_camera_agent.Webrtc.Stream.{
  Attempt, closes_before, cannot_connect, closes_dialing, closes_failing, closes_playing,
  stream_ends, Stream, attempt_stream, stream_loop, wait_for, start_rtsp_stream, max_attempts,
  backoff,
}

-- The first of `k` attempts, from the `n`th on, during which the proxy is closed.
abbrev closing_or : Attempt → Option Attempt → Option Attempt
closing_or closes_before later = some closes_before
closing_or closes_dialing later = some closes_dialing
closing_or closes_failing later = some closes_failing
closing_or closes_playing later = some closes_playing
closing_or cannot_connect later = later
closing_or stream_ends later = later

abbrev pub first_closing : ℕ → ℕ → (ℕ → Attempt) → Option Attempt
first_closing zero n env = none
first_closing (suc k) n env = closing_or (env n) (first_closing k (n + 1) env)

abbrev pub is_dialing : Attempt → Bool
is_dialing closes_dialing = true
is_dialing _ = false

-- Without a closing the session ends; with one, nothing is called.
abbrev pub Ends : Option Attempt → Stream → Type 0
Ends none s = (s.signals ≡ ends source_lost ∷ []) × (s.proxy.closed ≡ false) × (s.connected ≡ false)
Ends (some a) s = (s.signals ≡ []) × (s.proxy.closed ≡ true) × (s.connected ≡ is_dialing a)

record IsTrying (s : Stream) : Type 0 where
  silent : s.signals ≡ []
  not_closed : s.proxy.closed ≡ false
  not_done : s.proxy.done ≡ false
  called_back : s.proxy.callbacks ≡ true
  idle : s.connected ≡ false

-- A proxy that was closed, with no connection left open.
record IsOver (s : Stream) : Type 0 where
  silent : s.signals ≡ []
  is_closed : s.proxy.closed ≡ true
  idle : s.connected ≡ false

-- What is left of the loop then does nothing.
stream_loop-IsOver :
    (k n : ℕ) (env : ℕ → Attempt) (s : Stream) → IsOver s → IsOver (stream_loop k n env s)
unfolding stream_loop attempt_stream
stream_loop-IsOver zero n env s o = ground (arith, o.silent, o.is_closed, o.idle)
stream_loop-IsOver (suc k) n env s o = ground (arith, o.silent, o.is_closed, o.idle)

attempt-Ends :
    (a : Attempt) (later : Option Attempt) (s : Stream) (rest : Stream → Stream)
    → IsTrying s
    → ((t : Stream) → IsTrying t → Ends later (rest t))
    → ((t : Stream) → IsOver t → IsOver (rest t))
    → let tried = attempt_stream a s in
      Ends (closing_or a later) (if tried.1 then rest tried.0 else tried.0)
unfolding attempt_stream close
attempt-Ends closes_before later s rest t h o = ground arith
attempt-Ends closes_dialing later s rest t h o = ground arith
attempt-Ends closes_playing later s rest t h o = ground arith
attempt-Ends closes_failing later s rest t h o =
    rw t.not_closed
      (let over = o _ (ground (arith, t.silent)) in (over.silent, over.is_closed, over.idle))
attempt-Ends cannot_connect later s rest t h o = rw t.not_closed (h _ (ground arith))
attempt-Ends stream_ends later s rest t h o = rw t.not_closed (h _ (ground arith))

stream_loop-Ends :
    (k n : ℕ) (env : ℕ → Attempt) (s : Stream)
    → IsTrying s
    → Ends (first_closing k n env) (stream_loop k n env s)
unfolding stream_loop
stream_loop-Ends zero n env s t = ground arith
stream_loop-Ends (suc k) n env s t =
    attempt-Ends (env n) (first_closing k (n + 1) env) (record s { waits = s.waits ++ wait_for n })
      (stream_loop k (n + 1) env) (ground arith) (λ s'. stream_loop-Ends k (n + 1) env s')
      (λ s'. stream_loop-IsOver k (n + 1) env s')

-- For a proxy that is open and whose callbacks are set: if it is closed during none of the first five
-- attempts, then after these the end of the session for a lost source is called, once, and the last
-- client has no open connection. If it is closed during one of them, then nothing is called, the proxy
-- stays closed, and a connection of the last client is open exactly if, in the first attempt during which
-- the proxy was closed, the client had no socket yet at that time and then opened the stream.
pub start_rtsp_stream-Ends :
    (env : ℕ → Attempt) (p : WebRtcProxy)
    → p.closed ≡ false
    → p.done ≡ false
    → p.callbacks ≡ true
    → Ends (first_closing max_attempts 0 env) (start_rtsp_stream env p)
unfolding start_rtsp_stream
start_rtsp_stream-Ends env p c d b =
    stream_loop-Ends max_attempts 0 env
      (record { proxy = p; connected = false; waits = []; signals = [] })
      (record { silent = refl; not_closed = c; not_done = d; called_back = b; idle = refl })

attempt_going :
    (a : Attempt) (later : Option Attempt) (s : Stream)
    → s.proxy.closed ≡ false
    → closing_or a later ≡ none
    → let tried = attempt_stream a s in
      (tried.1 ≡ true) × (tried.0.waits ≡ s.waits) × (tried.0.proxy.closed ≡ false) × (later ≡ none)
unfolding attempt_stream
attempt_going closes_before later s o e = cc
attempt_going closes_dialing later s o e = cc
attempt_going closes_failing later s o e = cc
attempt_going closes_playing later s o e = cc
attempt_going cannot_connect later s o e = ground (arith, e)
attempt_going stream_ends later s o e = ground (arith, e)

abbrev waits_of : ℕ → ℕ → List ℕ
waits_of zero n = []
waits_of (suc k) n = wait_for n ++ waits_of k (n + 1)

stream_loop-waits :
    (k n : ℕ) (env : ℕ → Attempt) (s : Stream)
    → s.proxy.closed ≡ false
    → first_closing k n env ≡ none
    → (stream_loop k n env s).waits ≡ s.waits ++ waits_of k n
unfolding stream_loop
stream_loop-waits zero n env s o e = rw append-nil
stream_loop-waits (suc k) n env s o e =
    let begun : Stream = record s { waits = s.waits ++ wait_for n } in
    let (going, waits, still, later) =
      attempt_going (env n) (first_closing k (n + 1) env) begun o e in
    let rest = stream_loop-waits k (n + 1) env (attempt_stream (env n) begun).0 still later in
    rw (going, rest, waits, append_assoc)

-- If the proxy is not closed meanwhile, the waits before the attempts are 1, 2, 4 and 8 seconds.
pub start_rtsp_stream-waits :
    (env : ℕ → Attempt) (p : WebRtcProxy)
    → p.closed ≡ false
    → first_closing max_attempts 0 env ≡ none
    → (start_rtsp_stream env p).waits ≡ 1 ∷ 2 ∷ 4 ∷ 8 ∷ []
unfolding start_rtsp_stream backoff
start_rtsp_stream-waits env p c e =
    stream_loop-waits max_attempts 0 env
      (record { proxy = p; connected = false; waits = []; signals = [] }) c e
