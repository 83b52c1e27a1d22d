-- ===== src/Webrtc/Stream.antt =====
-- webrtc.go: StartRTSPStream, the attempts to open the stream of the camera. What each attempt meets is
-- an argument: what the RTSP client does, and whether the proxy is closed meanwhile.
pub mod Ending
use o_camera_agent.Common.{
  ℕ, zero, suc, ◌+◌, ◌-◌, ◌^◌, Bool, true, false, ltb, if◌then◌else◌, List, [], ◌∷◌, ◌++◌,
}
use o_camera_agent.Protocol.{source_lost}
use o_camera_agent.Webrtc.Proxy.{WebRtcProxy, close}
use o_camera_agent.Webrtc.Connection.{Signal, end, open_stream}

pub data Attempt : Type 0 where
  -- the proxy is closed before the client is stored: while the attempt waits, if it waits
  closes_before : Attempt
  -- the client cannot open the stream
  cannot_connect : Attempt
  -- the proxy is closed while the client has no socket yet, and then the client opens the stream
  closes_dialing : Attempt
  -- the proxy is closed while the client connects, with a socket or without, and then the client cannot
  -- open the stream
  closes_failing : Attempt
  -- the proxy is closed while packets arrive
  closes_playing : Attempt
  -- the stream opens, and ends
  stream_ends : Attempt

-- The proxy, whether the client that was made last has an open connection, the waits in seconds, and
-- what is called at the end.
pub record Stream : Type 0 where
  pub proxy : WebRtcProxy
  pub connected : Bool
  pub waits : List ℕ
  pub signals : List Signal

abbrev pub max_attempts : ℕ
max_attempts = 5

-- In seconds, with the bound of 30.
unfoldable pub backoff : ℕ → ℕ
backoff attempt = let wait = 2 ^ (attempt - 1) in if ltb 30 wait then 30 else wait

abbrev pub wait_for : ℕ → List ℕ
wait_for zero = []
wait_for (suc n) = backoff (suc n) ∷ []

-- The proxy is closed by another part of the program, which closes the client that it holds.
unfoldable pub closed_meanwhile : Stream → Stream
unfolding close
closed_meanwhile s = record s { proxy = (close s.proxy).0 }

-- An attempt of a proxy that is open, and whether there may be another one.
attempt_open : Attempt → Stream → Stream × Bool
attempt_open closes_before s = (closed_meanwhile s, false)
attempt_open cannot_connect s = (record s { proxy = open_stream s.proxy; connected = false }, true)
attempt_open closes_dialing s = (
  record (closed_meanwhile (record s { proxy = open_stream s.proxy })) { connected = true },
  false,
)
attempt_open closes_failing s = (
  record (closed_meanwhile (record s { proxy = open_stream s.proxy })) { connected = false },
  true,
)
attempt_open closes_playing s = (
  record (closed_meanwhile (record s { proxy = open_stream s.proxy })) { connected = false },
  false,
)
attempt_open stream_ends s = (record s { proxy = open_stream s.proxy; connected = false }, true)

unfoldable pub attempt_stream : Attempt → Stream → Stream × Bool
unfolding attempt_open open_stream closed_meanwhile
attempt_stream a s = if s.proxy.closed then (s, false) else attempt_open a s

-- The attempts from the `n`th on, of which `k` are left.
unfoldable pub stream_loop : ℕ → ℕ → (ℕ → Attempt) → Stream → Stream
unfolding end attempt_stream
stream_loop zero n env s =
    let h = end source_lost s.proxy in record s { proxy = h.proxy; signals = h.signals }
stream_loop (suc k) n env s =
    let tried = attempt_stream (env n) (record s { waits = s.waits ++ wait_for n }) in
    let rest = stream_loop k (n + 1) env tried.0 in if tried.1 then rest else tried.0

unfoldable pub start_rtsp_stream : (ℕ → Attempt) → WebRtcProxy → Stream
unfolding stream_loop
start_rtsp_stream env p =
    stream_loop max_attempts 0 env
      (record { proxy = p; connected = false; waits = []; signals = [] })
