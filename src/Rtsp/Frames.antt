-- ===== src/Rtsp/Frames.antt =====
-- rtsp_client.go: the interleaved frames of a connection, as `handleTCPPackets` reads them. The reader
-- holds all bytes that the connection still delivers.
use o_camera_agent.Common.{
  ℕ, ◌+◌, ◌*◌, Bool, true, false, not, ◌&&◌, ◌||◌, ◌==◌, ltb, if◌then◌else◌, List, [], ◌∷◌, ◌++◌,
  length, take, drop,
}
use o_camera_agent.Common.Text.{Bytes}

-- The channel is a list, the oldest packet first. The buffers `hdr` and `payload` hold nothing from one
-- call to the next.
pub record RtspClient : Type 0 where
  pub input : Bytes
  pub desync : Bool
  pub received : List Bytes

-- The call returns `nil` or an error.
pub data Read : Type 0 where
  going : RtspClient → Read
  failed : RtspClient → Read

-- The buffer of the channel `received`.
abbrev pub capacity : ℕ
capacity = 512

-- Without blocking: a packet that finds the channel full is dropped.
unfoldable pub deliver : Bytes → RtspClient → RtspClient
deliver packet rc =
    if ltb (length rc.received) capacity
    then record rc { received = rc.received ++ packet ∷ [] }
    else rc

-- Channels of RTP, with room for the header of a packet.
abbrev pub is_forwarded : ℕ → ℕ → Bool
is_forwarded channel payload_len = (channel == 0 || channel == 2) && not (ltb payload_len 12)

-- ReadFull and a packet for the channel, or Discard.
unfoldable pub read_payload : ℕ → ℕ → ℕ → Bytes → RtspClient → Read
unfolding deliver
read_payload channel hi lo rest rc =
    let payload_len = hi * 256 + lo in
    if ltb (length rest) payload_len
    then failed (record rc { input = [] })
    else let rc' = record rc { input = drop payload_len rest } in
      if is_forwarded channel payload_len
      then going (deliver (36 ∷ channel ∷ hi ∷ lo ∷ take payload_len rest) rc')
      else going rc'

-- `times_out` says whether a connection without enough bytes keeps the call waiting until the deadline;
-- otherwise it has ended.
unfoldable pub read_head : Bool → Bytes → RtspClient → Read
read_head times_out (start ∷ channel ∷ hi ∷ lo ∷ rest) rc =
    if not (start == 36)
    then going (record rc { input = channel ∷ hi ∷ lo ∷ rest; desync = true })
    else read_payload channel hi lo rest (record rc { desync = false })
read_head times_out _ rc = if times_out then going rc else failed rc

unfoldable pub handle_tcp_packets : Bool → RtspClient → Read
unfolding read_head
handle_tcp_packets times_out rc = read_head times_out rc.input rc

-- The calls of the loop, until one returns an error.
unfoldable pub read_loop : List Bool → RtspClient → Read
read_loop [] rc = going rc
read_loop (t ∷ ts) rc = elim (handle_tcp_packets t rc) [
  | going rc' ↦ read_loop ts rc'
  | failed rc' ↦ failed rc'
]
