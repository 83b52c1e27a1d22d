-- ===== src/Rtsp/Delivery.antt =====
-- From the bytes of the camera to the tracks of the viewer.
use o_camera_agent.Common.{
  ℕ, ◌+◌, ◌*◌, ◌<◌, ◌≤◌, ◌≡◌, ◌≢◌, refl, ap, ◌∙◌, Bool, true, false, ◌==◌, ltb, if◌then◌else◌, List,
  [], ◌∷◌, ◌++◌, append_assoc, append-nil, length, length-append, take-append, drop-append, All,
  arith,
}
use Prim.Native.Nat.{◌/◌, ◌%◌}
use o_camera_agent.Common.Text.{Bytes}
use o_camera_agent.Webrtc.Proxy.{WebRtcProxy}
use o_camera_agent.Webrtc.Relay.{Write, video, audio, consume_packet, consume_rtp_packets}
use o_camera_agent.Rtsp.Frames.{
  RtspClient, going, capacity, is_forwarded, read_payload, handle_tcp_packets, read_loop,
}

-- A frame as RFC 2326 (10.12) lays it out: a dollar, the channel, the length in two bytes, the data.
pub record Frame : Type 0 where
  pub channel : ℕ
  pub payload : Bytes

abbrev pub header : Frame → Bytes
header f = 36 ∷ f.channel ∷ length f.payload / 256 ∷ length f.payload % 256 ∷ []

abbrev pub encode : List Frame → Bytes
encode [] = []
encode (f ∷ fs) = header f ++ f.payload ++ encode fs

-- The packets that frames hold.
abbrev pub packet_of : Frame → List Bytes
packet_of f = if is_forwarded f.channel (length f.payload) then (header f ++ f.payload) ∷ [] else []

abbrev pub packets : List Frame → List Bytes
packets [] = []
packets (f ∷ fs) = packet_of f ++ packets fs

abbrev client : Bytes → Bool → List Bytes → RtspClient
client input desync received = record { input = input; desync = desync; received = received }

pub length_bytes : (n : ℕ) → n / 256 * 256 + n % 256 ≡ n
length_bytes n = omega arith

read_frame :
    (t : Bool) (f : Frame) (rest : Bytes) (d : Bool) (q : List Bytes)
    → length q < capacity
    → handle_tcp_packets t (client (header f ++ f.payload ++ rest) d q)
      ≡ going (client rest false (q ++ packet_of f))
unfolding handle_tcp_packets read_payload
read_frame t f rest d q h =
    rw (length_bytes (length f.payload), drop-append, take-append)
      (ground (arith, length-append f.payload rest, append-nil q))

length-packet_of : (f : Frame) → length (packet_of f) ≤ 1
length-packet_of f = ground arith

abbrev settled : Bool → List Frame → Bool
settled d [] = d
settled d (f ∷ fs) = false

read_loop-cons :
    (t : Bool) (ts : List Bool) (rc rc' : RtspClient)
    → handle_tcp_packets t rc ≡ going rc'
    → read_loop (t ∷ ts) rc ≡ read_loop ts rc'
unfolding read_loop
read_loop-cons t ts rc rc' e = rw (e, read_loop)

settled-false : (fs : List Frame) → settled false fs ≡ false
settled-false [] = refl
settled-false (f ∷ fs) = refl

-- One call reads one frame.
read_frames :
    (fs : List Frame) (ts : List Bool) (rest : Bytes) (d : Bool) (q : List Bytes)
    → length ts ≡ length fs
    → length q + length fs ≤ capacity
    → read_loop ts (client (encode fs ++ rest) d q)
      ≡ going (client rest (settled d fs) (q ++ packets fs))
unfolding read_loop
read_frames [] [] rest d q e h = rw append-nil
read_frames [] (t ∷ ts) rest d q e h = absurd (omega arith)
read_frames (f ∷ fs) [] rest d q e h = absurd (omega arith)
read_frames (f ∷ fs) (t ∷ ts) rest d q e h =
    let one = read_frame t f (encode fs ++ rest) d q (omega arith) in
    let room : length (q ++ packet_of f) + length fs ≤ capacity =
      omega (arith, length-append q (packet_of f), length-packet_of f) in
    let others = read_frames fs ts rest false (q ++ packet_of f) (omega arith) room in
    let last = ap (λ x. going (client rest false x)) (append_assoc q (packet_of f) (packets fs)) in
    ap (λ x. read_loop (t ∷ ts) (client x d q))
      (append_assoc (header f ++ f.payload) (encode fs) rest)
    ∙ read_loop-cons t ts _ _ one
    ∙ others
    ∙ rw (settled-false fs) last

read_junk :
    (t : Bool) (b : ℕ) (rest : Bytes) (d : Bool) (q : List Bytes)
    → b ≢ 36
    → 3 ≤ length rest
    → handle_tcp_packets t (client (b ∷ rest) d q) ≡ going (client rest true q)
unfolding handle_tcp_packets
read_junk t b (x ∷ y ∷ z ∷ rest) d q n h = ground arith
read_junk t b [] d q n h = absurd (omega arith)
read_junk t b (x ∷ []) d q n h = absurd (omega arith)
read_junk t b (x ∷ y ∷ []) d q n h = absurd (omega arith)

-- The data of the frames that a viewer gets, by track.
abbrev pub written : WebRtcProxy → Frame → List Write
written p f =
    if ltb (length f.payload) 12
    then []
    else if f.channel == 0
    then (if p.video_track then (video, f.payload) ∷ [] else [])
    else if f.channel == 2
    then (if p.audio_track then (audio, f.payload) ∷ [] else [])
    else []

abbrev pub all_written : WebRtcProxy → List Frame → List Write
all_written p [] = []
all_written p (f ∷ fs) = written p f ++ all_written p fs

consume-packet_of :
    (p : WebRtcProxy) (f : Frame) → consume_rtp_packets p (packet_of f) ≡ written p f
unfolding consume_rtp_packets consume_packet
consume-packet_of p f = ground (arith, append-nil (written p f))

consume-append :
    (p : WebRtcProxy) (xs ys : List Bytes)
    → consume_rtp_packets p (xs ++ ys) ≡ consume_rtp_packets p xs ++ consume_rtp_packets p ys
unfolding consume_rtp_packets
consume-append p [] ys = refl
consume-append p (x ∷ xs) ys = rw (consume-append p xs ys, append_assoc)

consume-packets :
    (p : WebRtcProxy) (fs : List Frame) → consume_rtp_packets p (packets fs) ≡ all_written p fs
consume-packets p [] = unfold consume_rtp_packets in refl
consume-packets p (f ∷ fs) =
    rw (consume-append p (packet_of f) (packets fs), consume-packet_of p f, consume-packets p fs)

length-encode : (f : Frame) (fs : List Frame) → 4 ≤ length (encode (f ∷ fs))
length-encode f fs = omega arith

read_stream :
    (junk : Bytes) (f : Frame) (fs : List Frame) (ts : List Bool) (rest : Bytes) (d : Bool)
    (q : List Bytes)
    → All (λ b. b ≢ 36) junk
    → length ts ≡ length junk + length (f ∷ fs)
    → length q + length (f ∷ fs) ≤ capacity
    → read_loop ts (client (junk ++ encode (f ∷ fs) ++ rest) d q)
      ≡ going (client rest false (q ++ packets (f ∷ fs)))
read_stream [] f fs ts rest d q n e h = read_frames (f ∷ fs) ts rest d q (omega arith) h
read_stream (b ∷ junk) f fs [] rest d q n e h = absurd (omega arith)
read_stream (b ∷ junk) f fs (t ∷ ts) rest d q n e h =
    let input = junk ++ encode (f ∷ fs) ++ rest in
    let enough : 3 ≤ length input = omega (
      arith,
      length-append (junk ++ encode (f ∷ fs)) rest,
      length-append junk (encode (f ∷ fs)),
      length-encode f fs,
    ) in
    read_loop-cons t ts _ _ (read_junk t b input d q n.0 enough)
    ∙ read_stream junk f fs ts rest true q n.1 (omega arith) h

-- On a connection that delivers other bytes than a dollar, then frames, then anything: as many calls as
-- there are such bytes and frames read exactly these and leave the rest, whatever deadlines pass. If
-- there are at most 512 frames, which are still in the channel, then what the viewer's tracks get is
-- the data of the frames of channel 0 for video and of channel 2 for audio that have 12 bytes or more,
-- in order, for the tracks that the session has.
pub frames_delivered :
    (junk : Bytes) (f : Frame) (fs : List Frame) (ts : List Bool) (rest : Bytes) (d : Bool)
    (p : WebRtcProxy)
    → All (λ b. b ≢ 36) junk
    → length ts ≡ length junk + length (f ∷ fs)
    → length (f ∷ fs) ≤ capacity
    → let rc : RtspClient = record {
      input = junk ++ encode (f ∷ fs) ++ rest;
      desync = d;
      received = [];
    } in
      (rc' : RtspClient) × (read_loop ts rc ≡ going rc')
      × (rc'.input ≡ rest)
      × (rc'.desync ≡ false)
      × (consume_rtp_packets p rc'.received ≡ all_written p (f ∷ fs))
frames_delivered junk f fs ts rest d p n e h = (
  client rest false (packets (f ∷ fs)),
  read_stream junk f fs ts rest d [] n e (omega arith),
  refl,
  refl,
  consume-packets p (f ∷ fs),
)
