-- ===== src/Webrtc/Resources.antt =====
-- The peer connection and the RTSP client of a proxy are given back.
use o_camera_agent.Common.{
  ◌≡◌, inl, inr, Bool, true, false, [], ◌∷◌, arith, ◌&&◌, map, Bool-cases, if◌then◌else◌,
}
use o_camera_agent.Common.Text.{Bytes, to_lower}
use o_camera_agent.Webrtc.Proxy.{
  WebRtcProxy, Peer, close_pc, Reply, answered, refused, Outcome, create_answer, close_refused,
  handle_offer, offers_video,
}

-- A proxy as `NewWebRTCProxy` makes it, with its callbacks set or not.
pub record IsNew (p : WebRtcProxy) : Type 0 where
  pub no_pc : p.pc ≡ false
  pub no_client : p.rtsp_client ≡ false
  pub not_closed : p.closed ≡ false
  pub not_done : p.done ≡ false
  pub not_started : p.started ≡ false

-- What became of a proxy that handled an offer; `met` says whether the offer has its video codec.
abbrev pub Settles : Peer → Bool → WebRtcProxy → Outcome → Reply → Type 0
Settles o met p r (answered sdp) =
    (met ≡ true)
    × (o.new_peer_connection ≡ true)
    × (r.proxy.pc ≡ true)
    × (r.proxy.closed ≡ false)
    × (r.proxy.done ≡ false)
    × (r.proxy.started ≡ false)
    × (r.proxy.rtsp_client ≡ false)
    × (r.proxy.callbacks ≡ p.callbacks)
    × (r.released ≡ [])
Settles o met p r (refused e) =
    (r.proxy.pc ≡ false)
    × (r.proxy.rtsp_client ≡ false)
    × (r.proxy.started ≡ false)
    × (r.proxy.closed ≡ met)
    × (r.proxy.done ≡ met)
    × (r.released ≡ (if met && o.new_peer_connection then close_pc ∷ [] else []))

created-Settles :
    (o : Peer) (audio : Bool) (p : WebRtcProxy)
    → IsNew p
    → let r = close_refused (create_answer o audio p) in Settles o true p r r.reply
unfolding create_answer close_refused
created-Settles o audio p n = ground arith

-- A new proxy that answers an offer has its peer connection, is open and has given nothing back. One
-- that refuses has no peer connection: if one was created it was given back, once. It is closed
-- exactly when the offer has the video codec.
pub handle_offer-Settles :
    (o : Peer) (sdp : Bytes) (want_audio : Bool) (p : WebRtcProxy)
    → IsNew p
    → let r = handle_offer o sdp want_audio p in
      Settles o (offers_video (map to_lower sdp) p) p r r.reply
unfolding handle_offer
handle_offer-Settles o sdp want_audio p n = elim (Bool-cases (offers_video (map to_lower sdp) p)) [
  | inl met ↦ rw met (created-Settles o _ p n)
  | inr missing ↦ rw missing (ground arith)
]
