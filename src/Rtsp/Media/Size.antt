-- ===== src/Rtsp/Media/Size.antt =====
-- ParseMedia changes nothing in the client but the size of the picture.
use o_camera_agent.Common.{ℕ, if_cases, List, [], ◌∷◌, drop, length}
use o_camera_agent.Common.Text.{Bytes, has_prefix}
use o_camera_agent.Common.Split.{split, split_crlf}
use o_camera_agent.Rtsp.Request.{ClientState}
use o_camera_agent.Rtsp.Media.{
  dimensions_prefix, with_dims, dims_of, dimensions_of, media_lines, parse_media,
}

module _ (P : ClientState → Type 0)
    (resize : (rc : ClientState) (w h : ℕ) → P rc → P (record rc { videow = w; videoh = h })) where
  with_dims_resizes : (rc : ClientState) (dims : List ℕ) → P rc → P (with_dims rc dims)
  with_dims_resizes rc [] p = p
  with_dims_resizes rc (w ∷ []) p = p
  with_dims_resizes rc (w ∷ h ∷ []) p = resize rc w h p
  with_dims_resizes rc (w ∷ h ∷ d ∷ dims) p = p

  media_lines_resizes :
      (elements : List Bytes) (rc : ClientState) → P rc → P (media_lines rc elements).1
  unfolding media_lines dimensions_of
  media_lines_resizes [] rc p = p
  media_lines_resizes (l ∷ ls) rc p =
      let dims = dims_of (split b',' (drop (length dimensions_prefix) l)) in
      media_lines_resizes ls (dimensions_of rc l) (
        if_cases P (has_prefix l dimensions_prefix) _ _ (λ _. with_dims_resizes rc dims p) (λ _. p))

  pub parse_media_resizes : (rc : ClientState) (header : Bytes) → P rc → P (parse_media rc header).1
  unfolding parse_media
  parse_media_resizes rc header p = media_lines_resizes (split_crlf header) rc p
