-- ===== src/Source/Codecs.antt =====
-- source.go: the codecs that WebRTC can carry, and the lists of announced codecs.
use o_camera_agent.Common.{
  ◌≡◌, refl, ◌↔◌, Bool, true, false, ◌&&◌, List, [], ◌∷◌, Option, none, some, arith, if◌then◌else◌,
}
use o_camera_agent.Common.Text.{Bytes, codes, same, same_iff}

-- What a camera announces (declared in rtsp_client.go).
pub record SourceInfo : Type 0 where
  pub video : List Bytes
  pub audio : List Bytes

abbrev pub supported_video : List Bytes
supported_video = codes "h264" ∷ codes "h265" ∷ codes "vp8" ∷ codes "vp9" ∷ codes "av1" ∷ []

abbrev pub supported_audio : List Bytes
supported_audio = codes "pcmu" ∷ codes "pcma" ∷ codes "opus" ∷ []

-- The length test and the loop.
unfoldable pub equal_strings : List Bytes → List Bytes → Bool
equal_strings [] [] = true
equal_strings (a ∷ as') (b ∷ bs) = same a b && equal_strings as' bs
equal_strings _ _ = false

unfoldable pub same_info : Option SourceInfo → Option SourceInfo → Bool
same_info none none = true
same_info (some a) (some b) = equal_strings a.video b.video && equal_strings a.audio b.audio
same_info _ _ = false

-- Whether the inner loop meets a codec.
unfoldable pub is_supported : List Bytes → Bytes → Bool
is_supported [] a = false
is_supported (s ∷ ss) a = if same a s then true else is_supported ss a

unfoldable pub first_supported : List Bytes → List Bytes → Bytes
first_supported [] supported = []
first_supported (a ∷ announced) supported =
    if is_supported supported a then a else first_supported announced supported

unfoldable pub filter_supported : List Bytes → List Bytes → List Bytes
filter_supported [] supported = []
filter_supported (a ∷ announced) supported =
    let rest = filter_supported announced supported in
    if is_supported supported a then a ∷ rest else rest

equal_strings_iff : (a b : List Bytes) → (equal_strings a b ≡ true) ↔ (a ≡ b)
unfolding equal_strings
equal_strings_iff (x ∷ a) (y ∷ b) = ground (arith, same_iff x y, equal_strings_iff a b)
equal_strings_iff _ _ = ground arith

-- Two announcements are the same exactly when they are equal.
pub same_info_iff : (a b : Option SourceInfo) → (same_info a b ≡ true) ↔ (a ≡ b)
unfolding same_info
same_info_iff (some a) (some b) =
    ground (arith, equal_strings_iff a.video b.video, equal_strings_iff a.audio b.audio)
same_info_iff none none = ground arith
same_info_iff none (some b) = ground arith
same_info_iff (some a) none = ground arith

abbrev pub head_or : Bytes → List Bytes → Bytes
head_or d [] = d
head_or d (x ∷ xs) = x

-- The first codec that is carried is the first of the list of them, or "" if none is.
pub first-filter_supported :
    (announced supported : List Bytes)
    → first_supported announced supported ≡ head_or [] (filter_supported announced supported)
unfolding first_supported filter_supported
first-filter_supported [] supported = refl
first-filter_supported (a ∷ announced) supported =
    ground (arith, first-filter_supported announced supported)
