-- ===== src/Agent/Codecs.antt =====
-- The codecs that the agent chooses for a session, and those that its presence publishes.
use o_camera_agent.Common.{◌≡◌, ◌⊎◌, List, [], ◌∷◌, Option, none, some}
use o_camera_agent.Common.Text.{Bytes}
use o_camera_agent.Protocol.{StateCaps}
use o_camera_agent.Source.Codecs.{SourceInfo, supported_video, supported_audio, head_or}
use o_camera_agent.Agent.World.{World}

abbrev pub IsOneOf : Bytes → List Bytes → Type 0
IsOneOf a [] = ⊥
IsOneOf a (s ∷ ss) = (a ≡ s) ⊎ IsOneOf a ss

-- The first of the announced codecs that is one of these, and "" if none is.
abbrev pub IsFirst : List Bytes → List Bytes → Bytes → Type 0
IsFirst [] supported x = x ≡ []
IsFirst (a ∷ announced) supported x =
    (IsOneOf a supported × (x ≡ a)) ⊎ ((¬ IsOneOf a supported) × IsFirst announced supported x)

-- The first codecs of what is published.
abbrev pub first_of : Option StateCaps → Bytes × Bytes
first_of none = ([], [])
first_of (some c) = (head_or [] c.video, head_or [] c.audio)

-- The choice for what a camera announces.
abbrev pub AreFirst : Option SourceInfo → Bytes × Bytes → Type 0
AreFirst none (video, audio) = (video ≡ []) × (audio ≡ [])
AreFirst (some i) (video, audio) =
    IsFirst i.video supported_video video × IsFirst i.audio supported_audio audio
