-- ===== src/Protocol/Ident.antt =====
-- The identifiers: `sidPattern` of protocol.go and `idPattern` of config.go.
use o_camera_agent.Common.{ℕ, Bool, true, ◌&&◌, ◌||◌, [], ◌∷◌, leb, ◌==◌, length}
use o_camera_agent.Common.Text.{Bytes}

-- [A-Za-z0-9_-]
unfoldable pub is_id_byte : ℕ → Bool
is_id_byte c =
    (leb b'A' c && leb c b'Z')
    || (leb b'a' c && leb c b'z')
    || (leb b'0' c && leb c b'9')
    || c == b'_'
    || c == b'-'

unfoldable pub all_id_bytes : Bytes → Bool
unfolding is_id_byte
all_id_bytes [] = true
all_id_bytes (c ∷ s) = is_id_byte c && all_id_bytes s

-- ^[A-Za-z0-9_-]{8,32}$
unfoldable pub sid_pattern : Bytes → Bool
unfolding all_id_bytes
sid_pattern s = all_id_bytes s && leb 8 (length s) && leb (length s) 32

-- ^[A-Za-z0-9_-]{3,32}$
unfoldable pub id_pattern : Bytes → Bool
unfolding all_id_bytes
id_pattern s = all_id_bytes s && leb 3 (length s) && leb (length s) 32
