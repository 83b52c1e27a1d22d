-- ===== src/Rtsp/Media.antt =====
-- rtsp_client.go: ParseMedia, the tracks and the size of the picture that a description names.
pub mod Tracks
pub mod Size
use o_camera_agent.Common.{
  ℕ, zero, suc, ◌+◌, ◌-◌, ◌*◌, ◌^◌, Bool, true, false, not, ◌&&◌, ◌||◌, if◌then◌else◌, ltb, leb,
  ◌==◌, List, [], ◌∷◌, ◌++◌, Option, none, some, length, drop,
}
use o_camera_agent.Common.Text.{Bytes, codes, has_prefix, index, contains, is_space}
use o_camera_agent.Common.Split.{split, split_two, split_crlf, last_index}
use o_camera_agent.Rtsp.Request.{ClientState}

-- The digits at the front, behind `seen` if there were some.
abbrev number_in : Option ℕ → Bytes → Option ℕ
number_in seen [] = seen
number_in none (c ∷ s) =
    let rest = number_in (some (c - b'0')) s in if leb b'0' c && leb c b'9' then rest else none
number_in (some n) (c ∷ s) =
    let rest = number_in (some (n * 10 + (c - b'0'))) s in
    if leb b'0' c && leb c b'9' then rest else some n

-- A number that does not fit an int is an error.
abbrev fitting : Option ℕ → ℕ
fitting none = 0
fitting (some n) = if ltb n (2 ^ 63) then n else 0

abbrev signed : Bytes → ℕ
signed [] = 0
signed (c ∷ s) =
    if c == b'-'
    then 0
    else if c == b'+'
    then fitting (number_in none s)
    else fitting (number_in none (c ∷ s))

-- fmt.Sscanf(s, "%d", &v) with v = 0 before; 0 also stands for a number below it. A new line is not
-- skipped.
unfoldable pub scan_int : Bytes → ℕ
unfolding is_space
scan_int [] = 0
scan_int (c ∷ s) =
    let rest = scan_int s in if is_space c && not (c == b'\n') then rest else signed (c ∷ s)

-- The dimensions before the first that is not positive.
unfoldable pub dims_of : List Bytes → List ℕ
unfolding scan_int
dims_of [] = []
dims_of (s ∷ rest) =
    let more = dims_of rest in let v = scan_int s in if v == 0 then [] else v ∷ more

abbrev pub control_prefix : Bytes
control_prefix = codes "a=control:"

abbrev pub dimensions_prefix : Bytes
dimensions_prefix = codes "a=x-dimensions:"

-- What stands behind the last slash.
unfoldable pub behind_slash : Bytes → Bytes
unfolding last_index
behind_slash paste = elim (last_index b'/' paste) [ none ↦ paste | some i ↦ drop (suc i) paste ]

-- The track that a line names.
unfoldable pub control_of : Bytes → List Bytes
unfolding index contains behind_slash
control_of element = elim (index element control_prefix) [
  | none ↦ []
  | some i ↦
      if contains element (codes "*")
      then []
      else behind_slash (drop (i + length control_prefix) element) ∷ []
]

abbrev pub with_dims : ClientState → List ℕ → ClientState
with_dims rc (w ∷ h ∷ []) = record rc { videow = w; videoh = h }
with_dims rc _ = rc

-- The picture's size in the client, after a line.
unfoldable pub dimensions_of : ClientState → Bytes → ClientState
unfolding has_prefix split dims_of
dimensions_of rc element =
    if has_prefix element dimensions_prefix
    then with_dims rc (dims_of (split b',' (drop (length dimensions_prefix) element)))
    else rc

unfoldable pub media_lines : ClientState → List Bytes → List Bytes × ClientState
unfolding control_of dimensions_of
media_lines rc [] = ([], rc)
media_lines rc (element ∷ elements) =
    let (letters, rc') = media_lines (dimensions_of rc element) elements in
    (control_of element ++ letters, rc')

unfoldable pub parse_media : ClientState → Bytes → List Bytes × ClientState
unfolding split_two media_lines
parse_media rc header = media_lines rc (split_crlf header)
