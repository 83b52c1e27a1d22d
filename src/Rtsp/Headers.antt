-- ===== src/Rtsp/Headers.antt =====
-- rtsp_client.go: what is read from the header of a response. `none` is a run-time panic: a slice that
-- is out of range.
pub mod Session
pub mod Directive
use o_camera_agent.Common.{
  ℕ, ◌+◌, ◌-◌, ◌&&◌, List, [], ◌∷◌, ◌++◌, Option, none, some, if◌then◌else◌, leb, length, take,
  drop,
}
use o_camera_agent.Common.Int.{ℤ, pos}
use o_camera_agent.Common.Text.{Bytes, codes, index, contains, trim_space}
use o_camera_agent.Common.Split.{split_two, split_crlf, before, fields_in, fields}
use o_camera_agent.Common.Decimal.{atoi}

-- s[a:b]
abbrev pub slice : ℕ → ℕ → Bytes → Option Bytes
slice a b s = if leb a b && leb b (length s) then some (take (b - a) (drop a s)) else none

-- The end of a directive's value, from its start: strings.Index is -1 where there is no quote.
abbrev pub directive_end : ℕ → Option ℕ → ℕ
directive_end start none = start - 1
directive_end start (some i) = start + i

abbrev pub trimmed : Option Bytes → Option Bytes
trimmed none = none
trimmed (some s) = some (trim_space s)

unfoldable pub parse_directive : Bytes → Bytes → Option Bytes
unfolding index trim_space
parse_directive header name = elim (index header (name ++ codes "=\"")) [
  | none ↦ some []
  | some i ↦
      let start = i + (length name + 2) in
      let end = directive_end start (index (drop start header) (codes "\"")) in
      trimmed (slice start end header)
]

-- s[9:]
abbrev pub behind_session : Bytes → Option Bytes
behind_session s = if leb 9 (length s) then some (drop 9 s) else none

unfoldable pub session_of : List Bytes → Option Bytes
unfolding contains before
session_of [] = some []
session_of (element ∷ elements) =
    let rest = session_of elements in
    if contains element (codes "Session:")
    then (if contains element (codes ";")
        then behind_session (before b';' element)
        else behind_session element)
    else rest

unfoldable pub parse_session : Bytes → Option Bytes
unfolding split_two session_of
parse_session header = session_of (split_crlf header)

abbrev status_of : List Bytes → ℤ
status_of (a ∷ b ∷ rest) = let r = atoi b in if r.is_ok then r.value else pos 0
status_of _ = pos 0

unfoldable pub parse_rtsp_status_code : Bytes → ℤ
unfolding fields_in atoi
parse_rtsp_status_code status_line = status_of (fields status_line)
