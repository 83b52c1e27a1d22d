-- ===== src/Rtsp/Response.antt =====
-- rtsp_client.go: readRTSPResponse, on the bytes that the connection delivers before a read fails. The
-- deadline of three seconds is set anew in every round, so a read fails when the camera is silent for as
-- long, or has closed the connection; a camera that goes on sending is a longer and longer list of bytes.
pub mod Reading
pub mod RoundTrip
pub mod Streaming
use o_camera_agent.Common.{
  ℕ, zero, suc, ◌+◌, ◌*◌, ◌≤◌, Bool, true, false, ◌==◌, ltb, leb, if◌then◌else◌, List, [], ◌∷◌,
  ◌++◌, map, Option, none, some, length, take, drop,
}
use o_camera_agent.Common.Int.{ℤ, pos, negsuc, pos_part}
use o_camera_agent.Common.Text.{Bytes, codes, same, has_prefix, to_lower, trim_space}
use o_camera_agent.Common.Decimal.{atoi}
use o_camera_agent.Rtsp.Headers.{parse_rtsp_status_code}

-- What a loop comes to. `panicked` is `make` with a length that the run-time refuses; the loop on fuel
-- may run out of it.
pub data Result (A : Type 0) : Type 0 where
  done : A → Result A
  failed panicked out_of_fuel : Result A

-- The response, its status, and what the connection still delivers.
pub record Response : Type 0 where
  pub text : Bytes
  pub status : ℤ
  pub rest : Bytes

-- ReadString('\n'): the line with its end, and the rest.
unfoldable pub read_line : Bytes → Option (Bytes × Bytes)
read_line [] = none
read_line (c ∷ s) =
    let rest = read_line s in
    if c == b'\n'
    then some (c ∷ [], s)
    else (elim rest [ none ↦ none | some (l, r) ↦ some (c ∷ l, r) ])

-- strings.TrimPrefix
abbrev trim_prefix : Bytes → Bytes → Bytes
trim_prefix s p = if has_prefix s p then drop (length p) s else s

-- The variable `contentLength` after a line.
unfoldable pub content_length : Bytes → ℤ → ℤ
unfolding has_prefix to_lower trim_space atoi
content_length line n =
    let lower = map to_lower line in
    if has_prefix lower (codes "content-length:")
    then (atoi (trim_space (trim_prefix lower (codes "content-length:")))).value
    else n

-- The lines of the header, with the builder and `contentLength`.
unfoldable pub read_headers : ℕ → Bytes → ℤ → Bytes → Result (Bytes × ℤ × Bytes)
unfolding read_line same content_length
read_headers zero text n input = out_of_fuel
read_headers (suc fuel) text n input = elim (read_line input) [
  | none ↦ failed
  | some (line, rest) ↦
      let more = read_headers fuel (text ++ line) (content_length line n) rest in
      if same line (codes "\r\n") then done (text ++ line, n, rest) else more
]

-- From the end of the header. `limit` is the length above which `make([]byte, n)` panics.
unfoldable pub read_body : ℕ → ℤ → Bytes × ℤ × Bytes → Result Response
read_body limit status (text, pos zero, rest) =
    done (record { text = text; status = status; rest = rest })
read_body limit status (text, pos (suc m), rest) =
    if ltb limit (suc m)
    then panicked
    else if ltb (length rest) (suc m)
    then failed
    else done
        (record { text = text ++ take (suc m) rest; status = status; rest = drop (suc m) rest })
read_body limit status (text, negsuc m, rest) =
    done (record { text = text; status = status; rest = rest })

abbrev pub and_then : {A B : Type 0} → Result A → (A → Result B) → Result B
and_then (done a) f = f a
and_then failed f = failed
and_then panicked f = panicked
and_then out_of_fuel f = out_of_fuel

-- A response whose first line was read.
unfoldable pub read_from : ℕ → ℕ → Bytes → Bytes → Result Response
unfolding read_headers read_body parse_rtsp_status_code
read_from limit fuel line rest =
    and_then (read_headers fuel line (pos 0) rest) (read_body limit (parse_rtsp_status_code line))

-- A frame that arrives meanwhile, without its first byte; `none` if it is not complete.
unfoldable pub skip_frame : Bytes → Option Bytes
skip_frame (channel ∷ hi ∷ lo ∷ rest) =
    let frame_len = hi * 256 + lo in
    if ltb (length rest) frame_len then none else some (drop frame_len rest)
skip_frame _ = none

-- One round of the loop, with the rounds after it as `again`.
abbrev pub framed : (Bytes → Result Response) → Option Bytes → Result Response
framed again none = failed
framed again (some rest) = again rest

abbrev pub lined : ℕ → ℕ → (Bytes → Result Response) → Option (Bytes × Bytes) → Result Response
lined limit fuel again none = failed
lined limit fuel again (some (line, rest)) =
    let skipped = again rest in
    if has_prefix line (codes "RTSP/") then read_from limit fuel line rest else skipped

-- The loop.
unfoldable pub read_response : ℕ → ℕ → Bytes → Result Response
unfolding skip_frame read_line has_prefix read_from
read_response limit zero input = out_of_fuel
read_response limit (suc fuel) [] = failed
read_response limit (suc fuel) (c ∷ s) =
    if c == 36
    then framed (read_response limit fuel) (skip_frame s)
    else lined limit fuel (read_response limit fuel) (read_line (c ∷ s))

unfoldable pub read_rtsp_response : ℕ → Bytes → Result Response
unfolding read_response
read_rtsp_response limit input = read_response limit (suc (length input)) input
