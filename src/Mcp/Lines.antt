-- ===== src/Mcp/Lines.antt =====
-- `read_capped_line` of crates/memoryd/src/mcp.rs. A reader is the list of what its calls of
-- `fill_buf` give; an empty chunk, and the end of the list, are the end of the input.
pub mod Chunks
pub mod Size
use memoryd.Prelude.{
  ℕ, zero, suc, ◌+◌, ◌*◌, Bool, true, false, not, ◌&&◌, Option, none, some, List, [], ◌∷◌, ◌++◌,
  ltb, ◌==◌, if◌then◌else◌, length, take, drop, Result, ok, err,
}
use memoryd.Io.{IoError, is_interrupted}

abbrev pub max_mcp_line_bytes : ℕ
max_mcp_line_bytes = 1024 * 1024

pub data Fill : Type 0 where
  chunk : List ℕ → Fill
  failure : IoError → Fill

-- `iter().position(|&byte| byte == b'\n')`
unfoldable pub position : List ℕ → Option ℕ
position [] = none
position (b ∷ bs) =
    let later = position bs in
    if b == b'\n' then some 0 else elim later [ none ↦ none | some i ↦ some (suc i) ]

-- The buffer, and whether the line is over the limit.
abbrev pub Buffer : Type 0
Buffer = List ℕ × Bool

-- The bytes are added, unless the line is over the limit or they take it there.
unfoldable pub extend : ℕ → Buffer → List ℕ → Buffer
extend max (buf, over) bytes =
    if over
    then (buf, true)
    else if ltb max (length buf + length bytes)
    then ([], true)
    else (buf ++ bytes, false)

abbrev is_empty : List ℕ → Bool
is_empty [] = true
is_empty (b ∷ bs) = false

abbrev pub at_eof : Buffer → Option Buffer
at_eof (buf, over) = if is_empty buf && not over then none else some (buf, over)

-- What `consume` leaves of a chunk.
abbrev pub rest_of : List ℕ → List Fill → List Fill
rest_of [] fills = fills
rest_of (b ∷ bs) fills = chunk (b ∷ bs) ∷ fills

unfoldable pub line_loop : ℕ → Buffer → List Fill → Result IoError (Option Buffer × List Fill)
line_loop max buffer [] = ok (at_eof buffer, [])
line_loop max buffer (failure e ∷ fills) =
    let again = line_loop max buffer fills in if is_interrupted e then again else err e
line_loop max buffer (chunk [] ∷ fills) = ok (at_eof buffer, fills)
line_loop max buffer (chunk (b ∷ bs) ∷ fills) = elim (position (b ∷ bs)) [
  | some newline ↦ ok (
    some (extend max buffer (take newline (b ∷ bs))),
    rest_of (drop (suc newline) (b ∷ bs)) fills,
  )
  | none ↦ line_loop max (extend max buffer (b ∷ bs)) fills
]

unfoldable pub read_capped_line : ℕ → List Fill → Result IoError (Option Buffer × List Fill)
unfolding line_loop
read_capped_line max fills = line_loop max ([], false) fills
