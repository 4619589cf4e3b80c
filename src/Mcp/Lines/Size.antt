-- ===== src/Mcp/Lines/Size.antt =====
-- Every line that is read leaves less to read.
use memoryd.Prelude.{
  ℕ, zero, suc, ◌+◌, ◌≤◌, false, Option, none, some, List, [], ◌∷◌, length, drop, Result, ok, err,
  sym, subst, inl, inr, Bool-cases, Option-cases, arith,
}
use memoryd.Io.{IoError, is_interrupted}
use memoryd.Mcp.Lines.{
  Fill, chunk, failure, position, Buffer, extend, rest_of, line_loop, read_capped_line,
}
use memoryd.Mcp.Lines.Chunks.{line_loop-more, line_loop-found}

abbrev pub size : List Fill → ℕ
size [] = 0
size (chunk bs ∷ fills) = suc (length bs) + size fills
size (failure e ∷ fills) = suc (size fills)

abbrev Leaves : ℕ → Result IoError (Option Buffer × List Fill) → Type 0
Leaves n (err e) = Unit
Leaves n (ok (line, rest)) = size rest ≤ n

abbrev pub Takes : ℕ → Result IoError (Option Buffer × List Fill) → Type 0
Takes n (err e) = Unit
Takes n (ok (none, rest)) = Unit
Takes n (ok (some line, rest)) = suc (size rest) ≤ n

Leaves-mono :
    (n m : ℕ) (r : Result IoError (Option Buffer × List Fill)) → n ≤ m → Leaves n r → Leaves m r
Leaves-mono n m (err e) le h = tt
Leaves-mono n m (ok (line, rest)) le h = omega arith

Leaves-Takes :
    (n m : ℕ) (r : Result IoError (Option Buffer × List Fill)) → suc n ≤ m → Leaves n r → Takes m r
Leaves-Takes n m (err e) le h = tt
Leaves-Takes n m (ok (none, rest)) le h = tt
Leaves-Takes n m (ok (some line, rest)) le h = omega arith

length-drop-le : (n : ℕ) (bs : List ℕ) → length (drop n bs) ≤ length bs
length-drop-le zero bs = omega arith
length-drop-le (suc n) [] = omega arith
length-drop-le (suc n) (b ∷ bs) = omega (arith, length-drop-le n bs)

size-rest_of :
    (bs : List ℕ) (fills : List Fill) → size (rest_of bs fills) ≤ suc (length bs) + size fills
size-rest_of [] fills = omega arith
size-rest_of (b ∷ bs) fills = omega arith

found-le :
    (i : ℕ) (b : ℕ) (bs : List ℕ) (fills : List Fill)
    → suc (size (rest_of (drop (suc i) (b ∷ bs)) fills)) ≤ size (chunk (b ∷ bs) ∷ fills)
found-le i b bs fills = omega (arith, size-rest_of (drop i bs) fills, length-drop-le i bs)

line_loop-Leaves :
    (max : ℕ) (buffer : Buffer) (fills : List Fill)
    → Leaves (size fills) (line_loop max buffer fills)
unfolding line_loop
line_loop-Leaves max buffer [] = omega arith
line_loop-Leaves max buffer (chunk [] ∷ fills) = omega arith
line_loop-Leaves max buffer (failure e ∷ fills) = elim (Bool-cases (is_interrupted e)) [
  | inl again ↦ rw again (
      Leaves-mono (size fills) (suc (size fills)) (line_loop max buffer fills) (omega arith)
        (line_loop-Leaves max buffer fills))
  | inr h ↦ rw h tt
]
line_loop-Leaves max buffer (chunk (b ∷ bs) ∷ fills) = elim (Option-cases (position (b ∷ bs))) [
  | inl n ↦
      subst (Leaves (size (chunk (b ∷ bs) ∷ fills))) (sym (line_loop-more max buffer b bs fills n))
        (Leaves-mono (size fills) (size (chunk (b ∷ bs) ∷ fills))
          (line_loop max (extend max buffer (b ∷ bs)) fills) (omega arith)
          (line_loop-Leaves max (extend max buffer (b ∷ bs)) fills))
  | inr (i, e) ↦
      subst (Leaves (size (chunk (b ∷ bs) ∷ fills)))
        (sym (line_loop-found max buffer b bs fills i e)) (omega (arith, found-le i b bs fills))
]

-- An interruption or a chunk is taken before there is a line.
line_loop-Takes :
    (max : ℕ) (fills : List Fill) → Takes (size fills) (line_loop max ([], false) fills)
unfolding line_loop
line_loop-Takes max [] = tt
line_loop-Takes max (chunk [] ∷ fills) = tt
line_loop-Takes max (failure e ∷ fills) = elim (Bool-cases (is_interrupted e)) [
  | inl again ↦ rw again (
      Leaves-Takes (size fills) (suc (size fills)) (line_loop max ([], false) fills) (omega arith)
        (line_loop-Leaves max ([], false) fills))
  | inr h ↦ rw h tt
]
line_loop-Takes max (chunk (b ∷ bs) ∷ fills) = elim (Option-cases (position (b ∷ bs))) [
  | inl n ↦
      subst (Takes (size (chunk (b ∷ bs) ∷ fills)))
        (sym (line_loop-more max ([], false) b bs fills n))
        (Leaves-Takes (size fills) (size (chunk (b ∷ bs) ∷ fills))
          (line_loop max (extend max ([], false) (b ∷ bs)) fills) (omega arith)
          (line_loop-Leaves max (extend max ([], false) (b ∷ bs)) fills))
  | inr (i, e) ↦
      subst (Takes (size (chunk (b ∷ bs) ∷ fills)))
        (sym (line_loop-found max ([], false) b bs fills i e)) (found-le i b bs fills)
]

pub read_capped_line-Takes :
    (max : ℕ) (fills : List Fill) → Takes (size fills) (read_capped_line max fills)
unfolding read_capped_line
read_capped_line-Takes max fills = line_loop-Takes max fills
