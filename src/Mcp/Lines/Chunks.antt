-- ===== src/Mcp/Lines/Chunks.antt =====
-- The lines of an input do not depend on the chunks that it comes in.
use mathlib.Core.List.{append_assoc, append-nil}
use memoryd.Prelude.{
  ℕ, suc, true, false, Option, none, some, List, [], ◌∷◌, ◌++◌, ltb, ◌==◌, if◌then◌else◌, length,
  length-append, All-append, take, drop, All, Result, ok, ◌≡◌, refl, sym, subst, ap, ◌∙◌, inl, inr,
  Bool-cases, arith, Option-cases,
}
use memoryd.Io.{IoError, is_interrupted}
use memoryd.Mcp.Lines.{
  Fill, chunk, failure, position, Buffer, extend, at_eof, rest_of, line_loop, read_capped_line,
}

-- An input is cut at its first newline.
abbrev pub first_line : List ℕ → List ℕ
first_line [] = []
first_line (b ∷ bs) = if b == b'\n' then [] else b ∷ first_line bs

abbrev pub after_line : List ℕ → List ℕ
after_line [] = []
after_line (b ∷ bs) = if b == b'\n' then bs else after_line bs

-- A line within the limit, or the mark that it is not.
abbrev pub capped : ℕ → List ℕ → Buffer
capped max line = if ltb max (length line) then ([], true) else (line, false)

abbrev pub first_capped : ℕ → List ℕ → Option Buffer
first_capped max [] = none
first_capped max (b ∷ bs) = some (capped max (first_line (b ∷ bs)))

-- The bytes of the chunks, and chunks that hold some.
abbrev pub flat : List Fill → List ℕ
flat [] = []
flat (chunk bs ∷ fills) = bs ++ flat fills
flat (failure e ∷ fills) = flat fills

abbrev IsGood : Fill → Type 0
IsGood (chunk []) = ⊥
IsGood (chunk (b ∷ bs)) = Unit
IsGood (failure e) = is_interrupted e ≡ true

longer :
    (max : ℕ) (seen bs : List ℕ)
    → ltb max (length seen) ≡ true
    → ltb max (length (seen ++ bs)) ≡ true
longer max seen bs over = ground (arith, length-append seen bs)

extend-capped :
    (max : ℕ) (seen bs : List ℕ) → extend max (capped max seen) bs ≡ capped max (seen ++ bs)
unfolding extend
extend-capped max seen bs = elim (Bool-cases (ltb max (length seen))) [
  | inl over ↦ rw (over, longer max seen bs over) refl
  | inr h ↦ rw (h, length-append seen bs) refl
]

-- What the loop gives, having seen some bytes of the line.
pub record Cuts (max : ℕ) (bytes : List ℕ) (r : Result IoError (Option Buffer × List Fill))
    : Type 0 where
  pub rest : List Fill
  pub gives : r ≡ ok (first_capped max bytes, rest)
  pub left : flat rest ≡ after_line bytes
  pub good : All IsGood rest

abbrev Inline : List ℕ → Type 0
Inline = All (λ b. (b == b'\n') ≡ false)

first_line-Inline :
    (seen rest : List ℕ) → Inline seen → first_line (seen ++ rest) ≡ seen ++ first_line rest
first_line-Inline [] rest h = refl
first_line-Inline (b ∷ seen) rest (h, hs) = rw (h, first_line-Inline seen rest hs) refl

after_line-Inline : (seen rest : List ℕ) → Inline seen → after_line (seen ++ rest) ≡ after_line rest
after_line-Inline [] rest h = refl
after_line-Inline (b ∷ seen) rest (h, hs) = rw h (after_line-Inline seen rest hs)

first_capped-cons :
    (max : ℕ) (seen : List ℕ) (b : ℕ) (bs : List ℕ)
    → Inline seen
    → first_capped max (seen ++ b ∷ bs) ≡ some (capped max (seen ++ first_line (b ∷ bs)))
first_capped-cons max [] b bs h = refl
first_capped-cons max (s ∷ seen) b bs h =
    ap (λ l. some (capped max l)) (first_line-Inline (s ∷ seen) (b ∷ bs) h)

position-none : (bs : List ℕ) → position bs ≡ none → Inline bs
unfolding position
position-none [] h = tt
position-none (b ∷ bs) h = elim (Bool-cases (b == b'\n')) [
  | inl found ↦ absurd (ground arith)
  | inr a ↦ elim (Option-cases (position bs)) [
    | inl n ↦ (a, position-none bs n)
    | inr (k, e) ↦ absurd (ground arith)
  ]
]

position-some :
    (bs rest : List ℕ) (i : ℕ)
    → position bs ≡ some i
    → (first_line (bs ++ rest) ≡ take i bs) × (after_line (bs ++ rest) ≡ drop (suc i) bs ++ rest)
unfolding position
position-some [] rest i h = absurd (ground arith)
position-some (b ∷ bs) rest i h = elim (Bool-cases (b == b'\n')) [
  | inl found ↦ let i_eq : i ≡ 0 = ground arith in rw (found, i_eq) (refl, refl)
  | inr a ↦ elim (Option-cases (position bs)) [
    | inl n ↦ absurd (ground arith)
    | inr (k, e) ↦
        let (first, after) = position-some bs rest k e in
        let i_eq : i ≡ suc k = ground arith in rw (a, i_eq) (ap (λ l. b ∷ l) first, after)
  ]
]

rest_of-flat : (bs : List ℕ) (fills : List Fill) → flat (rest_of bs fills) ≡ bs ++ flat fills
rest_of-flat [] fills = refl
rest_of-flat (b ∷ bs) fills = refl

rest_of-IsGood :
    (bs : List ℕ) (fills : List Fill) → All IsGood fills → All IsGood (rest_of bs fills)
rest_of-IsGood [] fills good = good
rest_of-IsGood (b ∷ bs) fills good = (tt, good)

at_eof-some : (max b : ℕ) (bs : List ℕ) → at_eof (capped max (b ∷ bs)) ≡ some (capped max (b ∷ bs))
at_eof-some max b bs = elim (Bool-cases (ltb max (length (b ∷ bs)))) [
  | inl a ↦ rw a refl
  | inr a ↦ rw a refl
]

capped-empty : (max : ℕ) → capped max [] ≡ ([], false)
capped-empty max = ground arith

at_eof-capped :
    (max : ℕ) (seen : List ℕ)
    → Inline seen
    → at_eof (capped max seen) ≡ first_capped max (seen ++ [])
at_eof-capped max [] h = elim (Bool-cases (ltb max 0)) [
  | inl a ↦ absurd (ground arith)
  | inr a ↦ rw a refl
]
at_eof-capped max (b ∷ seen) h =
    at_eof-some max b seen
    ∙ ap (λ l. some (capped max l))
        (sym (first_line-Inline (b ∷ seen) [] h ∙ append-nil (b ∷ seen)))

pub line_loop-more :
    (max : ℕ) (buffer : Buffer) (b : ℕ) (bs : List ℕ) (fills : List Fill)
    → position (b ∷ bs) ≡ none
    → line_loop max buffer (chunk (b ∷ bs) ∷ fills)
      ≡ line_loop max (extend max buffer (b ∷ bs)) fills
unfolding line_loop
line_loop-more max buffer b bs fills h = cc h

pub line_loop-found :
    (max : ℕ) (buffer : Buffer) (b : ℕ) (bs : List ℕ) (fills : List Fill) (i : ℕ)
    → position (b ∷ bs) ≡ some i
    → line_loop max buffer (chunk (b ∷ bs) ∷ fills)
      ≡ ok (some (extend max buffer (take i (b ∷ bs))), rest_of (drop (suc i) (b ∷ bs)) fills)
unfolding line_loop
line_loop-found max buffer b bs fills i h = cc h

found-Cuts :
    (max : ℕ) (seen : List ℕ) (b : ℕ) (bs : List ℕ) (fills : List Fill) (i : ℕ)
    → Inline seen
    → All IsGood fills
    → position (b ∷ bs) ≡ some i
    → Cuts max
        (seen ++ ((b ∷ bs) ++ flat fills))
        (line_loop max (capped max seen) (chunk (b ∷ bs) ∷ fills))
found-Cuts max seen b bs fills i h good e =
    let (first, after) = position-some (b ∷ bs) (flat fills) i e in
    let rest = drop (suc i) (b ∷ bs) in
    record {
      rest = rest_of rest fills;
      gives =
          line_loop-found max (capped max seen) b bs fills i e
          ∙ ap (λ x. ok (some x, rest_of rest fills)) (extend-capped max seen (take i (b ∷ bs)))
          ∙ ap (λ x. ok (x, rest_of rest fills))
              (sym (
                first_capped-cons max seen b (bs ++ flat fills) h
                ∙ ap (λ l. some (capped max (seen ++ l))) first));
      left =
          rest_of-flat rest fills ∙ sym (after_line-Inline seen ((b ∷ bs) ++ flat fills) h ∙ after);
      good = rest_of-IsGood rest fills good;
    }

line_loop-Cuts :
    (max : ℕ) (seen : List ℕ) (fills : List Fill)
    → Inline seen
    → All IsGood fills
    → Cuts max (seen ++ flat fills) (line_loop max (capped max seen) fills)
unfolding line_loop
line_loop-Cuts max seen [] h good = record {
  rest = [];
  gives = ap (λ x. ok (x, [])) (at_eof-capped max seen h);
  left = sym (after_line-Inline seen [] h);
  good = tt;
}
line_loop-Cuts max seen (failure e ∷ fills) h (g, good) =
    rw g (line_loop-Cuts max seen fills h good)
line_loop-Cuts max seen (chunk [] ∷ fills) h (g, good) = absurd g
line_loop-Cuts max seen (chunk (b ∷ bs) ∷ fills) h (g, good) =
    elim (Option-cases (position (b ∷ bs))) [
      | inl n ↦
          let inline =
            All-append (λ k. (k == b'\n') ≡ false) seen (b ∷ bs) h (position-none (b ∷ bs) n) in
          subst (Cuts max (seen ++ ((b ∷ bs) ++ flat fills)))
            (sym (
              line_loop-more max (capped max seen) b bs fills n
              ∙ ap (λ buffer. line_loop max buffer fills) (extend-capped max seen (b ∷ bs))))
            (subst (λ l. Cuts max l (line_loop max (capped max (seen ++ b ∷ bs)) fills))
              (append_assoc seen (b ∷ bs) (flat fills))
              (line_loop-Cuts max (seen ++ b ∷ bs) fills inline good))
      | inr (i, e) ↦ found-Cuts max seen b bs fills i h good e
    ]

-- Reading a line from chunks that are not empty, with no error but an interruption: the line is
-- what stands before the first newline of all bytes, or the mark of a line over the limit; there is
-- none exactly if there are no bytes; and what is left to read is what stands behind the newline.
pub read_capped_line-Cuts :
    (max : ℕ) (fills : List Fill)
    → All IsGood fills
    → Cuts max (flat fills) (read_capped_line max fills)
unfolding read_capped_line
read_capped_line-Cuts max fills good =
    subst (λ buffer. Cuts max (flat fills) (line_loop max buffer fills)) (capped-empty max)
      (line_loop-Cuts max [] fills tt good)
