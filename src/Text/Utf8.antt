-- ===== src/Text/Utf8.antt =====
-- `String::from_utf8`: the strict from_utf8r of UTF-8, and its round trip with the bytes of a text.
pub mod Roundtrip
use Prim.Native.Nat.{Ordering, compare}
use Prim.Native.Char.{Char, char, code, IsLt}
use memoryd.Prelude.{
  ℕ, zero, suc, ◌+◌, ◌-◌, ◌*◌, ◌≤◌, ◌<◌, String, ◌&&◌, Option, none, some, List, [], ◌∷◌, ◌++◌, ltb,
  leb, if◌then◌else◌, ◌≡◌, refl, ap, ltb→lt, Bool-cases, ◌∙◌, arith, inl, inr,
}
use native.Mathlib.Omega.{compare-lt}
use memoryd.Text.{encode_utf8, as_bytes, prepend}

-- Being a scalar value, by the three comparisons that it is.
abbrev pub BothLt : Ordering → Ordering → Type 0
BothLt Ordering.lt o = IsLt o
BothLt Ordering.eq _ = ⊥
BothLt Ordering.gt _ = ⊥

abbrev pub Scalar : Ordering → Ordering → Ordering → Type 0
Scalar Ordering.lt _ _ = Unit
Scalar Ordering.eq o p = BothLt o p
Scalar Ordering.gt o p = BothLt o p

abbrev pub lt? : (o : Ordering) → Option (IsLt o)
lt? Ordering.lt = some tt
lt? Ordering.eq = none
lt? Ordering.gt = none

abbrev pub both_lt? : (o p : Ordering) → Option (BothLt o p)
both_lt? Ordering.lt p = lt? p
both_lt? Ordering.eq p = none
both_lt? Ordering.gt p = none

abbrev pub scalar? : (o p q : Ordering) → Option (Scalar o p q)
scalar? Ordering.lt p q = some tt
scalar? Ordering.eq p q = both_lt? p q
scalar? Ordering.gt p q = both_lt? p q

-- `char::from_u32`
unfoldable pub from_u32 : ℕ → Option Char
from_u32 n = elim (scalar? (compare n 0xd800) (compare 0xdfff n) (compare n 0x110000)) [
  | none ↦ none
  | some p ↦ some (char n p)
]

-- What a first byte says: a character by itself, or how many bytes are to come, their highest bits
-- and the least code that takes as many.
pub data Lead : Type 0 where
  alone : Lead
  longer : ℕ → ℕ → ℕ → Lead
  invalid : Lead

unfoldable pub lead : ℕ → Lead
lead b =
    if ltb b 0x80
    then alone
    else if ltb b 0xc0
    then invalid
    else if ltb b 0xe0
    then longer 0 (b - 0xc0) 0x80
    else if ltb b 0xf0
    then longer 1 (b - 0xe0) 0x800
    else if ltb b 0xf8
    then longer 2 (b - 0xf0) 0x10000
    else invalid

-- The bits with those of one more byte, and the character when that byte is the last.
unfoldable pub continued : ℕ → ℕ → Option ℕ
continued bits b = if leb 0x80 b && ltb b 0xc0 then some (bits * 64 + (b - 0x80)) else none

abbrev pub least_checked : ℕ → ℕ → Option Char
least_checked least n = if ltb n least then none else from_u32 n

unfoldable pub last : ℕ → ℕ → ℕ → Option Char
last bits least b = elim (continued bits b) [ none ↦ none | some n ↦ least_checked least n ]

-- The decoder, and the bytes that it expects inside a character.
unfoldable mutual
  pub from_utf8 : List ℕ → Option String
  from_utf8 [] = some String.[]
  from_utf8 (b ∷ bs) = elim (lead b) [
    | alone ↦ elim (from_u32 b) [ none ↦ none | some c ↦ prepend c (from_utf8 bs) ]
    | longer more bits least ↦ continue_utf8 more bits least bs
    | invalid ↦ none
  ]

  pub continue_utf8 : ℕ → ℕ → ℕ → List ℕ → Option String
  continue_utf8 more bits least [] = none
  continue_utf8 zero bits least (b ∷ bs) = elim (last bits least b) [
    | none ↦ none
    | some c ↦ prepend c (from_utf8 bs)
  ]
  continue_utf8 (suc more) bits least (b ∷ bs) = elim (continued bits b) [
    | none ↦ none
    | some n ↦ continue_utf8 more n least bs
  ]
