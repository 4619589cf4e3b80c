-- ===== src/Text/Utf8/Roundtrip.antt =====
-- Every text is read back from its bytes.
use Prim.Native.Nat.{Ordering, compare}
use Prim.Native.Char.{Char, char, code}
use memoryd.Prelude.{
  ℕ, suc, ◌+◌, ◌*◌, ◌≤◌, ◌<◌, String, some, List, ◌∷◌, ◌++◌, ltb, ◌≡◌, refl, ap, ltb→lt, Bool-cases,
  ◌∙◌, arith, inl, inr,
}
use native.Mathlib.Omega.{compare-lt}
use memoryd.Text.{encode_utf8, as_bytes, prepend}
use memoryd.Text.Utf8.{
  Scalar, scalar?, least_checked, from_u32, alone, longer, lead, continued, last, from_utf8,
  continue_utf8,
}

scalar?-eq : (o p q : Ordering) (s : Scalar o p q) → scalar? o p q ≡ some s
scalar?-eq Ordering.lt p q s = refl
scalar?-eq Ordering.eq Ordering.lt Ordering.lt s = refl
scalar?-eq Ordering.eq Ordering.lt Ordering.eq s = absurd s
scalar?-eq Ordering.eq Ordering.lt Ordering.gt s = absurd s
scalar?-eq Ordering.eq Ordering.eq q s = absurd s
scalar?-eq Ordering.eq Ordering.gt q s = absurd s
scalar?-eq Ordering.gt Ordering.lt Ordering.lt s = refl
scalar?-eq Ordering.gt Ordering.lt Ordering.eq s = absurd s
scalar?-eq Ordering.gt Ordering.lt Ordering.gt s = absurd s
scalar?-eq Ordering.gt Ordering.eq q s = absurd s
scalar?-eq Ordering.gt Ordering.gt q s = absurd s

from_u32-code : (c : Char) → from_u32 (code c) ≡ some c
unfolding from_u32
from_u32-code (char n s) =
    cc (scalar?-eq (compare n 0xd800) (compare 0xdfff n) (compare n 0x110000) s)

scalar-bound :
    (n : ℕ) (o p q : Ordering)
    → compare n 0xd800 ≡ o
    → compare 0xdfff n ≡ p
    → compare n 0x110000 ≡ q
    → Scalar o p q
    → n < 0x110000
scalar-bound n Ordering.lt p q ho hp hq s = omega (arith, compare-lt n 0xd800 ho)
scalar-bound n Ordering.eq Ordering.lt Ordering.lt ho hp hq s = compare-lt n 0x110000 hq
scalar-bound n Ordering.eq Ordering.lt Ordering.eq ho hp hq s = absurd s
scalar-bound n Ordering.eq Ordering.lt Ordering.gt ho hp hq s = absurd s
scalar-bound n Ordering.eq Ordering.eq q ho hp hq s = absurd s
scalar-bound n Ordering.eq Ordering.gt q ho hp hq s = absurd s
scalar-bound n Ordering.gt Ordering.lt Ordering.lt ho hp hq s = compare-lt n 0x110000 hq
scalar-bound n Ordering.gt Ordering.lt Ordering.eq ho hp hq s = absurd s
scalar-bound n Ordering.gt Ordering.lt Ordering.gt ho hp hq s = absurd s
scalar-bound n Ordering.gt Ordering.eq q ho hp hq s = absurd s
scalar-bound n Ordering.gt Ordering.gt q ho hp hq s = absurd s

code-bound : (c : Char) → code c < 0x110000
code-bound (char n s) = scalar-bound n _ _ _ refl refl refl s

continued-eq : (bits k : ℕ) → k < 64 → continued bits (128 + k) ≡ some (bits * 64 + k)
unfolding continued
continued-eq bits k h = ground arith

checked : (least : ℕ) (c : Char) → least ≤ code c → least_checked least (code c) ≡ some c
checked least c le = ground (arith, from_u32-code c)

last_lem :
    (bits least b n : ℕ) → continued bits b ≡ some n → last bits least b ≡ least_checked least n
unfolding last
last_lem bits least b n h = cc h

last-eq :
    (bits least k : ℕ) (c : Char)
    → k < 64
    → bits * 64 + k ≡ code c
    → least ≤ code c
    → last bits least (128 + k) ≡ some c
last-eq bits least k c h e le =
    last_lem bits least (128 + k) (bits * 64 + k) (continued-eq bits k h)
    ∙ ap (least_checked least) e
    ∙ checked least c le

lead-two : (k : ℕ) → k < 32 → lead (192 + k) ≡ longer 0 k 0x80
unfolding lead
lead-two k h = ground arith

lead-three : (k : ℕ) → k < 16 → lead (224 + k) ≡ longer 1 k 0x800
unfolding lead
lead-three k h = ground arith

lead-four : (k : ℕ) → k < 8 → lead (240 + k) ≡ longer 2 k 0x10000
unfolding lead
lead-four k h = ground arith

from_utf8-longer :
    (b more bits least : ℕ) (bs : List ℕ)
    → lead b ≡ longer more bits least
    → from_utf8 (b ∷ bs) ≡ continue_utf8 more bits least bs
unfolding from_utf8
from_utf8-longer b more bits least bs h = cc h

continue_utf8-suc :
    (b more bits least n : ℕ) (bs : List ℕ)
    → continued bits b ≡ some n
    → continue_utf8 (suc more) bits least (b ∷ bs) ≡ continue_utf8 more n least bs
unfolding from_utf8
continue_utf8-suc b more bits least n bs h = cc h

continue_utf8-zero :
    (b bits least : ℕ) (c : Char) (bs : List ℕ)
    → last bits least b ≡ some c
    → continue_utf8 0 bits least (b ∷ bs) ≡ prepend c (from_utf8 bs)
unfolding from_utf8
continue_utf8-zero b bits least c bs h = rw (continue_utf8, h) refl

from_utf8-two :
    (c : Char) (bs : List ℕ) (a b : ℕ)
    → a < 32
    → b < 64
    → a * 64 + b ≡ code c
    → 0x80 ≤ code c
    → from_utf8 ((192 + a) ∷ (128 + b) ∷ bs) ≡ prepend c (from_utf8 bs)
from_utf8-two c bs a b ha hb e le =
    from_utf8-longer (192 + a) 0 a 0x80 ((128 + b) ∷ bs) (lead-two a ha)
    ∙ continue_utf8-zero (128 + b) a 0x80 c bs (last-eq a 0x80 b c hb e le)

from_utf8-three :
    (c : Char) (bs : List ℕ) (a b d : ℕ)
    → a < 16
    → b < 64
    → d < 64
    → (a * 64 + b) * 64 + d ≡ code c
    → 0x800 ≤ code c
    → from_utf8 ((224 + a) ∷ (128 + b) ∷ (128 + d) ∷ bs) ≡ prepend c (from_utf8 bs)
from_utf8-three c bs a b d ha hb hd e le =
    from_utf8-longer (224 + a) 1 a 0x800 ((128 + b) ∷ (128 + d) ∷ bs) (lead-three a ha)
    ∙ continue_utf8-suc (128 + b) 0 a 0x800 (a * 64 + b) ((128 + d) ∷ bs) (continued-eq a b hb)
    ∙ continue_utf8-zero (128 + d) (a * 64 + b) 0x800 c bs (last-eq (a * 64 + b) 0x800 d c hd e le)

from_utf8-four :
    (c : Char) (bs : List ℕ) (a b d f : ℕ)
    → a < 8
    → b < 64
    → d < 64
    → f < 64
    → ((a * 64 + b) * 64 + d) * 64 + f ≡ code c
    → 0x10000 ≤ code c
    → from_utf8 ((240 + a) ∷ (128 + b) ∷ (128 + d) ∷ (128 + f) ∷ bs) ≡ prepend c (from_utf8 bs)
from_utf8-four c bs a b d f ha hb hd hf e le =
    let high = (a * 64 + b) * 64 + d in
    from_utf8-longer (240 + a) 2 a 0x10000 ((128 + b) ∷ (128 + d) ∷ (128 + f) ∷ bs) (lead-four a ha)
    ∙ continue_utf8-suc (128 + b) 1 a 0x10000 (a * 64 + b) ((128 + d) ∷ (128 + f) ∷ bs)
        (continued-eq a b hb)
    ∙ continue_utf8-suc (128 + d) 0 (a * 64 + b) 0x10000 high ((128 + f) ∷ bs)
        (continued-eq (a * 64 + b) d hd)
    ∙ continue_utf8-zero (128 + f) high 0x10000 c bs (last-eq high 0x10000 f c hf e le)

from_utf8-alone :
    (b : ℕ) (c : Char) (bs : List ℕ)
    → lead b ≡ alone
    → from_u32 b ≡ some c
    → from_utf8 (b ∷ bs) ≡ prepend c (from_utf8 bs)
unfolding from_utf8
from_utf8-alone b c bs h e = cc (h, e)

lead-one : (b : ℕ) → b < 0x80 → lead b ≡ alone
unfolding lead
lead-one b h = ground arith

from_utf8-one :
    (c : Char) (bs : List ℕ) → code c < 0x80 → from_utf8 (code c ∷ bs) ≡ prepend c (from_utf8 bs)
from_utf8-one c bs h = from_utf8-alone (code c) c bs (lead-one (code c) h) (from_u32-code c)

from_utf8-encode_utf8 :
    (c : Char) (bs : List ℕ) → from_utf8 (encode_utf8 c ++ bs) ≡ prepend c (from_utf8 bs)
unfolding encode_utf8
from_utf8-encode_utf8 c bs = elim (Bool-cases (ltb (code c) 0x80)) [
  | inl one ↦ rw one (from_utf8-one c bs (ltb→lt (code c) 0x80 one))
  | inr h ↦ elim (Bool-cases (ltb (code c) 0x800)) [
    | inl two ↦
        rw (h, two)
          (from_utf8-two c bs _ _ (ground arith) (ground arith) (ground arith) (ground arith))
    | inr h2 ↦ elim (Bool-cases (ltb (code c) 0x10000)) [
      | inl three ↦
          rw (h, h2, three)
            (from_utf8-three c bs _ _ _ (ground arith) (ground arith) (ground arith) (ground arith)
              (ground arith))
      | inr h3 ↦
          rw (h, h2, h3)
            (from_utf8-four c bs _ _ _ _ (ground (arith, code-bound c)) (ground arith)
              (ground arith) (ground arith) (ground arith) (ground arith))
    ]
  ]
]

pub from_utf8-as_bytes : (s : String) → from_utf8 (as_bytes s) ≡ some s
unfolding as_bytes from_utf8
from_utf8-as_bytes String.[] = refl
from_utf8-as_bytes (String.◌∷◌ c s) =
    rw (from_utf8-encode_utf8 c (as_bytes s), from_utf8-as_bytes s) refl
