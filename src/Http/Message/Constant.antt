-- ===== src/Http/Message/Constant.antt =====
-- What `constant_time_eq` of crates/memoryd/src/main.rs decides.
use Prim.Native.Nat.{◌/◌, ◌%◌, digits, differ, bit_or, bit_xor, bit_or-bitwise, bit_xor-bitwise}
use memoryd.Prelude.{
  ℕ, zero, suc, ◌+◌, ◌<◌, ◌≤◌, max, true, List, [], ◌∷◌, ◌≡◌, refl, ◌↔◌, subst, arith, length,
  ==_iff,
}
use memoryd.Http.Message.{byte_at, diff_loop, constant_time_eq}

differ-zero : (a b : ℕ) → (differ a b ≡ 0) ↔ (a ≡ b)
differ-zero zero b = ground arith
differ-zero (suc a) zero = ground arith
differ-zero (suc a) (suc b) = ground (arith, differ-zero a b)

digits-differ-zero : (n a b : ℕ) → a ≤ n → (digits (λ b. b) differ n a b ≡ 0) ↔ (a ≡ b)
digits-differ-zero zero zero b h = ground arith
digits-differ-zero zero (suc a) b h = absurd (omega arith)
digits-differ-zero (suc n) zero b h = ground arith
digits-differ-zero (suc n) (suc a) b h =
    ground (
      arith,
      digits-differ-zero n (suc a / 2) (b / 2) (omega arith),
      differ-zero (suc a % 2) (b % 2),
    )

digits-max-zero : (n a b : ℕ) → a ≤ n → (digits (λ b. b) max n a b ≡ 0) ↔ ((a ≡ 0) × (b ≡ 0))
digits-max-zero zero zero b h = ground arith
digits-max-zero zero (suc a) b h = absurd (omega arith)
digits-max-zero (suc n) zero b h = ground arith
digits-max-zero (suc n) (suc a) b h =
    ground (arith, digits-max-zero n (suc a / 2) (b / 2) (omega arith))

bit_xor-zero : (a b : ℕ) → (bit_xor a b ≡ 0) ↔ (a ≡ b)
bit_xor-zero a b = rw bit_xor-bitwise (digits-differ-zero a a b (omega arith))

bit_or-zero : (a b : ℕ) → (bit_or a b ≡ 0) ↔ ((a ≡ 0) × (b ≡ 0))
bit_or-zero a b = rw bit_or-bitwise (digits-max-zero a a b (omega arith))

agree-suc :
    (n i : ℕ) (left right : List ℕ)
    → byte_at left i ≡ byte_at right i
    → ((k : ℕ) → k < n → byte_at left (suc i + k) ≡ byte_at right (suc i + k))
    → (k : ℕ) → k < suc n
    → byte_at left (i + k) ≡ byte_at right (i + k)
agree-suc n i left right here same zero lt =
    subst (λ j. byte_at left j ≡ byte_at right j) (omega arith) here
agree-suc n i left right here same (suc k) lt =
    subst (λ j. byte_at left j ≡ byte_at right j) (omega arith) (same k (omega arith))

diff_loop-zero :
    (n i d : ℕ) (left right : List ℕ)
    → diff_loop n i left right d ≡ 0
    → (d ≡ 0) × ((k : ℕ) → k < n → byte_at left (i + k) ≡ byte_at right (i + k))
unfolding diff_loop
diff_loop-zero zero i d left right h = (h, λ k lt. absurd (omega arith))
diff_loop-zero (suc n) i d left right h =
    let (z, same) = diff_loop-zero n (suc i) _ left right h in
    let (old, x) = (bit_or-zero d _).0 z in
    let here = (bit_xor-zero (byte_at left i) (byte_at right i)).0 x in
    (old, agree-suc n i left right here same)

diff_loop-same : (n i d : ℕ) (bs : List ℕ) → d ≡ 0 → diff_loop n i bs bs d ≡ 0
unfolding diff_loop
diff_loop-same zero i d bs h = h
diff_loop-same (suc n) i d bs h =
    diff_loop-same n (suc i) _ bs ((bit_or-zero d _).1 (h, (bit_xor-zero _ _).1 refl))

bytes_extensional :
    (left right : List ℕ)
    → length left ≡ length right
    → ((k : ℕ) → k < length left → byte_at left k ≡ byte_at right k)
    → left ≡ right
bytes_extensional [] [] h same = refl
bytes_extensional [] (b ∷ right) h same = absurd (omega arith)
bytes_extensional (a ∷ left) [] h same = absurd (omega arith)
bytes_extensional (a ∷ left) (b ∷ right) h same =
    let head : a ≡ b = same 0 (omega arith) in
    let tail = bytes_extensional left right (omega arith) (λ k lt. same (suc k) (omega arith)) in cc

-- The comparison in constant time answers true exactly for equal sequences of bytes.
pub constant_time_eq_iff :
    (left right : List ℕ) → (constant_time_eq left right ≡ true) ↔ (left ≡ right)
unfolding constant_time_eq
constant_time_eq_iff left right = (there, back)
  where
    rounds : ℕ
    rounds = max (length left) (length right)

    there : constant_time_eq left right ≡ true → left ≡ right
    there h =
        let (lengths, same) = diff_loop-zero rounds 0 _ left right ((==_iff _ 0).0 h) in
        bytes_extensional left right ((bit_xor-zero _ _).0 lengths) (λ k lt.
          subst (λ j. byte_at left j ≡ byte_at right j) (omega arith) (same k (omega arith)))

    back : left ≡ right → constant_time_eq left right ≡ true
    back h =
        subst (λ other. constant_time_eq left other ≡ true) h
          ((==_iff
              (diff_loop (max (length left) (length left)) 0 left left
                (bit_xor (length left) (length left)))
              0).1
            (diff_loop-same (max (length left) (length left)) 0
              (bit_xor (length left) (length left)) left
              ((bit_xor-zero (length left) (length left)).1 refl)))
