-- ===== src/Redact/Entropy.antt =====
-- `shannon_entropy` of crates/memoryd-core/src/store.rs. The floats are a parameter.
use memoryd.Prelude.{
  ℕ, zero, suc, String, Bool, List, [], ◌∷◌, map, ltb, ◌==◌, if◌then◌else◌, filter, count, length,
}
use memoryd.Text.{as_bytes}

-- `f64`, with the operations that the code uses.
pub record Float : Type 1 where
  pub F64 : Type 0
  pub of_ℕ : ℕ → F64
  pub neg : F64 → F64
  pub mul : F64 → F64 → F64
  pub div : F64 → F64 → F64
  pub log2 : F64 → F64
  pub sum : List F64 → F64
  pub le : F64 → F64 → Bool

-- 0, …, n - 1, in front of a list.
range_onto : ℕ → List ℕ → List ℕ
range_onto zero ks = ks
range_onto (suc n) ks = range_onto n (n ∷ ks)

-- How often each ASCII byte occurs, the bytes in order, those that do not occur left out.
counts : List ℕ → List ℕ
unfolding range_onto
counts bytes = filter (ltb 0) (map (λ b. count (λ c. c == b) bytes) (range_onto 128 []))

module _ (F : Float) where
  open F use {F64, of_ℕ, neg, mul, div, log2, sum}

  -- - p · log2 p for a byte that occurs `k` times among `n`.
  term : ℕ → ℕ → F64
  term n k = let p = div (of_ℕ k) (of_ℕ n) in mul (neg p) (log2 p)

  unfoldable pub shannon_entropy : String → F64
  unfolding counts term
  shannon_entropy candidate =
      let bytes = filter (λ b. ltb b 128) (as_bytes candidate) in
      if length bytes == 0 then of_ℕ 0 else sum (map (term (length bytes)) (counts bytes))
