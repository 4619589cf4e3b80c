-- ===== src/Store/Queue/Keys.antt =====
-- The primary key of `jobs`: ids that ascend with the row, so no two rows share one.
use memoryd.Prelude.{
  ℕ, ◌<◌, Bool, true, false, List, [], ◌∷◌, ◌++◌, map, filter, All, ◌≡◌, refl, inl, inr, arith,
  Bool-cases,
}
use memoryd.Store.Tables.{Job}
use memoryd.Store.Queue.{elem, ids}
use memoryd.Store.Queue.Lease.{holds_at}

abbrev pub Above : ℕ → List ℕ → Type 0
Above n = All (λ i. n < i)

abbrev pub IsAscending : List ℕ → Type 0
IsAscending [] = Unit
IsAscending (i ∷ is) = Above i is × IsAscending is

pub elem-Above : (n : ℕ) (is : List ℕ) → Above n is → elem n is ≡ false
elem-Above n [] h = refl
elem-Above n (i ∷ is) (h, hs) = ground (arith, elem-Above n is hs)

Above-filter :
    (n : ℕ) (q : Job → Bool) (js : List Job) → Above n (ids js) → Above n (ids (filter q js))
Above-filter n q [] h = tt
Above-filter n q (j ∷ js) (h, hs) = elim (Bool-cases (q j)) [
  | inl kept ↦ rw kept (h, Above-filter n q js hs)
  | inr gone ↦ rw gone (Above-filter n q js hs)
]

pub IsAscending-filter :
    (q : Job → Bool) (js : List Job) → IsAscending (ids js) → IsAscending (ids (filter q js))
IsAscending-filter q [] h = tt
IsAscending-filter q (j ∷ js) (h, hs) = elim (Bool-cases (q j)) [
  | inl kept ↦ rw kept (Above-filter j.id q js h, IsAscending-filter q js hs)
  | inr gone ↦ rw gone (IsAscending-filter q js hs)
]

pub ids-map :
    (f : Job → Job) (js : List Job) → ((j : Job) → (f j).id ≡ j.id) → ids (map f js) ≡ ids js
ids-map f [] h = refl
ids-map f (j ∷ js) h = cc (h j, ids-map f js h)

Above-snoc : (n k : ℕ) (is : List ℕ) → n < k → Above n is → Above n (is ++ k ∷ [])
Above-snoc n k [] lt h = (lt, tt)
Above-snoc n k (i ∷ is) lt (h, hs) = (h, Above-snoc n k is lt hs)

pub IsAscending-snoc :
    (k : ℕ) (is : List ℕ) → All (λ i. i < k) is → IsAscending is → IsAscending (is ++ k ∷ [])
IsAscending-snoc k [] below h = (tt, tt)
IsAscending-snoc k (i ∷ is) (lt, below) (h, hs) =
    (Above-snoc i k is lt h, IsAscending-snoc k is below hs)

-- A test that holds of some row under this id holds of the row.
abbrev pub IsFound : (Job → Bool) → List Job → Job → Type 0
IsFound p js j = holds_at p j.id js ≡ true → p j ≡ true

holds_at-Above :
    (p : Job → Bool) (n : ℕ) (js : List Job) → Above n (ids js) → holds_at p n js ≡ false
holds_at-Above p n [] h = refl
holds_at-Above p n (j ∷ js) (h, hs) = ground (arith, holds_at-Above p n js hs)

All-IsFound-cons :
    (p : Job → Bool) (j : Job) (js ks : List Job)
    → Above j.id (ids ks)
    → All (IsFound p js) ks
    → All (IsFound p (j ∷ js)) ks
All-IsFound-cons p j js [] h found = tt
All-IsFound-cons p j js (k ∷ ks) (h, hs) (f, fs) =
    (λ e. ground (arith, f), All-IsFound-cons p j js ks hs fs)

pub All-IsFound : (p : Job → Bool) (js : List Job) → IsAscending (ids js) → All (IsFound p js) js
All-IsFound p [] h = tt
All-IsFound p (j ∷ js) (h, hs) = (
  λ e. ground (arith, holds_at-Above p j.id js h),
  All-IsFound-cons p j js js h (All-IsFound p js hs),
)
