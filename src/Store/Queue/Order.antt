-- ===== src/Store/Queue/Order.antt =====
-- The ORDER BY and LIMIT of the lease: a claim takes the first jobs by priority, then by the time
-- that they were scheduled for, then by id.
use mathlib.Core.List.{Perm}
use mathlib.Core.List.Perm
use memoryd.Prelude.{
  ℕ, zero, suc, min, true, false, List, [], ◌∷◌, ◌++◌, ◌≡◌, refl, inl, inr, arith, length, take,
  drop, filter, All, Bool-cases, length-take, not, Bool,
}
use memoryd.Prelude.Int.{ℤ}
use memoryd.Store.Tables.{Job}
use memoryd.Store.Queue.Due.{IsDue, Precedes, leasable-IsDue, IsDue-leasable, before-Precedes}
use memoryd.Store.Queue.{is_leasable, before, insert, sort, ids, due_ids}

before_total : (a b : Job) → before a b ≡ false → before b a ≡ true
unfolding before
before_total a b h = ground arith

before_trans : (a b c : Job) → before a b ≡ true → before b c ≡ true → before a c ≡ true
unfolding before
before_trans a b c h k = ground arith

abbrev pub Before : Job → List Job → Type 0
Before a = All (λ b. before a b ≡ true)

abbrev IsSorted : List Job → Type 0
IsSorted [] = Unit
IsSorted (j ∷ js) = Before j js × IsSorted js

Before-trans : (a b : Job) (js : List Job) → before a b ≡ true → Before b js → Before a js
Before-trans a b [] h k = tt
Before-trans a b (j ∷ js) h k = (before_trans a b j h k.0, Before-trans a b js h k.1)

Before-insert :
    (a j : Job) (js : List Job) → before a j ≡ true → Before a js → Before a (insert j js)
unfolding insert
Before-insert a j [] h k = (h, tt)
Before-insert a j (x ∷ xs) h k = elim (Bool-cases (before j x)) [
  | inl first ↦ rw first (h, k)
  | inr later ↦ rw later (k.0, Before-insert a j xs h k.1)
]

insert-IsSorted : (j : Job) (js : List Job) → IsSorted js → IsSorted (insert j js)
unfolding insert
insert-IsSorted j [] s = (tt, tt)
insert-IsSorted j (x ∷ xs) s = elim (Bool-cases (before j x)) [
  | inl first ↦ rw first ((first, Before-trans j x xs first s.0), s)
  | inr later ↦
      rw later (Before-insert x j xs (before_total j x later) s.0, insert-IsSorted j xs s.1)
]

sort-IsSorted : (js : List Job) → IsSorted (sort js)
unfolding sort
sort-IsSorted [] = tt
sort-IsSorted (j ∷ js) = insert-IsSorted j (sort js) (sort-IsSorted js)

insert-perm : (j : Job) (js : List Job) → Perm (insert j js) (j ∷ js)
unfolding insert
insert-perm j [] = Perm.refl (j ∷ [])
insert-perm j (x ∷ xs) = elim (Bool-cases (before j x)) [
  | inl first ↦ rw first (Perm.refl (j ∷ x ∷ xs))
  | inr later ↦ rw later (Perm.trans (Perm.cons x (insert-perm j xs)) (Perm.swap j x xs))
]

sort-perm : (js : List Job) → Perm (sort js) js
unfolding sort
sort-perm [] = Perm.nil
sort-perm (j ∷ js) = Perm.trans (insert-perm j (sort js)) (Perm.cons j (sort-perm js))

length-insert : (j : Job) (js : List Job) → length (insert j js) ≡ suc (length js)
unfolding insert
length-insert j [] = refl
length-insert j (x ∷ xs) = ground (arith, length-insert j xs)

length-sort : (js : List Job) → length (sort js) ≡ length js
unfolding sort
length-sort [] = refl
length-sort (j ∷ js) = omega (arith, length-insert j (sort js), length-sort js)

perm_middle : (j : Job) (xs ys : List Job) → Perm (xs ++ j ∷ ys) (j ∷ (xs ++ ys))
perm_middle j [] ys = Perm.refl (j ∷ ys)
perm_middle j (x ∷ xs) ys =
    Perm.trans (Perm.cons x (perm_middle j xs ys)) (Perm.swap j x (xs ++ ys))

take-append-drop : (n : ℕ) (js : List Job) → take n js ++ drop n js ≡ js
take-append-drop zero js = refl
take-append-drop (suc n) [] = refl
take-append-drop (suc n) (j ∷ js) = rw (take-append-drop n js)

partition-perm :
    (p : Job → Bool) (js : List Job) → Perm (filter p js ++ filter (λ j. not (p j)) js) js
partition-perm p [] = Perm.nil
partition-perm p (j ∷ js) = elim (Bool-cases (p j)) [
  | inl kept ↦ rw kept (Perm.cons j (partition-perm p js))
  | inr gone ↦ rw gone (
      Perm.trans (perm_middle j (filter p js) (filter (λ x. not (p x)) js))
        (Perm.cons j (partition-perm p js)))
]

All-filter-IsDue :
    (now vis : ℤ) (js : List Job) → All (IsDue now vis) (filter (is_leasable now vis) js)
All-filter-IsDue now vis [] = tt
All-filter-IsDue now vis (j ∷ js) = elim (Bool-cases (is_leasable now vis j)) [
  | inl due ↦ rw due (leasable-IsDue now vis j due, All-filter-IsDue now vis js)
  | inr not_due ↦ rw not_due (All-filter-IsDue now vis js)
]

All-filter-not-IsDue :
    (now vis : ℤ) (js : List Job)
    → All (λ j. ¬ IsDue now vis j) (filter (λ j. not (is_leasable now vis j)) js)
All-filter-not-IsDue now vis [] = tt
All-filter-not-IsDue now vis (j ∷ js) = elim (Bool-cases (is_leasable now vis j)) [
  | inl due ↦ rw due (All-filter-not-IsDue now vis js)
  | inr not_due ↦
      rw not_due (λ d. ground (arith, IsDue-leasable now vis j d), All-filter-not-IsDue now vis js)
]

All-insert : (P : Job → Type 0) (j : Job) (js : List Job) → P j → All P js → All P (insert j js)
unfolding insert
All-insert P j [] h hs = (h, tt)
All-insert P j (x ∷ xs) h (k, ks) = elim (Bool-cases (before j x)) [
  | inl first ↦ rw first (h, (k, ks))
  | inr later ↦ rw later (k, All-insert P j xs h ks)
]

All-sort : (P : Job → Type 0) (js : List Job) → All P js → All P (sort js)
unfolding sort
All-sort P [] h = tt
All-sort P (j ∷ js) (h, hs) = All-insert P j (sort js) h (All-sort P js hs)

All-map : (P Q : Job → Type 0) (js : List Job) → ((j : Job) → P j → Q j) → All P js → All Q js
All-map P Q [] f h = tt
All-map P Q (j ∷ js) f (h, hs) = (f j h, All-map P Q js f hs)

-- Each job stands before all that follow it.
abbrev pub IsOrdered : List Job → Type 0
IsOrdered [] = Unit
IsOrdered (j ∷ js) = All (Precedes j) js × IsOrdered js

sorted-IsOrdered : (js : List Job) → IsSorted js → IsOrdered js
sorted-IsOrdered [] s = tt
sorted-IsOrdered (j ∷ js) (first, s) =
    (All-map _ (Precedes j) js (before-Precedes j) first, sorted-IsOrdered js s)

-- The jobs are the due ones in an order, of which the claim takes as many from the front as the
-- limit allows, and others. A due job is an embed job that waits with its time come, or that runs
-- under a lease at least as old as the visibility timeout, and no other job is due. The order is by
-- priority, then by the scheduled time, then by id.
pub due_ids_lem :
    (now vis : ℤ) (limit : ℕ) (js : List Job)
    → (claimed : List Job) × (left : List Job) × (others : List Job) × (due_ids now vis limit js
        ≡ ids claimed)
      × (length claimed ≡ min limit (length (claimed ++ left)))
      × IsOrdered (claimed ++ left)
      × All (IsDue now vis) (claimed ++ left)
      × All (λ j. ¬ IsDue now vis j) others
      × Perm ((claimed ++ left) ++ others) js
unfolding due_ids
due_ids_lem now vis limit js =
    let found = filter (is_leasable now vis) js in
    let others = filter (λ j. not (is_leasable now vis j)) js in
    (
      take limit (sort found),
      drop limit (sort found),
      others,
      refl,
      rw take-append-drop (length-take limit (sort found)),
      rw take-append-drop (sorted-IsOrdered (sort found) (sort-IsSorted found)),
      rw take-append-drop (All-sort (IsDue now vis) found (All-filter-IsDue now vis js)),
      All-filter-not-IsDue now vis js,
      rw take-append-drop (
          Perm.trans (Perm.append (sort-perm found) (Perm.refl others))
            (partition-perm (is_leasable now vis) js)),
    )
