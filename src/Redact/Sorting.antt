-- ===== src/Redact/Sorting.antt =====
-- A sort of spans by their starts that meets what the redactor relies on.
use mathlib.Core.List.{Perm}
use mathlib.Core.List.Perm
use memoryd.Prelude.{
  ℕ, ◌≤◌, List, [], ◌∷◌, inl, inr, arith, leb, leb→le, if◌then◌else◌, All, Bool-cases,
}
use memoryd.Redact.Spans.{Span, IsSortedByStart, Sorter}

unfoldable pub insert : Span → List Span → List Span
insert s [] = s ∷ []
insert s (t ∷ ts) = if leb s.0 t.0 then s ∷ t ∷ ts else t ∷ insert s ts

unfoldable pub sort : List Span → List Span
unfolding insert
sort [] = []
sort (s ∷ ss) = insert s (sort ss)

insert-perm : (s : Span) (ts : List Span) → Perm (insert s ts) (s ∷ ts)
unfolding insert
insert-perm s [] = Perm.refl (s ∷ [])
insert-perm s (t ∷ ts) = elim (Bool-cases (leb s.0 t.0)) [
  | inl first ↦ rw first (Perm.refl (s ∷ t ∷ ts))
  | inr later ↦ rw later (Perm.trans (Perm.cons t (insert-perm s ts)) (Perm.swap s t ts))
]

pub sort-perm : (ss : List Span) → Perm (sort ss) ss
unfolding sort
sort-perm [] = Perm.nil
sort-perm (s ∷ ss) = Perm.trans (insert-perm s (sort ss)) (Perm.cons s (sort-perm ss))

abbrev Above : ℕ → List Span → Type 0
Above n = All (λ (t : Span). n ≤ t.0)

Above-mono : (m n : ℕ) (ts : List Span) → m ≤ n → Above n ts → Above m ts
Above-mono m n [] h a = tt
Above-mono m n (t ∷ ts) h a = (omega arith, Above-mono m n ts h a.1)

Above-insert : (n : ℕ) (s : Span) (ts : List Span) → n ≤ s.0 → Above n ts → Above n (insert s ts)
unfolding insert
Above-insert n s [] h a = (h, tt)
Above-insert n s (t ∷ ts) h a = elim (Bool-cases (leb s.0 t.0)) [
  | inl first ↦ rw first (h, a)
  | inr later ↦ rw later (a.0, Above-insert n s ts h a.1)
]

insert-IsSortedByStart :
    (s : Span) (ts : List Span) → IsSortedByStart ts → IsSortedByStart (insert s ts)
unfolding insert
insert-IsSortedByStart s [] h = (tt, tt)
insert-IsSortedByStart s (t ∷ ts) h = elim (Bool-cases (leb s.0 t.0)) [
  | inl first ↦
      rw first ((leb→le s.0 t.0 first, Above-mono s.0 t.0 ts (leb→le s.0 t.0 first) h.0), h)
  | inr later ↦ rw later (Above-insert t.0 s ts (ground arith) h.0, insert-IsSortedByStart s ts h.1)
]

pub sort-IsSortedByStart : (ss : List Span) → IsSortedByStart (sort ss)
unfolding sort
sort-IsSortedByStart [] = tt
sort-IsSortedByStart (s ∷ ss) = insert-IsSortedByStart s (sort ss) (sort-IsSortedByStart ss)

abbrev pub insertion_sorter : Sorter
insertion_sorter = record {
  sort = sort;
  sort-perm = sort-perm;
  sort-IsSortedByStart = sort-IsSortedByStart;
}
