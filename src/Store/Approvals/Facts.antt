-- ===== src/Store/Approvals/Facts.antt =====
-- What a commit does to the facts: one active fact at most for each key.
use memoryd.Prelude.{
  ℕ, ◌+◌, ◌≤◌, String, Bool, true, false, ◌&&◌, List, [], ◌∷◌, ◌++◌, ◌≡◌, refl, ◌≢◌, inl, inr,
  arith, ◌is◌, eq_iff, if◌then◌else◌, count, count-append, ok, Bool-cases,
}
use memoryd.Store.Tables.{Fact, FactState}
use memoryd.Store.Approvals.{is_active, supersede, Committed, insert_fact}

abbrev pub active_count : String → List Fact → ℕ
active_count k = count (λ f. (f.fact_key is k) && is_active f.state)

-- The index `profile_facts_active_key`.
abbrev pub IsUniqueActive : List Fact → Type 0
IsUniqueActive facts = (k : String) → active_count k facts ≤ 1

pub active_count-supersede :
    (k key : String) (facts : List Fact)
    → active_count k (supersede key facts) ≡ (if key is k then 0 else active_count k facts)
unfolding supersede
active_count-supersede k key [] = ground arith
active_count-supersede k key (f ∷ facts) = ground (
  arith,
  active_count-supersede k key facts,
  eq_iff key k,
  eq_iff f.fact_key k,
  eq_iff f.fact_key key,
)

pub active_count-snoc :
    (k : String) (facts : List Fact) (f : Fact)
    → f.state ≡ FactState.active
    → active_count k (facts ++ f ∷ []) ≡ active_count k facts + (if f.fact_key is k then 1 else 0)
active_count-snoc k facts f h =
    ground
      (arith, count-append (λ (x : Fact). (x.fact_key is k) && is_active x.state) facts (f ∷ []))

-- What a commit makes of the facts: a new active fact that cites the approval takes the place of
-- the active fact of its key.
abbrev pub Commits : String → List Fact → Committed → Type 0
Commits id facts c =
    (f : Fact) × (f.fact_key ≢ "")
    × (f.state ≡ FactState.active)
    × (f.approval_id ≡ id)
    × (c.committed ≡ true)
    × (c.facts ≡ supersede f.fact_key facts ++ f ∷ [])

pub Commits-IsUniqueActive :
    (id : String) (facts : List Fact) (c : Committed)
    → Commits id facts c
    → IsUniqueActive facts
    → IsUniqueActive c.facts
Commits-IsUniqueActive id facts c (f, _, active, _, _, e) u k = rw e (
    rw (active_count-snoc k (supersede f.fact_key facts) f active)
      (ground (arith, active_count-supersede k f.fact_key facts, u k)))

pub insert_fact-Commits :
    (f : Fact) (n : ℕ) (facts : List Fact) (c : Committed)
    → f.state ≡ FactState.active
    → insert_fact f n facts ≡ ok c
    → Commits f.approval_id facts c
unfolding insert_fact
insert_fact-Commits f n facts c active h = elim (Bool-cases (f.fact_key is "")) [
  | inl blank ↦ absurd (ground arith)
  | inr given ↦ (f, ground (arith, eq_iff f.fact_key ""), active, refl, ground arith, ground arith)
]

-- An accepted profile fact is committed; every other decision leaves the facts alone.
abbrev pub Decides : String → Bool → String → List Fact → Committed → Type 0
Decides id accept target_type facts c =
    if accept && (target_type is "profile_fact")
    then Commits id facts c
    else ((c.committed ≡ false) × (c.facts ≡ facts))
