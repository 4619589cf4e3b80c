-- ===== src/Store/Approvals/Decision.antt =====
-- What a decision on an approval leaves, and that nothing is left for a second decider.
use memoryd.Prelude.{
  suc, String, Bool, true, false, ◌&&◌, some, List, [], ◌∷◌, ◌≡◌, refl, subst, ok-injective, ◌⊎◌,
  inl, inr, arith, ◌is◌, length, length-append, find, ok, >>=-eq-ok, ok_or, Bool-cases,
}
use memoryd.Prelude.Int.{ℤ}
use memoryd.Json.{Codec}
use memoryd.Redact.Inline.{Engine, redact_inline_string_with_count}
use memoryd.Store.Tables.{Tables, Approval, ApprovalState, Fact}
use memoryd.Store.Audit.{insert_audit_log}
use memoryd.Store.Capture.{lift}
use memoryd.Store.Approvals.{
  ApprovalDecision, is_pending, update_approvals, Committed, fact_row, commit_fact, decide_facts,
  new_state, decide_pending, decide_tx, decide_approval,
}
use memoryd.Store.Approvals.Facts.{
  IsUniqueActive, Commits, Commits-IsUniqueActive, insert_fact-Commits, Decides,
}

-- The effect of a transaction on a pending approval.
abbrev pub Effect : String → String → Bool → ℤ → Tables → ApprovalDecision × Tables → Type 0
Effect id target_type accept now t (d, u) =
    (c : Committed) × Decides id accept target_type t.facts c
    × (d ≡ record {
      state = new_state accept;
      committed_fact = c.committed;
      already_decided = false;
    })
    × (u.facts ≡ c.facts)
    × (u.approvals ≡ update_approvals id (new_state accept) now t.approvals)
    × (length u.audit_log ≡ suc (length t.audit_log))

-- A transaction either finds the approval decided, and changes nothing, or decides it.
abbrev pub Outcome : String → String → Bool → ℤ → Tables → ApprovalDecision × Tables → Type 0
Outcome id target_type accept now t (d, u) =
    (row : Approval) × (find (λ a. a.id is id) t.approvals ≡ some row)
    × (((is_pending row.state ≡ false)
          × (d ≡ record { state = row.state; committed_fact = false; already_decided = true })
          × (u ≡ t))
        ⊎ ((is_pending row.state ≡ true) × Effect id target_type accept now t (d, u)))

module _ (C : Codec) (E : Engine) where
  commit_fact-Commits :
      (id change : String) (now : ℤ) (fact_id : String) (facts : List Fact) (c : Committed)
      → commit_fact C E id change now fact_id facts ≡ ok c
      → Commits id facts c
  unfolding commit_fact
  commit_fact-Commits id change now fact_id facts c h =
      let (v, parsed, h') = >>=-eq-ok (ok_or (C.parse change) _) _ h in
      let (r, hidden, h'') = >>=-eq-ok (lift (redact_inline_string_with_count E _)) _ h' in
      insert_fact-Commits (fact_row C id v r.value now fact_id) r.redactions facts c refl h''

  decide_facts-Decides :
      (id target_type change : String) (accept : Bool) (now : ℤ) (fact_id : String)
      (facts : List Fact) (c : Committed)
      → decide_facts C E id target_type change accept now fact_id facts ≡ ok c
      → Decides id accept target_type facts c
  unfolding decide_facts
  decide_facts-Decides id target_type change accept now fact_id facts c h =
      elim (Bool-cases (accept && (target_type is "profile_fact"))) [
        | inl commits ↦
            rw commits
              (commit_fact-Commits id change now fact_id facts c (rw (commits, decide_facts) at h))
        | inr keeps ↦ rw keeps (ground arith)
      ]

find-update_approvals :
    (id : String) (state : ApprovalState) (now : ℤ) (rows : List Approval) (r : Approval)
    → find (λ a. a.id is id) rows ≡ some r
    → find (λ a. a.id is id) (update_approvals id state now rows)
      ≡ some (record r { state = state; decided_at = some now })
unfolding update_approvals
find-update_approvals id state now [] r h = cc
find-update_approvals id state now (a ∷ rows) r h = elim (Bool-cases (a.id is id)) [
  | inl hit ↦ rw (hit, hit) (ground arith)
  | inr miss ↦ rw (miss, miss) (find-update_approvals id state now rows r (rw miss at h))
]

Outcome-IsUniqueActive :
    (id target_type : String) (accept : Bool) (now : ℤ) (t : Tables) (r : ApprovalDecision × Tables)
    → Outcome id target_type accept now t r
    → IsUniqueActive t.facts
    → IsUniqueActive r.1.facts
Outcome-IsUniqueActive id target_type accept now t (d, u) (row, found, inl (_, _, same)) unique =
    rw same unique
Outcome-IsUniqueActive id target_type accept now t (d, u)
      (row, found, inr (_, (c, decides, _, facts, _, _))) unique =
    rw facts (elim (Bool-cases (accept && (target_type is "profile_fact"))) [
      | inl commits ↦ Commits-IsUniqueActive id t.facts c (rw commits at decides) unique
      | inr keeps ↦ (let k = rw keeps at decides in rw (k.1) unique)
    ])

-- The approval is there, in a state other than pending.
abbrev IsSettled : String → ApprovalState → Tables → Type 0
IsSettled id state t =
    (row : Approval) × (find (λ a. a.id is id) t.approvals ≡ some row)
    × (row.state ≡ state)
    × (is_pending state ≡ false)

new_state-not-pending : (accept : Bool) → is_pending (new_state accept) ≡ false
new_state-not-pending true = refl
new_state-not-pending false = refl

Outcome-IsSettled :
    (id target_type : String) (accept : Bool) (now : ℤ) (t : Tables) (r : ApprovalDecision × Tables)
    → Outcome id target_type accept now t r
    → IsSettled id r.0.state r.1
Outcome-IsSettled id target_type accept now t (d, u) (row, found, inl (done, e, same)) =
    (row, rw same found, ground arith, ground arith)
Outcome-IsSettled id target_type accept now t (d, u) (row, found, inr (_, (c, _, e, _, rows, _))) =
    (
      record row { state = new_state accept; decided_at = some now },
      rw rows (find-update_approvals id (new_state accept) now t.approvals row found),
      ground arith,
      ground (arith, new_state-not-pending accept),
    )

module _ (C : Codec) (E : Engine) where
  decide_pending-Effect :
      (id target_type change : String) (accept : Bool) (now : ℤ) (fact_id : String) (t : Tables)
      (r : ApprovalDecision × Tables)
      → decide_pending C E id target_type change accept now fact_id t ≡ ok r
      → Effect id target_type accept now t r
  unfolding decide_pending insert_audit_log
  decide_pending-Effect id target_type change accept now fact_id t r h =
      let (c, decided, h') =
        >>=-eq-ok (decide_facts C E id target_type change accept now fact_id t.facts) _ h in
      subst (Effect id target_type accept now t) (ok-injective h') (
        c,
        decide_facts-Decides C E id target_type change accept now fact_id t.facts c decided,
        refl,
        refl,
        refl,
        omega (arith, length-append t.audit_log (_ ∷ [])),
      )

  decide_tx-Outcome :
      (id target_type change : String) (accept : Bool) (now : ℤ) (fact_id : String) (t : Tables)
      (r : ApprovalDecision × Tables)
      → decide_tx C E id target_type change accept now fact_id t ≡ ok r
      → Outcome id target_type accept now t r
  unfolding decide_tx
  decide_tx-Outcome id target_type change accept now fact_id t r h =
      let (row, found, h') = >>=-eq-ok (ok_or (find (λ a. a.id is id) t.approvals) _) _ h in
      elim (Bool-cases (is_pending row.state)) [
        | inl waits ↦ (
          row,
          ground arith,
          inr (
            waits,
            decide_pending-Effect id target_type change accept now fact_id t r (rw waits at h'),
          ),
        )
        | inr done ↦ (row, ground arith, inl (done, ground arith, ground arith))
      ]

  decide_tx-settled :
      (id target_type change : String) (accept : Bool) (now : ℤ) (fact_id : String) (t : Tables)
      (state : ApprovalState)
      → IsSettled id state t
      → decide_tx C E id target_type change accept now fact_id t
        ≡ ok (record { state = state; committed_fact = false; already_decided = true }, t)
  unfolding decide_tx
  decide_tx-settled id target_type change accept now fact_id t state (row, found, same, done) =
      rw (found, decide_tx) (rw (same, done))

  pub decide_approval-Outcome :
      (id : String) (accept : Bool) (now : ℤ) (fact_id : String) (t u : Tables)
      (d : ApprovalDecision)
      → decide_approval C E id accept now fact_id t ≡ ok (d, u)
      → (row : Approval) × (find (λ a. a.id is id) t.approvals ≡ some row)
        × Outcome id row.target_type accept now t (d, u)
  unfolding decide_approval
  decide_approval-Outcome id accept now fact_id t u d h =
      let (row, found, h') = >>=-eq-ok (ok_or (find (λ a. a.id is id) t.approvals) _) _ h in
      (
        row,
        ground arith,
        decide_tx-Outcome id row.target_type row.proposed_change accept now fact_id t (d, u) h',
      )

  -- A decision that succeeds keeps one active fact at most for each key.
  pub decide_approval-IsUniqueActive :
      (id : String) (accept : Bool) (now : ℤ) (fact_id : String) (t u : Tables)
      (d : ApprovalDecision)
      → decide_approval C E id accept now fact_id t ≡ ok (d, u)
      → IsUniqueActive t.facts
      → IsUniqueActive u.facts
  decide_approval-IsUniqueActive id accept now fact_id t u d h unique =
      let (row, found, outcome) = decide_approval-Outcome id accept now fact_id t u d h in
      Outcome-IsUniqueActive id row.target_type accept now t (d, u) outcome unique

  -- Once an approval is decided, any later decision on it changes nothing and reports the first
  -- one's state: also that of a second decider who read the approval before the first wrote.
  pub decide_twice :
      (id target_type change : String) (accept accept' : Bool) (now now' : ℤ)
      (fact_id fact_id' : String) (t u : Tables) (d : ApprovalDecision)
      → decide_approval C E id accept now fact_id t ≡ ok (d, u)
      → decide_tx C E id target_type change accept' now' fact_id' u
        ≡ ok (record { state = d.state; committed_fact = false; already_decided = true }, u)
  decide_twice id target_type change accept accept' now now' fact_id fact_id' t u d h =
      let (row, found, outcome) = decide_approval-Outcome id accept now fact_id t u d h in
      decide_tx-settled id target_type change accept' now' fact_id' u d.state
        (Outcome-IsSettled id row.target_type accept now t (d, u) outcome)
