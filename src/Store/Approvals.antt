-- ===== src/Store/Approvals.antt =====
-- `decide_approval` and `auto_approve_profile_facts` of crates/memoryd-core/src/store.rs. The
-- outer read and the write transaction are two functions, since another process may write in
-- between. The random id of a new fact is an argument.
pub mod Facts
pub mod Decision
use Prim.Native.Nat.{Ordering}
use Prim.Native.String.{compare}
use memoryd.Prelude.{
  ℕ, suc, ◌+◌, String, ◌<>◌, Bool, true, false, ◌&&◌, ◌||◌, Option, none, some, List, [], ◌∷◌, ◌++◌,
  map, ltb, ◌is◌, if◌then◌else◌, filter, find, length, any, Result, ok, err, ◌>>=◌, ok_or, not,
}
use memoryd.Prelude.Int.{ℤ, ltb_ℤ, leb_ℤ}
use memoryd.Json.{Codec, Value, number, string, object, end, field, pos_int, get, as_str}
use memoryd.Redact.Spans.{Redacted, redacted}
use memoryd.Redact.Inline.{Engine, redact_inline_string_with_count}
use memoryd.Store.Tables.{
  Tables, Approval, ApprovalState, Fact, FactState, StoreError, json, approval_not_found,
  malformed_approval, no_rows,
}
use memoryd.Store.Audit.{insert_audit_log}
use memoryd.Store.Capture.{Failure, store_error, lift}

pub record ApprovalDecision : Type 0 where
  pub state : ApprovalState
  pub committed_fact : Bool
  pub already_decided : Bool

abbrev pub is_pending : ApprovalState → Bool
is_pending ApprovalState.pending = true
is_pending _ = false

abbrev pub is_active : FactState → Bool
is_active FactState.active = true
is_active _ = false

-- UPDATE approvals SET state = …, decided_at = ?1 WHERE id = ?2
unfoldable pub update_approvals : String → ApprovalState → ℤ → List Approval → List Approval
update_approvals id state now rows =
    map (λ a. if a.id is id then record a { state = state; decided_at = some now } else a) rows

-- UPDATE profile_facts SET state = 'superseded' WHERE fact_key = ?1 AND state = 'active'
unfoldable pub supersede : String → List Fact → List Fact
supersede key rows =
    map
      (λ f.
        if (f.fact_key is key) && is_active f.state
        then record f { state = FactState.superseded }
        else f)
      rows

-- The BINARY collation of two texts.
abbrev text_le : String → String → Bool
text_le a b = elim (compare a b) [ Ordering.gt ↦ false | _ ↦ true ]

abbrev text_or_empty : Option Value → String
text_or_empty none = ""
text_or_empty (some (string s)) = s
text_or_empty (some _) = ""

abbrev maybe_text : Option Value → Option String
maybe_text none = none
maybe_text (some v) = as_str v

abbrev confidence_of : Codec → Option Value → ℕ
confidence_of C (some (number n)) = C.as_f64 n
confidence_of C _ = 0

-- `ORDER BY requested_at, id`
abbrev earlier : Approval → Approval → Bool
earlier a b =
    ltb_ℤ a.requested_at b.requested_at
    || (leb_ℤ a.requested_at b.requested_at
        && leb_ℤ b.requested_at a.requested_at
        && text_le a.id b.id)

insert : Approval → List Approval → List Approval
insert a [] = a ∷ []
insert a (b ∷ rest) = if earlier a b then a ∷ b ∷ rest else b ∷ insert a rest

sort : List Approval → List Approval
sort [] = []
sort (a ∷ rest) = insert a (sort rest)

abbrev pub is_open_fact : Approval → Bool
is_open_fact a = is_pending a.state && (a.target_type is "profile_fact")

abbrev names : List Approval → List String
names = map (λ a. a.id)

pub open_fact_ids : List Approval → List String
unfolding sort insert
open_fact_ids rows = names (sort (filter is_open_fact rows))

-- Whether a fact was committed, how much of its value was redacted, and the facts.
pub record Committed : Type 0 where
  pub committed : Bool
  pub redactions : ℕ
  pub facts : List Fact

-- The new row of `profile_facts`.
abbrev pub fact_row : Codec → String → Value → String → ℤ → String → Fact
fact_row C approval_id change value now fact_id = record {
  id = fact_id;
  fact_key = text_or_empty (get "fact_key" change);
  fact_value = value;
  confidence = confidence_of C (get "confidence" change);
  source_memory_id = maybe_text (get "source_memory_id" change);
  approval_id = approval_id;
  state = FactState.active;
  created_at = now;
}

-- The two statements that replace the active fact of a key, behind the check of the key.
unfoldable pub insert_fact : Fact → ℕ → List Fact → Result Failure Committed
insert_fact f redactions facts =
    if f.fact_key is ""
    then err (store_error (malformed_approval f.approval_id))
    else ok (record {
      committed = true;
      redactions = redactions;
      facts = supersede f.fact_key facts ++ f ∷ [];
    })

abbrev pub kept : List Fact → Committed
kept facts = record { committed = false; redactions = 0; facts = facts }

abbrev action_of : Bool → Bool → String
action_of accept committed =
    if not accept
    then "reject_approval"
    else if committed
    then "approve_profile_fact"
    else "approve"

abbrev pub new_state : Bool → ApprovalState
new_state accept = if accept then ApprovalState.approved else ApprovalState.rejected

module _ (C : Codec) (E : Engine) where
  -- The branch of an accepted `profile_fact`.
  unfoldable pub commit_fact : String → String → ℤ → String → List Fact → Result Failure Committed
  commit_fact approval_id proposed_change now fact_id facts = do
    change ← ok_or (C.parse proposed_change) (store_error json)
    value ← lift (redact_inline_string_with_count E (text_or_empty (get "fact_value" change)))
    insert_fact (fact_row C approval_id change value.value now fact_id) value.redactions facts

  -- What a decision does to the facts.
  unfoldable pub decide_facts :
      String → String → String → Bool → ℤ → String → List Fact → Result Failure Committed
  decide_facts approval_id target_type proposed_change accept now fact_id facts =
      if accept && (target_type is "profile_fact")
      then commit_fact approval_id proposed_change now fact_id facts
      else ok (kept facts)

  abbrev detail_of : ℕ → Option String
  detail_of n =
      if ltb 0 n
      then some (
          C.print (
            object (
              field "fact_value_redactions" (number (pos_int n))
                (field "replacement" (string redacted) end))))
      else none

  -- The transaction on a pending approval.
  unfoldable pub decide_pending :
      String
      → String
      → String
      → Bool
      → ℤ
      → String
      → Tables
      → Result Failure (ApprovalDecision × Tables)
  decide_pending id target_type change accept now fact_id t = do
    c ← decide_facts id target_type change accept now fact_id t.facts
    let u =
        insert_audit_log t (action_of accept c.committed) "approval" (some id)
          (detail_of c.redactions) now
    ok (
      record { state = new_state accept; committed_fact = c.committed; already_decided = false },
      record u {
        approvals = update_approvals id (new_state accept) now t.approvals;
        facts = c.facts;
      },
    )

  -- The transaction, given the target type and the change that the outer read returned.
  unfoldable pub decide_tx :
      String
      → String
      → String
      → Bool
      → ℤ
      → String
      → Tables
      → Result Failure (ApprovalDecision × Tables)
  decide_tx id target_type change accept now fact_id t = do
    row ← ok_or (find (λ a. a.id is id) t.approvals) (store_error no_rows)
    if is_pending row.state
        then decide_pending id target_type change accept now fact_id t
        else ok (record { state = row.state; committed_fact = false; already_decided = true }, t)

  unfoldable pub decide_approval :
      String → Bool → ℤ → String → Tables → Result Failure (ApprovalDecision × Tables)
  decide_approval id accept now fact_id t = do
    row ← ok_or (find (λ a. a.id is id) t.approvals) (store_error (approval_not_found id))
    decide_tx id row.target_type row.proposed_change accept now fact_id t

  -- The loop over the ids. A decision that fails ends it, and those before it stay committed.
  pub decide_all : List String → ℤ → (ℕ → String) → ℕ → Tables → Result Failure ℕ × Tables
  decide_all [] now fact_ids n t = (ok n, t)
  decide_all (id ∷ rest) now fact_ids n t =
      elim (decide_approval id true now (fact_ids (length rest)) t) [
        | err e ↦ (err e, t)
        | ok (d, u) ↦ decide_all rest now fact_ids (if d.committed_fact then suc n else n) u
      ]

  pub auto_approve_profile_facts : ℤ → (ℕ → String) → Tables → Result Failure ℕ × Tables
  unfolding decide_all open_fact_ids
  auto_approve_profile_facts now fact_ids t =
      decide_all (open_fact_ids t.approvals) now fact_ids 0 t
