-- ===== src/Store/Staging/Imports.antt =====
-- A whole run of `import_units`: its summary, and what it leaves.
use memoryd.Prelude.{
  ℕ, ◌+◌, ◌≤◌, min, String, Bool, true, false, ◌&&◌, some, List, [], ◌∷◌, All, ◌≡◌, ◌≢◌, refl, sym,
  subst, ok, err, Result, ◌∙◌, inl, inr, Bool-cases, arith, ◌is◌, length, if◌then◌else◌,
  ok-injective, eq_iff,
}
use memoryd.Prelude.Int.{ℤ, i64_max}
use memoryd.Json.{Codec}
use memoryd.Redact.Inline.{Engine}
use memoryd.Import.{ImportUnit}
use memoryd.Store.Tables.{Tables, ImportBatch, BatchState}
use memoryd.Store.Queue.{active_job_count}
use memoryd.Store.Capture.{Failure}
use memoryd.Store.Staging.{
  ImportSummary, begin_import_batch, finish, finish_import, import_summary, import_units,
  fresh_batch, reset_batch,
}
use memoryd.Store.Staging.Loop.{stage_all}
use memoryd.Store.Staging.Counts.{batch_at, batch_at-update_batch, Counts, stage_units-Counts}

-- No row has the id.
abbrev pub IsFresh : String → List ImportBatch → Type 0
IsFresh id batches = All (λ b. (b.id is id) ≡ false) batches

-- No two rows have one id.
abbrev pub IsKeyed : List ImportBatch → Type 0
IsKeyed [] = Unit
IsKeyed (b ∷ rest) = All (λ c. (b.id is c.id) ≡ false) rest × IsKeyed rest

-- The row of a batch that begins.
abbrev pub Begun : ℕ → String × List ImportBatch → Type 0
Begun total (id, batches) =
    (b : ImportBatch) × (batch_at id batches ≡ some b)
    × (b.total ≡ min total i64_max)
    × (b.processed ≡ 0)
    × (b.skipped ≡ 0)

is_refl : (s : String) → (s is s) ≡ true
is_refl s = ground (arith, eq_iff s s)

module _ (source path : String) (total : ℕ) (now : ℤ) (new_id : String) where
  abbrev begun : List ImportBatch → String × List ImportBatch
  begun = begin_import_batch source path total now new_id

  begin-apart :
      (k : String) (batches : List ImportBatch)
      → (k is new_id) ≡ false
      → All (λ c. (k is c.id) ≡ false) batches
      → (k is (begun batches).0) ≡ false
  unfolding begin_import_batch
  begin-apart k [] h hs = h
  begin-apart k (b ∷ rest) h (here, hs) =
      elim (Bool-cases ((b.source is source) && (b.path_or_uri is path))) [
        | inl same ↦ rw same here
        | inr other ↦ rw other (begin-apart k rest h hs)
      ]

  begin-Begun :
      (batches : List ImportBatch)
      → IsKeyed batches
      → IsFresh new_id batches
      → Begun total (begun batches)
  unfolding begin_import_batch
  begin-Begun [] keyed fresh =
      (fresh_batch new_id source path total now, rw (is_refl new_id) refl, refl, refl, refl)
  begin-Begun (b ∷ rest) (apart, keyed) (new, fresh) =
      elim (Bool-cases ((b.source is source) && (b.path_or_uri is path))) [
        | inl same ↦ rw same (reset_batch total b, rw (is_refl b.id) refl, refl, refl, refl)
        | inr other ↦
            let (c, found, total_is, none_in, none_out) = begin-Begun rest keyed fresh in
            rw other (c, rw (begin-apart b.id rest new apart) found, total_is, none_in, none_out)
      ]

  -- Whatever the ids, the batch that begins has a row under its id.
  pub begin-found :
      (batches : List ImportBatch)
      → (b : ImportBatch) × (batch_at (begun batches).0 (begun batches).1 ≡ some b)
  unfolding begin_import_batch
  begin-found [] = (fresh_batch new_id source path total now, rw (is_refl new_id) refl)
  begin-found (b ∷ rest) = elim (Bool-cases ((b.source is source) && (b.path_or_uri is path))) [
    | inl same ↦ rw same (reset_batch total b, rw (is_refl b.id) refl)
    | inr other ↦
        let (c, found) = begin-found rest in
        elim (Bool-cases (b.id is (begun rest).0)) [
          | inl here ↦ rw (other, here) (b, refl)
          | inr apart ↦ rw (other, apart) (c, found)
        ]
  ]

-- The state of a run that was paused or not.
abbrev state_of : Bool → BatchState
state_of was_paused = if was_paused then BatchState.paused else BatchState.completed

abbrev pub summary_of : String → String → String → ImportBatch → ImportSummary
summary_of id source path b = record {
  batch_id = id;
  source = source;
  path = path;
  total = b.total;
  processed = b.processed;
  skipped = b.skipped;
  state = b.state;
}

-- The end of a run whose batch has a row.
pub finish_import_lem :
    (id source path : String) (now : ℤ) (was_paused : Bool) (t : Tables) (b : ImportBatch)
    → batch_at id t.import_batches ≡ some b
    → (finish_import id source path now (ok was_paused, t)).0
      ≡ ok (summary_of id source path (finish was_paused now b))
unfolding import_summary
finish_import_lem id source path now was_paused t b h =
    rw (batch_at-update_batch id (finish was_paused now) t.import_batches b (λ c. refl) h) refl

-- A run adds as many events and as many active jobs as it says it processed. It has skipped or
-- processed every unit if it completed, and at most all if it was paused; and it was paused at a
-- full queue.
pub record IsAccounted (limit n : ℕ) (t u : Tables) (s : ImportSummary) : Type 0 where
  pub total : s.total ≡ min n i64_max
  pub events : length u.raw_events ≡ length t.raw_events + s.processed
  pub queued : active_job_count u.jobs ≡ active_job_count t.jobs + s.processed
  pub bounded : s.processed + s.skipped ≤ n
  pub completed : s.state ≡ BatchState.completed → s.processed + s.skipped ≡ n
  pub paused : s.state ≢ BatchState.completed → limit ≤ active_job_count u.jobs

module _ (limit n : ℕ) (id source path : String) (now : ℤ) (batches : List ImportBatch)
    (t : Tables) where
  finish-IsAccounted :
      (b : ImportBatch) (r : Result Failure Bool × Tables) (s : ImportSummary)
      → b.total ≡ min n i64_max
      → b.processed ≡ 0
      → b.skipped ≡ 0
      → Counts limit id n b (record t { import_batches = batches }) r
      → (finish_import id source path now r).0 ≡ ok s
      → IsAccounted limit n t (finish_import id source path now r).1 s
  finish-IsAccounted b (err e, v) s total_is none_in none_out k h = absurd (cc h)
  finish-IsAccounted b (ok false, v) s total_is none_in none_out k h =
      let e = ok-injective (sym (finish_import_lem id source path now false v k.row k.found) ∙ h) in
      subst (IsAccounted limit n t _) e (record {
        total = k.total ∙ total_is;
        events = omega (arith, k.events, none_in);
        queued = omega (arith, k.queued, none_in);
        bounded = omega (arith, k.bounded, none_in, none_out);
        completed = λ c. omega (arith, k.all_seen refl, none_in, none_out);
        paused = λ c. absurd (c refl);
      })
  finish-IsAccounted b (ok true, v) s total_is none_in none_out k h =
      let e = ok-injective (sym (finish_import_lem id source path now true v k.row k.found) ∙ h) in
      subst (IsAccounted limit n t _) e (record {
        total = k.total ∙ total_is;
        events = omega (arith, k.events, none_in);
        queued = omega (arith, k.queued, none_in);
        bounded = omega (arith, k.bounded, none_in, none_out);
        completed = λ c. absurd (cc c);
        paused = λ c. k.full refl;
      })

module _ (C : Codec) (E : Engine) (source path : String) (max_active : ℕ) where
  -- An import that returns a summary, where the ids of the batches are a key and the new id is none
  -- of them, adds as many events and as many active jobs as the summary says it processed. Its
  -- total is the number of units, cut at the largest i64. What it processed and skipped is never
  -- more than the units and, if it completed, all of them; if it did not complete, it stopped with
  -- the queue at its limit.
  pub import_units-IsAccounted :
      (units : List ImportUnit) (now : ℤ) (new_id : String) (t : Tables) (s : ImportSummary)
      → IsKeyed t.import_batches
      → IsFresh new_id t.import_batches
      → (import_units C E source path units max_active now new_id t).0 ≡ ok s
      → IsAccounted
          (min max_active i64_max)
          (length units)
          t
          (import_units C E source path units max_active now new_id t).1
          s
  unfolding import_units
  import_units-IsAccounted units now new_id t s keyed fresh h =
      let (id, batches) =
        begin_import_batch source path (length units) now new_id t.import_batches in
      let (b, found, total_is, none_in, none_out) =
        begin-Begun source path (length units) now new_id t.import_batches keyed fresh in
      finish-IsAccounted (min max_active i64_max) (length units) id source path now batches t b
        (stage_all C E id source path max_active now units (record t { import_batches = batches }))
        s total_is none_in none_out
        (stage_units-Counts C E id source path max_active now units
          (record t { import_batches = batches }) b found)
        h
