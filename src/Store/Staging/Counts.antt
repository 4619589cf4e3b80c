-- ===== src/Store/Staging/Counts.antt =====
-- The counters of a batch and the rows that its run adds.
use memoryd.Prelude.{
  ℕ, suc, ◌+◌, ◌≤◌, min, String, Bool, true, false, Option, some, List, [], ◌∷◌, ◌++◌, ◌≡◌, refl,
  sym, subst, ap, ok, Result, ◌∙◌, ◌⊎◌, inl, inr, Bool-cases, arith, ◌is◌, find, length,
  length-append,
}
use memoryd.Prelude.Int.{ℤ, i64_max}
use memoryd.Json.{Codec}
use memoryd.Redact.Inline.{Engine}
use memoryd.Import.{ImportUnit}
use memoryd.Store.Tables.{Tables, ImportBatch}
use memoryd.Store.Queue.{active_job_count}
use memoryd.Store.Capture.{Failure, embed_row, max_id, job_row_ids, event_ids}
use memoryd.Store.Capture.Atomic.{count_active-snoc}
use memoryd.Store.Staging.{
  StageOutcome, staged, skipped, paused, stage_units, update_batch, count_skipped, count_processed,
}
use memoryd.Store.Staging.Rows.{Ends, skips, pauses, stages, stage_import_unit-Ends}
use memoryd.Store.Staging.Loop.{fails, stops, goes, pass, stage_all}

-- The first row under an id.
abbrev pub batch_at : String → List ImportBatch → Option ImportBatch
batch_at id batches = find (λ b. b.id is id) batches

pub batch_at-update_batch :
    (id : String) (f : ImportBatch → ImportBatch) (batches : List ImportBatch) (b : ImportBatch)
    → ((c : ImportBatch) → (f c).id ≡ c.id)
    → batch_at id batches ≡ some b
    → batch_at id (update_batch id f batches) ≡ some (f b)
unfolding update_batch
batch_at-update_batch id f [] b keeps h = absurd (cc)
batch_at-update_batch id f (c ∷ rest) b keeps h = elim (Bool-cases (c.id is id)) [
  | inl here ↦ cc (here, ap (λ s. s is id) (keeps c))
  | inr other ↦ cc (other, h, batch_at-update_batch id f rest b keeps (rw other at h))
]

-- What the loop leaves: the row of the batch counts the units, the events and the jobs.
pub record Counts (limit : ℕ) (id : String) (n : ℕ) (b : ImportBatch) (t : Tables)
    (r : Result Failure Bool × Tables) : Type 0 where
  pub row : ImportBatch
  pub found : batch_at id r.1.import_batches ≡ some row
  pub total : row.total ≡ b.total
  pub events : length r.1.raw_events + b.processed ≡ length t.raw_events + row.processed
  pub queued : active_job_count r.1.jobs + b.processed ≡ active_job_count t.jobs + row.processed
  pub bounded : row.processed + row.skipped ≤ b.processed + b.skipped + n
  pub all_seen : r.0 ≡ ok false → row.processed + row.skipped ≡ b.processed + b.skipped + n
  pub full : r.0 ≡ ok true → limit ≤ active_job_count r.1.jobs

-- The same for one unit.
record Advances (id : String) (b : ImportBatch) (t v : Tables) : Type 0 where
  row : ImportBatch
  found : batch_at id v.import_batches ≡ some row
  total : row.total ≡ b.total
  events : length v.raw_events + b.processed ≡ length t.raw_events + row.processed
  queued : active_job_count v.jobs + b.processed ≡ active_job_count t.jobs + row.processed
  one : row.processed + row.skipped ≡ suc (b.processed + b.skipped)

length-snoc {ℓ} : {A : Type ℓ} (xs : List A) (x : A) → length (xs ++ x ∷ []) ≡ suc (length xs)
length-snoc xs x = omega (arith, length-append xs (x ∷ []))

module _ (C : Codec) (E : Engine) (id source path : String) (max_active : ℕ) (ts : ℤ) where
  Ends-Advances :
      (t v : Tables) (hash : List ℕ) (o : StageOutcome) (b : ImportBatch)
      → Ends C E id source path max_active ts t hash o v
      → (o ≡ staged) ⊎ (o ≡ skipped)
      → batch_at id t.import_batches ≡ some b
      → Advances id b t v
  Ends-Advances t v hash o b (skips e there same) d at' =
      subst (Advances id b t) (sym same) (record {
        row = count_skipped b;
        found = batch_at-update_batch id count_skipped t.import_batches b (λ c. refl) at';
        total = refl;
        events = refl;
        queued = refl;
        one = omega arith;
      })
  Ends-Advances t v hash o b (pauses e full same) (inl d) at' = absurd cc
  Ends-Advances t v hash o b (pauses e full same) (inr d) at' = absurd cc
  Ends-Advances t v hash o b (stages e new room c kind ins) d at' = record {
    row = count_processed b;
    found =
        rw (ins.batches)
          (batch_at-update_batch id count_processed t.import_batches b (λ c. refl) at');
    total = refl;
    events = rw (ins.events) (rw (length-snoc t.raw_events _) (omega arith));
    queued = rw (ins.jobs) (
        omega (
          arith,
          count_active-snoc C
              (embed_row C (suc (max_id (job_row_ids t.jobs)))
                (suc (max_id (event_ids t.raw_events))) c.event ts)
              t.jobs refl,
        ));
    one = omega arith;
  }

  Ends-paused :
      (t v : Tables) (hash : List ℕ) (o : StageOutcome)
      → Ends C E id source path max_active ts t hash o v
      → o ≡ paused
      → (v ≡ t) × (min max_active i64_max ≤ active_job_count t.jobs)
  Ends-paused t v hash o (skips e there same) p = absurd cc
  Ends-paused t v hash o (pauses e full same) p = (same, full)
  Ends-paused t v hash o (stages e new room c kind ins) p = absurd cc

  -- A loop goes on from where one unit left it.
  Advances-Counts :
      (n : ℕ) (b : ImportBatch) (t v : Tables) (r : Result Failure Bool × Tables)
      (a : Advances id b t v)
      → Counts (min max_active i64_max) id n a.row v r
      → Counts (min max_active i64_max) id (suc n) b t r
  Advances-Counts n b t v r a k = record {
    row = k.row;
    found = k.found;
    total = k.total ∙ a.total;
    events = omega (arith, k.events, a.events);
    queued = omega (arith, k.queued, a.queued);
    bounded = omega (arith, k.bounded, a.one);
    all_seen = λ e. omega (arith, k.all_seen e, a.one);
    full = k.full;
  }

  pub stage_units-Counts :
      (us : List ImportUnit) (t : Tables) (b : ImportBatch)
      → batch_at id t.import_batches ≡ some b
      → Counts
          (min max_active i64_max)
          id
          (length us)
          b
          t
          (stage_all C E id source path max_active ts us t)
  unfolding stage_units
  stage_units-Counts [] t b h = record {
    row = b;
    found = h;
    total = refl;
    events = refl;
    queued = refl;
    bounded = omega arith;
    all_seen = λ e. omega arith;
    full = λ e. absurd (cc e);
  }
  stage_units-Counts (u ∷ us) t b h = elim (pass C E id source path max_active ts u us t) [
    | fails e r ↦ subst (Counts (min max_active i64_max) id (suc (length us)) b t) (sym r) (record {
      row = b;
      found = h;
      total = refl;
      events = refl;
      queued = refl;
      bounded = omega arith;
      all_seen = λ e. absurd (cc e);
      full = λ e. absurd (cc e);
    })
    | stops v s r ↦
        let (text, _, ends) =
          stage_import_unit-Ends C E id source path max_active ts u t v paused s in
        let (same, full) = Ends-paused t v _ paused ends refl in
        subst (Counts (min max_active i64_max) id (suc (length us)) b t) (sym r) (
          subst
            (λ (w : Tables). Counts (min max_active i64_max) id (suc (length us)) b t (ok true, w))
            (sym same)
            (record {
              row = b;
              found = h;
              total = refl;
              events = refl;
              queued = refl;
              bounded = omega arith;
              all_seen = λ e. absurd (cc e);
              full = λ e. full;
            }))
    | goes o v s d r ↦
        let (text, _, ends) = stage_import_unit-Ends C E id source path max_active ts u t v o s in
        let a = Ends-Advances t v _ o b ends d h in
        subst (Counts (min max_active i64_max) id (suc (length us)) b t) (sym r)
          (Advances-Counts (length us) b t v _ a (stage_units-Counts us v a.row a.found))
  ]
