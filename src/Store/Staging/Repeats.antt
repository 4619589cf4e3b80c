-- ===== src/Store/Staging/Repeats.antt =====
-- A run of `import_units` that completed, and a run over units that were imported before.
use memoryd.Prelude.{
  ℕ, min, String, Bool, true, false, some, List, All, ◌≡◌, refl, sym, subst, ap, ok, err, Result,
  ◌∙◌, length, ok-injective,
}
use memoryd.Prelude.Int.{ℤ, i64_max}
use memoryd.Json.{Codec}
use memoryd.Redact.Inline.{Engine}
use memoryd.Import.{ImportUnit}
use memoryd.Store.Tables.{Tables, ImportBatch, BatchState}
use memoryd.Store.Capture.{Failure}
use memoryd.Store.Staging.{ImportSummary, begin_import_batch, finish, finish_import, import_units}
use memoryd.Store.Staging.Loop.{stage_all}
use memoryd.Store.Staging.Counts.{batch_at, Counts, stage_units-Counts}
use memoryd.Store.Staging.Imports.{begin-found, finish_import_lem, summary_of}
use memoryd.Store.Staging.Again.{IsStaged, stage_units-IsStaged, stage_units-skips, skips_of}

paused-not-completed : ¬ (BatchState.paused ≡ BatchState.completed)
paused-not-completed h = cc

-- A run that says it completed had a loop that was not paused.
finish-done :
    (id source path : String) (now : ℤ) (r : Result Failure Bool × Tables) (s : ImportSummary)
    (b : ImportBatch)
    → batch_at id r.1.import_batches ≡ some b
    → (finish_import id source path now r).0 ≡ ok s
    → s.state ≡ BatchState.completed
    → (r.0 ≡ ok false) × ((finish_import id source path now r).1.raw_events ≡ r.1.raw_events)
finish-done id source path now (err e, v) s b found h done = absurd (cc h)
finish-done id source path now (ok false, v) s b found h done = (refl, refl)
finish-done id source path now (ok true, v) s b found h done =
    let e =
      ap (λ (s : ImportSummary). s.state)
        (ok-injective (sym (finish_import_lem id source path now true v b found) ∙ h)) in
    absurd (paused-not-completed (e ∙ done))

-- What is true of a run that changed the batches only.
abbrev pub Idles : Tables → Result Failure ImportSummary × Tables → Type 0
Idles t r =
    (r.1 ≡ record t { import_batches = r.1.import_batches })
    × (s : ImportSummary) × (r.0 ≡ ok s)
    × (s.state ≡ BatchState.completed)

module _ (C : Codec) (E : Engine) (source path : String) (max_active : ℕ) where
  -- A run that completed went through all units.
  pub completed-IsStaged :
      (units : List ImportUnit) (now : ℤ) (new_id : String) (t : Tables) (s : ImportSummary)
      → (import_units C E source path units max_active now new_id t).0 ≡ ok s
      → s.state ≡ BatchState.completed
      → All
          (IsStaged E source
            (import_units C E source path units max_active now new_id t).1.raw_events)
          units
  unfolding import_units
  completed-IsStaged units now new_id t s h done =
      let (id, batches) =
        begin_import_batch source path (length units) now new_id t.import_batches in
      let (b, found) = begin-found source path (length units) now new_id t.import_batches in
      let begun_tables = record t { import_batches = batches } in
      let r = stage_all C E id source path max_active now units begun_tables in
      let k = stage_units-Counts C E id source path max_active now units begun_tables b found in
      let (through, same) = finish-done id source path now r s k.row k.found h done in
      subst (λ rows. All (IsStaged E source rows) units) (sym same)
        (stage_units-IsStaged C E id source path max_active now units begun_tables through)

  -- A run over units that were all imported completes, and changes the batches only.
  pub import_units-skips :
      (units : List ImportUnit) (now : ℤ) (new_id : String) (t : Tables)
      → All (IsStaged E source t.raw_events) units
      → Idles t (import_units C E source path units max_active now new_id t)
  unfolding import_units
  import_units-skips units now new_id t h =
      let (id, batches) =
        begin_import_batch source path (length units) now new_id t.import_batches in
      let (b, found) = begin-found source path (length units) now new_id t.import_batches in
      let begun_tables = record t { import_batches = batches } in
      let k = stage_units-Counts C E id source path max_active now units begun_tables b found in
      let left = record t { import_batches = skips_of id units batches } in
      let skipped = stage_units-skips C E id source path max_active now units begun_tables h in
      let k' = subst (Counts (min max_active i64_max) id (length units) b begun_tables) skipped k in
      subst (λ (r : Result Failure Bool × Tables). Idles t (finish_import id source path now r))
        (sym skipped)
        (
          refl,
          summary_of id source path (finish false now k'.row),
          finish_import_lem id source path now false left k'.row k'.found,
          refl,
        )
