-- ===== src/Store/Staging/Again.antt =====
-- A second import of units that were all imported.
use memoryd.Prelude.{
  ℕ, String, Bool, true, false, List, [], ◌∷◌, All, ◌≡◌, refl, sym, subst, ap, ok, err, Result, ◌∙◌,
  ◌⊎◌, inl, inr,
}
use memoryd.Prelude.Int.{ℤ}
use memoryd.Json.{Codec}
use memoryd.Redact.Spans.{Redacted}
use memoryd.Redact.Inline.{Engine, redact_inline_string_with_count}
use memoryd.Import.{ImportUnit, content_hash}
use memoryd.Store.Tables.{Tables, RawEvent, ImportBatch}
use memoryd.Store.Capture.{Failure}
use memoryd.Store.Staging.{
  StageOutcome, staged, skipped, paused, stage_redacted, stage_import_unit, stage_units,
  update_batch, count_skipped, already_imported,
}
use memoryd.Store.Staging.Rows.{
  Ends, skips, pauses, stages, stage_import_unit-Ends, already_imported-append,
  already_imported-snoc,
}
use memoryd.Store.Staging.Loop.{fails, stops, goes, pass, stage, stage_all}

-- The hash of the redacted text of a unit is that of an imported row.
abbrev pub IsStaged : Engine → String → List RawEvent → ImportUnit → Type 0
IsStaged E source rows u =
    (text : Redacted) × (redact_inline_string_with_count E u.text ≡ ok text)
    × (already_imported (content_hash source text.value) rows ≡ true)

-- Every hash that is imported in the first rows is so in the second.
abbrev pub StillImported : List RawEvent → List RawEvent → Type 0
StillImported rows rows' =
    (hash : List ℕ) → already_imported hash rows ≡ true → already_imported hash rows' ≡ true

pub IsStaged-StillImported :
    (E : Engine) (source : String) (rows rows' : List RawEvent) (us : List ImportUnit)
    → StillImported rows rows'
    → All (IsStaged E source rows) us
    → All (IsStaged E source rows') us
IsStaged-StillImported E source rows rows' [] still h = tt
IsStaged-StillImported E source rows rows' (u ∷ us) still ((text, redacts, there), h) =
    ((text, redacts, still _ there), IsStaged-StillImported E source rows rows' us still h)

-- The batches after every unit was skipped.
abbrev pub skips_of : String → List ImportUnit → List ImportBatch → List ImportBatch
skips_of id [] batches = batches
skips_of id (u ∷ us) batches = skips_of id us (update_batch id count_skipped batches)

abbrev Looped : Type 0
Looped = Result Failure Bool × Tables

err-not-ok : (e : Failure) → ¬ (◌≡◌ {A = Result Failure Bool} (err e) (ok false))
err-not-ok e h = cc

paused-not-done : ¬ (◌≡◌ {A = Result Failure Bool} (ok true) (ok false))
paused-not-done h = cc

module _ (C : Codec) (E : Engine) (batch_id source path : String) (max_active : ℕ) (ts : ℤ) where
  pub Ends-StillImported :
      (t v : Tables) (hash : List ℕ) (o : StageOutcome)
      → Ends C E batch_id source path max_active ts t hash o v
      → StillImported t.raw_events v.raw_events
  Ends-StillImported t v hash o (skips e there same) k h = rw same h
  Ends-StillImported t v hash o (pauses e full same) k h = rw same h
  Ends-StillImported t v hash o (stages e new room c kind ins) k h =
      rw (ins.events) (already_imported-append k t.raw_events _ h)

  Ends-imported :
      (t v : Tables) (hash : List ℕ) (o : StageOutcome)
      → Ends C E batch_id source path max_active ts t hash o v
      → (o ≡ staged) ⊎ (o ≡ skipped)
      → already_imported hash v.raw_events ≡ true
  Ends-imported t v hash o (skips e there same) d = rw same there
  Ends-imported t v hash o (pauses e full same) (inl d) = absurd cc
  Ends-imported t v hash o (pauses e full same) (inr d) = absurd cc
  Ends-imported t v hash o (stages e new room c kind ins) d =
      rw (ins.events) (already_imported-snoc hash t.raw_events _ refl kind)

  stage-StillImported :
      (u : ImportUnit) (t v : Tables) (o : StageOutcome)
      → stage C E batch_id source path max_active ts u t ≡ ok (o, v)
      → StillImported t.raw_events v.raw_events
  stage-StillImported u t v o h =
      let (text, _, ends) =
        stage_import_unit-Ends C E batch_id source path max_active ts u t v o h in
      Ends-StillImported t v _ o ends

  stage_units-StillImported :
      (us : List ImportUnit) (t : Tables)
      → StillImported t.raw_events
          (stage_all C E batch_id source path max_active ts us t).1.raw_events
  unfolding stage_units
  stage_units-StillImported [] t k h = h
  stage_units-StillImported (u ∷ us) t k h =
      elim (pass C E batch_id source path max_active ts u us t) [
        | fails e r ↦ rw r h
        | stops v s r ↦ rw r (stage-StillImported u t v paused s k h)
        | goes o v s d r ↦
            rw r (stage_units-StillImported us v k (stage-StillImported u t v o s k h))
      ]

  -- A loop that was not paused has imported every unit.
  pub stage_units-IsStaged :
      (us : List ImportUnit) (t : Tables)
      → (stage_all C E batch_id source path max_active ts us t).0 ≡ ok false
      → All
          (IsStaged E source (stage_all C E batch_id source path max_active ts us t).1.raw_events)
          us
  stage_units-IsStaged [] t h = tt
  stage_units-IsStaged (u ∷ us) t h = elim (pass C E batch_id source path max_active ts u us t) [
    | fails e r ↦ absurd (err-not-ok e (sym (ap (λ (x : Looped). x.0) r) ∙ h))
    | stops v s r ↦ absurd (paused-not-done (sym (ap (λ (x : Looped). x.0) r) ∙ h))
    | goes o v s d r ↦
        let (text, redacts, ends) =
          stage_import_unit-Ends C E batch_id source path max_active ts u t v o s in
        subst (λ (x : Looped). All (IsStaged E source x.1.raw_events) (u ∷ us)) (sym r)
          (
            (text, redacts, stage_units-StillImported us v _ (Ends-imported t v _ o ends d)),
            stage_units-IsStaged us v (sym (ap (λ (x : Looped). x.0) r) ∙ h),
          )
  ]

  stage-skips :
      (u : ImportUnit) (t : Tables)
      → IsStaged E source t.raw_events u
      → stage C E batch_id source path max_active ts u t
        ≡ ok (
          skipped,
          record t { import_batches = update_batch batch_id count_skipped t.import_batches },
        )
  unfolding stage_import_unit stage_redacted
  stage-skips u t (text, redacts, there) = rw (redacts, stage_import_unit) (rw there refl)

  -- A loop over units that are all imported skips each.
  pub stage_units-skips :
      (us : List ImportUnit) (t : Tables)
      → All (IsStaged E source t.raw_events) us
      → stage_all C E batch_id source path max_active ts us t
        ≡ (ok false, record t { import_batches = skips_of batch_id us t.import_batches })
  unfolding stage_units
  stage_units-skips [] t h = refl
  stage_units-skips (u ∷ us) t (h, hs) = cc (
    stage-skips u t h,
    stage_units-skips us
        (record t { import_batches = update_batch batch_id count_skipped t.import_batches }) hs,
  )
