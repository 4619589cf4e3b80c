-- ===== src/Store/Staging/Loop.antt =====
-- One pass of the loop over the units.
use memoryd.Prelude.{
  ℕ, String, Bool, true, List, ◌∷◌, ◌≡◌, ◌⊎◌, inl, inr, refl, ok, err, Result, Result-cases,
}
use memoryd.Prelude.Int.{ℤ}
use memoryd.Json.{Codec}
use memoryd.Redact.Inline.{Engine}
use memoryd.Import.{ImportUnit}
use memoryd.Store.Tables.{Tables}
use memoryd.Store.Capture.{Failure}
use memoryd.Store.Staging.{StageOutcome, staged, skipped, paused, stage_import_unit, stage_units}

module _ (C : Codec) (E : Engine) (batch_id source path : String) (max_active : ℕ) (ts : ℤ) where
  abbrev pub stage : ImportUnit → Tables → Result Failure (StageOutcome × Tables)
  stage = stage_import_unit C E batch_id source path max_active ts

  abbrev pub stage_all : List ImportUnit → Tables → Result Failure Bool × Tables
  stage_all = stage_units C E batch_id source path max_active ts

  -- A unit fails, pauses the loop, or is done with.
  pub data Pass (u : ImportUnit) (us : List ImportUnit) (t : Tables) : Type 0 where
    fails : (e : Failure) → stage_all (u ∷ us) t ≡ (err e, t) → Pass u us t
    stops :
        (v : Tables)
        → stage u t ≡ ok (paused, v)
        → stage_all (u ∷ us) t ≡ (ok true, v)
        → Pass u us t
    goes :
        (o : StageOutcome) (v : Tables)
        → stage u t ≡ ok (o, v)
        → (o ≡ staged) ⊎ (o ≡ skipped)
        → stage_all (u ∷ us) t ≡ stage_all us v
        → Pass u us t

  Pass-done :
      (u : ImportUnit) (us : List ImportUnit) (t : Tables) (o : StageOutcome) (v : Tables)
      → stage u t ≡ ok (o, v)
      → Pass u us t
  unfolding stage_units
  Pass-done u us t staged v h = goes staged v h (inl refl) (cc h)
  Pass-done u us t skipped v h = goes skipped v h (inr refl) (cc h)
  Pass-done u us t paused v h = stops v h (cc h)

  pub pass : (u : ImportUnit) (us : List ImportUnit) (t : Tables) → Pass u us t
  unfolding stage_units
  pass u us t = elim (Result-cases (stage u t)) [
    | inl ((o, v), h) ↦ Pass-done u us t o v h
    | inr (e, h) ↦ fails e (cc h)
  ]
