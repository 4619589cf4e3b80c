-- ===== src/Sources.antt =====
-- `crates/memoryd/src/import_sources.rs`: the import of the transcripts that were found for an agent,
-- one batch for each file, and of an agent's database.
use memoryd.Prelude.{
  ℕ, String, Bool, true, false, Option, none, some, List, [], ◌∷◌, ltb, if◌then◌else◌, Result, ok,
  err,
}
use memoryd.Prelude.Int.{ℤ}
use memoryd.Text.{joined}
use memoryd.Json.{Codec}
use memoryd.Redact.Spans.{Fault}
use memoryd.Redact.Inline.{Engine}
use memoryd.Import.{ImportUnit}
use memoryd.Store.Tables.{Tables, BatchState}
use memoryd.Store.Capture.{Failure, fault}
use memoryd.Store.Staging.{ImportSummary, import_units}

abbrev pub max_import_file_bytes : ℕ
max_import_file_bytes = 67108864

-- A file: its size, its text or why it cannot be read, its stem, and the clock and the random id
-- that its batch would get.
pub record SourceFile : Type 0 where
  pub path : String
  pub bytes : ℕ
  pub text : Result String String
  pub stem : Option String
  pub now : ℤ
  pub new_id : String

pub record ImportFileOutcome : Type 0 where
  pub path : String
  pub summary : Option ImportSummary
  pub note : Option String

abbrev skipped_file : String → String → ImportFileOutcome
skipped_file path note = record { path = path; summary = none; note = some note }

abbrev staged_file : String → ImportSummary → ImportFileOutcome
staged_file path summary = record { path = path; summary = some summary; note = none }

abbrev stem_or_import : Option String → String
stem_or_import none = "import"
stem_or_import (some stem) = stem

-- The outcomes of the files, or the first error, and the tables.
abbrev pub Outcomes : Type 0
Outcomes = Result Failure (List ImportFileOutcome) × Tables

abbrev with_outcome : ImportFileOutcome → Outcomes → Outcomes
with_outcome o (ok os, t) = (ok (o ∷ os), t)
with_outcome o (err e, t) = (err e, t)

abbrev was_paused : BatchState → Bool
was_paused BatchState.paused = true
was_paused _ = false

-- The loop stops behind a batch that was paused.
abbrev after_batch : String → (Tables → Outcomes) → Result Failure ImportSummary × Tables → Outcomes
after_batch path rest (err e, t) = (err e, t)
after_batch path rest (ok summary, t) =
    with_outcome (staged_file path summary)
      (if was_paused summary.state then (ok [], t) else rest t)

module _ (C : Codec) (E : Engine) (source : String) (max_active_jobs : ℕ) where
  abbrev stage_file : SourceFile → (Tables → Outcomes) → Tables → List ImportUnit → Outcomes
  stage_file f rest t [] =
      with_outcome (skipped_file f.path "skipped: no importable content") (rest t)
  stage_file f rest t (u ∷ us) =
      after_batch f.path rest
        (import_units C E source f.path (u ∷ us) max_active_jobs f.now f.new_id t)

  abbrev parsed_file :
      SourceFile → (Tables → Outcomes) → Tables → Result Fault (List ImportUnit) → Outcomes
  parsed_file f rest t (err e) = (err (fault e), t)
  parsed_file f rest t (ok units) = stage_file f rest t units

  abbrev read_file :
      (String → String → Result Fault (List ImportUnit))
      → SourceFile
      → (Tables → Outcomes)
      → Tables
      → Result String String
      → Outcomes
  read_file parse f rest t (err reason) =
      with_outcome (skipped_file f.path (joined "skipped: unreadable (" (joined reason ")")))
        (rest t)
  read_file parse f rest t (ok contents) =
      parsed_file f rest t (parse contents (stem_or_import f.stem))

  unfoldable pub import_jsonl_files :
      (String → String → Result Fault (List ImportUnit)) → List SourceFile → Tables → Outcomes
  import_jsonl_files parse [] t = (ok [], t)
  import_jsonl_files parse (f ∷ files) t =
      let rest = import_jsonl_files parse files in
      if ltb max_import_file_bytes f.bytes
      then with_outcome (skipped_file f.path "skipped: file exceeds 64 MiB cap") (rest t)
      else read_file parse f rest t f.text

  -- A database that was found is read; one that was not is noted, at the path that was probed.
  abbrev stage_db : String → ℤ → String → Tables → List ImportUnit → Outcomes
  stage_db path now new_id t [] = (ok (skipped_file path "skipped: no importable content" ∷ []), t)
  stage_db path now new_id t (u ∷ us) =
      after_batch path (λ v. (ok [], v))
        (import_units C E source path (u ∷ us) max_active_jobs now new_id t)

  unfoldable pub import_db :
      Result String String
      → (String → Result Failure (List ImportUnit))
      → ℤ
      → String
      → Tables
      → Outcomes
  import_db (err probed) read now new_id t =
      (ok (skipped_file probed (joined "not found: " probed) ∷ []), t)
  import_db (ok path) read now new_id t = elim (read path) [
    | err e ↦ (err e, t)
    | ok units ↦ stage_db path now new_id t units
  ]
