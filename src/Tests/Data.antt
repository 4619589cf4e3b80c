-- ===== src/Tests/Data.antt =====
-- The concrete parameters and tables that the runs share.
use memoryd.Prelude.{ℕ, true, [], ◌∷◌, Option, none, some, Result, ok, err}
use memoryd.Prelude.Int.{ℤ, pos}
use memoryd.Json.{Codec, object, field, end, number, string, pos_int}
use memoryd.Redact.Entropy.{Float}
use memoryd.Redact.Inline.{Engine}
use memoryd.Redact.Sorting.{insertion_sorter}
use memoryd.Store.Tables.{Tables, Job, JobState}

-- Floats that find every text entropic.
abbrev pub toy_floats : Float
toy_floats = record {
  F64 = ℕ;
  of_ℕ = λ n. n;
  neg = λ n. n;
  mul = λ a b. a;
  div = λ a b. a;
  log2 = λ a. a;
  sum = λ l. 0;
  le = λ a b. true;
}

abbrev pub toy_engine : Engine
toy_engine = record { floats = toy_floats; sorter = insertion_sorter }

-- A reader that finds one object in every text.
abbrev pub toy_codec : Codec
toy_codec = record {
  as_f64 = λ n. 0;
  print = λ v. "{}";
  parse = λ s. some (
      object (
        field "raw_event_id" (number (pos_int 1))
          (field "fact_key" (string "editor") (field "fact_value" (string "vim") end))));
}

abbrev pub value_or {ℓ κ} : {E : Type κ} {A : Type ℓ} → A → Result E A → A
value_or a (ok b) = b
value_or a (err e) = a

abbrev pub no_rows_at_all : Tables
no_rows_at_all = record {
  sessions = [];
  raw_events = [];
  fts = [];
  jobs = [];
  audit_log = [];
  embeddings = [];
  usage = [];
  approvals = [];
  facts = [];
  import_batches = [];
}

abbrev pub embed_job : ℕ → JobState → ℕ → Option ℤ → Job
embed_job id state scheduled started = record {
  id = id;
  kind = "embed";
  priority = 100;
  state = state;
  payload = "{}";
  attempts = 0;
  scheduled_at = pos scheduled;
  started_at = started;
  finished_at = none;
  last_error = none;
}

-- One job that is due, one that waits, and one that runs.
abbrev pub queue : Tables
queue = record no_rows_at_all {
  jobs =
      embed_job 1 JobState.pending 5 none
      ∷ embed_job 2 JobState.deferred 90 none
      ∷ embed_job 3 JobState.running 0 (some (pos 8))
      ∷ [];
}
