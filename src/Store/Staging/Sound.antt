-- ===== src/Store/Staging/Sound.antt =====
-- Staging a unit keeps what the store relies on.
use memoryd.Prelude.{
  ℕ, suc, ◌≤◌, min, String, false, some, List, [], ◌∷◌, ◌++◌, ◌≡◌, refl, sym, ok, inl, inr,
  Bool-cases, arith, count, count-append,
}
use memoryd.Prelude.Int.{ℤ, i64_max}
use memoryd.Json.{Codec}
use memoryd.Redact.Inline.{Engine}
use memoryd.Import.{ImportUnit}
use memoryd.Store.Tables.{Tables, RawEvent}
use memoryd.Store.Queue.{active_job_count, ids}
use memoryd.Store.Queue.Keys.{IsAscending}
use memoryd.Store.Queue.Machine.{Tracks-refl}
use memoryd.Store.Capture.{embed_row, max_id, job_row_ids, event_ids}
use memoryd.Store.Capture.Atomic.{
  IsCounted, counted-upsert_session, events_of-snoc, count_active-snoc,
}
use memoryd.Store.Frames.{Grows, embed_row-Grows}
use memoryd.Store.Staging.{
  StageOutcome, stage_import_unit, is_imported, already_imported, same_bytes,
}
use memoryd.Store.Staging.Rows.{
  Ends, skips, pauses, stages, stage_import_unit-Ends, staged_row, same_bytes→eq,
}

-- No two imported rows have one hash.
abbrev pub IsImportedOnce : List RawEvent → Type 0
IsImportedOnce rows = (hash : List ℕ) → count (is_imported hash) rows ≤ 1

count-new :
    (hash : List ℕ) (rows : List RawEvent)
    → already_imported hash rows ≡ false
    → count (is_imported hash) rows ≡ 0
unfolding already_imported
count-new hash [] h = refl
count-new hash (r ∷ rows) h = ground (arith, count-new hash rows)

-- A row of another hash is not imported with this one.
is_imported-miss :
    (hash new : List ℕ) (r : RawEvent)
    → r.content_hash ≡ some new
    → same_bytes new hash ≡ false
    → is_imported hash r ≡ false
unfolding is_imported
is_imported-miss hash new r has differ = rw has (rw differ refl)

-- A row that no hash fits may be added, and so may the row of a new hash.
pub IsImportedOnce-plain :
    (r : RawEvent) (rows : List RawEvent)
    → ((hash : List ℕ) → is_imported hash r ≡ false)
    → IsImportedOnce rows
    → IsImportedOnce (rows ++ r ∷ [])
IsImportedOnce-plain r rows plain once hash =
    ground (arith, count-append (is_imported hash) rows (r ∷ []), plain hash, once hash)

IsImportedOnce-new :
    (new : List ℕ) (r : RawEvent) (rows : List RawEvent)
    → r.content_hash ≡ some new
    → already_imported new rows ≡ false
    → IsImportedOnce rows
    → IsImportedOnce (rows ++ r ∷ [])
IsImportedOnce-new new r rows has absent once hash = elim (Bool-cases (same_bytes new hash)) [
  | inl same ↦
      let none_yet = count-new hash rows (rw (sym (same_bytes→eq new hash same)) absent) in
      ground (arith, count-append (is_imported hash) rows (r ∷ []), none_yet)
  | inr differ ↦ ground (
    arith,
    count-append (is_imported hash) rows (r ∷ []),
    is_imported-miss hash new r has differ,
    once hash,
  )
]

-- What staging a unit keeps.
pub record Keeps (limit : ℕ) (t u : Tables) : Type 0 where
  pub grows : IsAscending (ids t.jobs) → Grows t.jobs u.jobs
  pub within : active_job_count t.jobs ≤ limit → active_job_count u.jobs ≤ limit
  pub counted : IsCounted t → IsCounted u
  pub once : IsImportedOnce t.raw_events → IsImportedOnce u.raw_events
  pub facts : u.facts ≡ t.facts

-- Tables that differ in nothing of these.
Keeps-same :
    (limit : ℕ) (t u : Tables)
    → u.jobs ≡ t.jobs
    → u.sessions ≡ t.sessions
    → u.raw_events ≡ t.raw_events
    → u.facts ≡ t.facts
    → Keeps limit t u
Keeps-same limit t u jobs sessions events facts = record {
  grows = λ keys. rw jobs (Tracks-refl t.jobs, keys);
  within = λ h. rw jobs h;
  counted = λ h. rw (sessions, events) h;
  once = λ h. rw events h;
  facts = facts;
}

module _ (C : Codec) (E : Engine) (id source path : String) (max_active : ℕ) (ts : ℤ) where
  Ends-Keeps :
      (t v : Tables) (hash : List ℕ) (o : StageOutcome)
      → Ends C E id source path max_active ts t hash o v
      → Keeps (min max_active i64_max) t v
  Ends-Keeps t v hash o (skips e there same) = rw same (Keeps-same _ t _ refl refl refl refl)
  Ends-Keeps t v hash o (pauses e full same) = rw same (Keeps-same _ t t refl refl refl refl)
  Ends-Keeps t v hash o (stages e new room c kind ins) =
      let job =
        embed_row C (suc (max_id (job_row_ids t.jobs))) (suc (max_id (event_ids t.raw_events)))
          c.event ts in
      let row = staged_row C hash c.event t in
      record {
        grows = λ keys. rw (ins.jobs) (embed_row-Grows C _ c.event ts t.jobs keys);
        within = λ h. rw (ins.jobs) (omega (arith, count_active-snoc C job t.jobs refl));
        counted = λ h k.
            rw (ins.sessions, ins.events)
              (ground (
                arith,
                counted-upsert_session k c.event t.sessions,
                h k,
                events_of-snoc C k row t.raw_events,
              ));
        once = λ h. rw (ins.events) (IsImportedOnce-new hash row t.raw_events refl new h);
        facts = ins.facts;
      }

  pub stage-Keeps :
      (u : ImportUnit) (t v : Tables) (o : StageOutcome)
      → stage_import_unit C E id source path max_active ts u t ≡ ok (o, v)
      → Keeps (min max_active i64_max) t v
  stage-Keeps u t v o h =
      let (text, _, ends) = stage_import_unit-Ends C E id source path max_active ts u t v o h in
      Ends-Keeps t v _ o ends
