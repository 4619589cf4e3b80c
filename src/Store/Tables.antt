-- ===== src/Store/Tables.antt =====
-- The tables of MIGRATION_0001 in crates/memoryd-core/src/store.rs that the modelled operations
-- read and write. A row is a record, a table a list in the order of its row ids, a nullable column
-- an `Option`, and an INTEGER column that holds times is signed.
use memoryd.Prelude.{ℕ, String, Option, List}
use memoryd.Prelude.Int.{ℤ}

pub data JobState : Type 0 where
  pending running done failed dead deferred : JobState

-- A row of `jobs`.
pub record Job : Type 0 where
  pub id : ℕ
  pub kind : String
  pub priority : ℕ
  pub state : JobState
  pub payload : String
  pub attempts : ℕ
  pub scheduled_at : ℤ
  pub started_at : Option ℤ
  pub finished_at : Option ℤ
  pub last_error : Option String

-- A row of `sessions`.
pub record Session : Type 0 where
  pub id : String
  pub agent : String
  pub started_at : ℤ
  pub event_count : ℕ

-- A row of `raw_events`.
pub record RawEvent : Type 0 where
  pub id : ℕ
  pub session_id : String
  pub ts : ℤ
  pub source : String
  pub kind : String
  pub payload : String
  pub provenance : String
  pub content_hash : Option (List ℕ)

-- A row of `raw_events_fts`.
pub record FtsRow : Type 0 where
  pub raw_event_id : ℕ
  pub content : String

-- A row of `audit_log`.
pub record AuditRow : Type 0 where
  pub ts : ℤ
  pub actor : String
  pub action : String
  pub target_type : String
  pub target_ref : Option String
  pub detail : Option String

-- A row of `embeddings`; a vector is its bytes, four for a component.
pub record Embedding : Type 0 where
  pub owner_type : String
  pub owner_id : String
  pub model_id : String
  pub dim : ℕ
  pub vector : List ℕ
  pub created_at : ℤ

-- A row of `provider_usage`.
pub record Usage : Type 0 where
  pub ts : ℤ
  pub adapter : String
  pub model_id : String
  pub op : String
  pub prompt_tokens : ℕ
  pub job_id : ℕ

pub data ApprovalState : Type 0 where
  pending approved rejected expired : ApprovalState

-- A row of `approvals`.
pub record Approval : Type 0 where
  pub id : String
  pub target_type : String
  pub target_ref : Option String
  pub proposed_change : String
  pub state : ApprovalState
  pub requested_at : ℤ
  pub decided_at : Option ℤ

pub data FactState : Type 0 where
  active superseded retracted : FactState

-- A row of `profile_facts`; the confidence is a float's bits.
pub record Fact : Type 0 where
  pub id : String
  pub fact_key : String
  pub fact_value : String
  pub confidence : ℕ
  pub source_memory_id : Option String
  pub approval_id : String
  pub state : FactState
  pub created_at : ℤ

pub data BatchState : Type 0 where
  staging paused completed : BatchState

-- A row of `import_batches`.
pub record ImportBatch : Type 0 where
  pub id : String
  pub source : String
  pub path_or_uri : String
  pub total : ℕ
  pub processed : ℕ
  pub skipped : ℕ
  pub state : BatchState
  pub started_at : ℤ
  pub finished_at : Option ℤ

pub record Tables : Type 0 where
  pub sessions : List Session
  pub raw_events : List RawEvent
  pub fts : List FtsRow
  pub jobs : List Job
  pub audit_log : List AuditRow
  pub embeddings : List Embedding
  pub usage : List Usage
  pub approvals : List Approval
  pub facts : List Fact
  pub import_batches : List ImportBatch

-- The errors that the modelled operations return.
pub data StoreError : Type 0 where
  invalid_capture_field : String → StoreError
  json : StoreError
  approval_not_found : String → StoreError
  malformed_approval : String → StoreError
  no_rows : StoreError
