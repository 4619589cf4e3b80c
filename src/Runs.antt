-- ===== src/Runs.antt =====
-- The store under all its writers: runs of captures, ticks of the embed worker, decisions on
-- approvals, rejections of requests, and the transactions of imports, in any order.
pub mod Jobs
pub mod Imports
use memoryd.Prelude.{ℕ, String, Bool, Option, ◌≡◌, ok, ◌≤◌, min}
use memoryd.Prelude.Int.{ℤ, i64_max}
use memoryd.Json.{Codec}
use memoryd.Redact.Inline.{Engine}
use memoryd.Store.Tables.{Tables}
use memoryd.Store.Queue.{ids, active_job_count}
use memoryd.Store.Queue.Keys.{IsAscending}
use memoryd.Store.Capture.{NewRawEvent, CaptureAck, capture_event_with_queue_limit}
use memoryd.Store.Capture.Atomic.{IsCounted}
use memoryd.Import.{ImportUnit}
use memoryd.Store.Staging.{
  StageOutcome, stage_import_unit, begin_import_batch, update_batch, finish,
}
use memoryd.Store.Staging.Sound.{IsImportedOnce}
use memoryd.Store.Approvals.{ApprovalDecision, decide_approval}
use memoryd.Store.Approvals.Facts.{IsUniqueActive}
use memoryd.Http.Peer.{IpAddr}
use memoryd.Http.Auth.{record_auth_rejection}
use memoryd.Worker.{TickReport, Caps, Adapter, tick_embed}

-- What the writers share: the limit of the queue is one for all captures.
pub record Daemon : Type 1 where
  pub codec : Codec
  pub engine : Engine
  pub adapter : Adapter
  pub caps : Caps
  pub queue_depth_max : ℕ

-- One transaction, or one tick.
pub data Step (D : Daemon) (t u : Tables) : Type 0 where
  capture :
      (e : NewRawEvent) (now : ℤ) (a : CaptureAck)
      → capture_event_with_queue_limit D.codec D.engine e D.queue_depth_max now t ≡ ok (a, u)
      → Step D t u
  tick :
      (now : ℤ) (report : TickReport)
      → tick_embed D.codec D.adapter D.caps now t ≡ ok (report, u)
      → Step D t u
  decide :
      (id : String) (accept : Bool) (now : ℤ) (fact_id : String) (d : ApprovalDecision)
      → decide_approval D.codec D.engine id accept now fact_id t ≡ ok (d, u)
      → Step D t u
  reject :
      (method path : String) (peer : Option IpAddr) (present : Bool) (reason : String) (now : ℤ)
      → u ≡ record_auth_rejection D.codec method path peer present reason now t
      → Step D t u
  stage :
      (batch_id source path : String) (unit : ImportUnit) (batch_ts : ℤ) (o : StageOutcome)
      → stage_import_unit D.codec D.engine batch_id source path D.queue_depth_max batch_ts unit t
        ≡ ok (o, u)
      → Step D t u
  begin_batch :
      (source path : String) (total : ℕ) (now : ℤ) (new_id : String)
      → u ≡ record t {
        import_batches = (begin_import_batch source path total now new_id t.import_batches).1;
      }
      → Step D t u
  finish_batch :
      (batch_id : String) (was_paused : Bool) (now : ℤ)
      → u ≡ record t {
        import_batches = update_batch batch_id (finish was_paused now) t.import_batches;
      }
      → Step D t u

pub data Run (D : Daemon) (t : Tables) : Tables → Type 1 where
  here : Run D t t
  next : {u v : Tables} → Run D t u → Step D u v → Run D t v

-- The tables are sound: job ids are a key, the queue is within its limit, the sessions count
-- their events, each key has one active fact at most, and no imported hash stands twice.
pub record IsSound (D : Daemon) (t : Tables) : Type 0 where
  pub keyed : IsAscending (ids t.jobs)
  pub within : active_job_count t.jobs ≤ min D.queue_depth_max i64_max
  pub counted : IsCounted t
  pub unique : IsUniqueActive t.facts
  pub once : IsImportedOnce t.raw_events
