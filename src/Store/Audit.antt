-- ===== src/Store/Audit.antt =====
-- The helper of crates/memoryd-core/src/store.rs that writes `audit_log`.
use memoryd.Prelude.{String, Option, [], ◌∷◌, ◌++◌}
use memoryd.Prelude.Int.{ℤ}
use memoryd.Store.Tables.{Tables, AuditRow}

abbrev pub audit_actor : String
audit_actor = "memoryd"

-- `insert_audit_log`, always called with `AUDIT_ACTOR`.
unfoldable pub insert_audit_log :
    Tables → String → String → Option String → Option String → ℤ → Tables
insert_audit_log t action target_type target_ref detail ts = record t {
  audit_log = t.audit_log ++ row ∷ [];
}
  where
    row : AuditRow
    row = record {
      ts = ts;
      actor = audit_actor;
      action = action;
      target_type = target_type;
      target_ref = target_ref;
      detail = detail;
    }
