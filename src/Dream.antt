-- ===== src/Dream.antt =====
-- The life of a memory in crates/memoryd-core/src/dream.rs: its kind, how long it lasts, and the
-- state that its score and its age give. The score and the factor of the checkpoint are floats.
use memoryd.Prelude.{ℕ, ◌*◌, String, Bool, ◌||◌, Option, none, some, ◌is◌, if◌then◌else◌}
use memoryd.Prelude.Int.{ℤ, pos, ◌+ℤ◌, ◌*ℤ◌, leb_ℤ, saturating_add, saturating_mul}

-- What the passes do with an `f64`.
pub record Scores : Type 1 where
  pub F64 : Type 0
  pub above_half : F64 → Bool
  pub at_least_0_15 : F64 → Bool
  pub times_2_737 : ℤ → ℤ

abbrev pub day_ms : ℕ
day_ms = 86400000

abbrev pub dormant_halvings : ℕ
dormant_halvings = 4

pub data Lifecycle : Type 0 where
  active decaying dormant archived : Lifecycle

abbrev days : ℕ → Option ℤ
days n = some (pos (n * day_ms))

-- `none`: a memory of this kind never decays.
unfoldable pub half_life_ms : String → Option ℤ
half_life_ms kind =
    if kind is "identity"
    then none
    else if (kind is "preference") || (kind is "session_summary")
    then days 180
    else if kind is "fact"
    then days 120
    else if kind is "decision"
    then days 90
    else if (kind is "task") || (kind is "todo")
    then days 21
    else if kind is "ephemeral"
    then days 3
    else days 14

unfoldable pub memory_kind_for : String → String
memory_kind_for raw_kind =
    if raw_kind is "preference"
    then "preference"
    else if raw_kind is "fact"
    then "fact"
    else if raw_kind is "decision"
    then "decision"
    else if (raw_kind is "task") || (raw_kind is "todo")
    then "task"
    else if raw_kind is "ephemeral"
    then "ephemeral"
    else "observation"

module _ (S : Scores) where
  unfoldable pub lifecycle_for : S.F64 → ℤ → ℤ → ℤ → Lifecycle
  lifecycle_for score dt_ms half_life archive_grace_ms =
      if S.above_half score
      then active
      else if S.at_least_0_15 score
      then decaying
      else if leb_ℤ
          (saturating_add (saturating_mul half_life (pos dormant_halvings)) archive_grace_ms) dt_ms
      then archived
      else dormant

  -- The time at which the state can change next; the sums are taken to fit an i64.
  unfoldable pub next_decay_at : Lifecycle → ℤ → ℤ → ℤ → Option ℤ
  next_decay_at active last_accessed half_life archive_grace_ms = some (last_accessed +ℤ half_life)
  next_decay_at decaying last_accessed half_life archive_grace_ms =
      some (last_accessed +ℤ S.times_2_737 half_life)
  next_decay_at dormant last_accessed half_life archive_grace_ms =
      some (last_accessed +ℤ half_life *ℤ pos dormant_halvings +ℤ archive_grace_ms)
  next_decay_at archived last_accessed half_life archive_grace_ms = none
