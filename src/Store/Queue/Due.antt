-- ===== src/Store/Queue/Due.antt =====
-- When the inner SELECT of `lease_embed_jobs` may take a row, and in which order it takes the rows,
-- written out without the tests of the query.
use memoryd.Prelude.{◌≤◌, ◌<◌, true, some, none, ◌≡◌, ◌⊎◌, arith, eq_iff, Option}
use memoryd.Prelude.Int.{ℤ, ◌+ℤ◌, ◌≤ℤ◌, ◌<ℤ◌, -ℤ_parts, +ℤ_parts, eq_of_parts}
use memoryd.Store.Tables.{Job, JobState}
use memoryd.Store.Queue.{is_leasable, is_expired, is_ready, before}

-- The lease that began then is as old as the visibility timeout.
abbrev pub HasRunOut : ℤ → ℤ → Option ℤ → Type 0
HasRunOut now vis none = ⊥
HasRunOut now vis (some started) = started +ℤ vis ≤ℤ now

-- The row waits and its time has come, or it runs under a lease that has run out.
abbrev pub IsReady : ℤ → ℤ → Job → JobState → Type 0
IsReady now vis j JobState.pending = j.scheduled_at ≤ℤ now
IsReady now vis j JobState.deferred = j.scheduled_at ≤ℤ now
IsReady now vis j JobState.running = HasRunOut now vis j.started_at
IsReady now vis j _ = ⊥

-- An embed job that is due.
abbrev pub IsDue : ℤ → ℤ → Job → Type 0
IsDue now vis j = (j.kind ≡ "embed") × IsReady now vis j j.state

-- A lower priority number comes first, then an earlier time, then a lower id.
abbrev pub Precedes : Job → Job → Type 0
Precedes a b =
    (a.priority < b.priority)
    ⊎ ((a.priority ≡ b.priority)
        × ((a.scheduled_at <ℤ b.scheduled_at)
            ⊎ ((a.scheduled_at ≡ b.scheduled_at) × (a.id ≤ b.id))))

run_out_iff :
    (now vis : ℤ) (o : Option ℤ)
    → (is_expired now vis o ≡ true → HasRunOut now vis o)
      × (HasRunOut now vis o → is_expired now vis o ≡ true)
run_out_iff now vis none = (λ h. absurd (ground arith), λ h. absurd h)
run_out_iff now vis (some s) = (
  λ h. ground (arith, -ℤ_parts now vis, +ℤ_parts s vis),
  λ h. ground (arith, -ℤ_parts now vis, +ℤ_parts s vis),
)

IsReady-iff :
    (now vis : ℤ) (j : Job) (s : JobState)
    → (is_ready now vis j s ≡ true → IsReady now vis j s)
      × (IsReady now vis j s → is_ready now vis j s ≡ true)
IsReady-iff now vis j JobState.pending = (λ h. ground arith, λ h. ground arith)
IsReady-iff now vis j JobState.deferred = (λ h. ground arith, λ h. ground arith)
IsReady-iff now vis j JobState.running = run_out_iff now vis j.started_at
IsReady-iff now vis j JobState.done = (λ h. absurd (ground arith), λ h. absurd h)
IsReady-iff now vis j JobState.failed = (λ h. absurd (ground arith), λ h. absurd h)
IsReady-iff now vis j JobState.dead = (λ h. absurd (ground arith), λ h. absurd h)

pub leasable-IsDue : (now vis : ℤ) (j : Job) → is_leasable now vis j ≡ true → IsDue now vis j
unfolding is_leasable
leasable-IsDue now vis j h =
    (ground (arith, eq_iff j.kind "embed"), (IsReady-iff now vis j j.state).0 (ground arith))

pub IsDue-leasable : (now vis : ℤ) (j : Job) → IsDue now vis j → is_leasable now vis j ≡ true
unfolding is_leasable
IsDue-leasable now vis j (kind, ready) =
    ground (arith, eq_iff j.kind "embed", (IsReady-iff now vis j j.state).1 ready)

pub before-Precedes : (a b : Job) → before a b ≡ true → Precedes a b
unfolding before
before-Precedes a b h = ground (arith, eq_of_parts a.scheduled_at b.scheduled_at)
