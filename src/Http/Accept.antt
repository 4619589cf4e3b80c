-- ===== src/Http/Accept.antt =====
-- `serve_loop` and `ConnectionGuard` of crates/memoryd/src/main.rs: the loop that accepts
-- connections and the threads that it starts, interleaved step by step.
pub mod Bound
pub mod Drain
use memoryd.Prelude.{ℕ, suc, ◌+◌, ◌-◌, ◌≤◌, ◌<◌, Bool, true, false, ◌≡◌}

abbrev pub max_concurrent_connections : ℕ
max_concurrent_connections = 64

-- Where the loop stands: at the test of `shutdown`, in `accept`, with a connection whose place is not
-- yet tested, with one that has a place but is not yet counted, waiting for the threads, or gone.
pub data Phase : Type 0 where
  polling : Phase
  accepting : Phase
  accepted : Phase
  admitted : Phase
  draining : Phase
  returned : Phase

-- How long the loop waits for the threads, and how long it sleeps between two looks at the counter, in
-- milliseconds.
abbrev pub drain_limit : ℕ
drain_limit = 5000

abbrev pub drain_sleep : ℕ
drain_sleep = 50

-- `active` is the counter, `running` how many threads hold a guard, and `waited` how long ago, in
-- milliseconds, the loop was left.
pub record ServeLoop : Type 0 where
  pub phase : Phase
  pub shutdown : Bool
  pub active : ℕ
  pub running : ℕ
  pub waited : ℕ

abbrev pub started : ServeLoop
started = record { phase = polling; shutdown = false; active = 0; running = 0; waited = 0 }

abbrev pub goes_to : Phase → ServeLoop → ServeLoop
goes_to p s = record s { phase = p }

-- The drop of a guard, by a thread that has ended or panicked.
abbrev pub drop_guard : ServeLoop → ServeLoop
drop_guard s = record s { active = s.active - 1; running = s.running - 1 }

-- `ConnectionGuard::register`, and the thread that the guard moves into.
abbrev pub register : ServeLoop → ServeLoop
register s = record s { phase = polling; active = suc s.active; running = suc s.running }

-- A step of the loop. A sleep of the drain takes the time that it asks for at least.
pub data LoopStep (s : ServeLoop) : ServeLoop → Type 0 where
  poll : s.phase ≡ polling → s.shutdown ≡ false → LoopStep s (goes_to accepting s)
  would_block : s.phase ≡ accepting → LoopStep s (goes_to polling s)
  accept : s.phase ≡ accepting → LoopStep s (goes_to accepted s)
  accept_error : s.phase ≡ accepting → LoopStep s (goes_to returned s)
  stays_nonblocking : s.phase ≡ accepted → LoopStep s (goes_to polling s)
  refuse :
      s.phase ≡ accepted → max_concurrent_connections ≤ s.active → LoopStep s (goes_to polling s)
  admit :
      s.phase ≡ accepted → s.active < max_concurrent_connections → LoopStep s (goes_to admitted s)
  spawn : s.phase ≡ admitted → LoopStep s (register s)
  leave_loop :
      s.phase ≡ polling → s.shutdown ≡ true → LoopStep s (record s { phase = draining; waited = 0 })
  sleep :
      (slept : ℕ)
      → s.phase ≡ draining
      → 1 ≤ s.active
      → s.waited < drain_limit
      → drain_sleep ≤ slept
      → LoopStep s (record s { waited = s.waited + slept })
  drained : s.phase ≡ draining → s.active ≡ 0 → LoopStep s (goes_to returned s)
  deadline :
      s.phase ≡ draining → 1 ≤ s.active → drain_limit ≤ s.waited → LoopStep s (goes_to returned s)

-- A step of the loop, the end of a thread, or a signal that asks for the shutdown.
pub data Step (s : ServeLoop) : ServeLoop → Type 0 where
  loop : {t : ServeLoop} → LoopStep s t → Step s t
  finish : 1 ≤ s.running → Step s (drop_guard s)
  stop : s.shutdown ≡ false → Step s (record s { shutdown = true })

pub data Steps (s : ServeLoop) : ℕ → ServeLoop → Type 0 where
  none_yet : Steps s 0 s
  and_then : {n : ℕ} {t u : ServeLoop} → Steps s n t → Step t u → Steps s (suc n) u
