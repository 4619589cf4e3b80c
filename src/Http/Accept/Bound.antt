-- ===== src/Http/Accept/Bound.antt =====
-- The counter counts the threads, and they are within their bound.
use memoryd.Prelude.{ℕ, ◌+◌, ◌≤◌, ◌≡◌, refl, ap, arith}
use memoryd.Http.Accept.{
  max_concurrent_connections, Phase, polling, accepting, accepted, admitted, returned, ServeLoop,
  started, goes_to, LoopStep, poll, would_block, accept, accept_error, stays_nonblocking, refuse,
  admit, spawn, leave_loop, sleep, drained, deadline, Step, loop, finish, stop, Steps, none_yet,
  and_then,
}

-- A place that is promised but not yet counted.
abbrev promised : Phase → ℕ
promised admitted = 1
promised _ = 0

pub record IsBounded (s : ServeLoop) : Type 0 where
  pub counts : s.active ≡ s.running
  pub within : s.active + promised s.phase ≤ max_concurrent_connections

goes_to-IsBounded :
    (s : ServeLoop) (p : Phase) → promised p ≡ 0 → IsBounded s → IsBounded (goes_to p s)
goes_to-IsBounded s p h b = record { counts = b.counts; within = omega (arith, b.within) }

loop-IsBounded : {s t : ServeLoop} → LoopStep s t → IsBounded s → IsBounded t
loop-IsBounded {s} (poll h i) b = goes_to-IsBounded s accepting refl b
loop-IsBounded {s} (would_block h) b = goes_to-IsBounded s polling refl b
loop-IsBounded {s} (accept h) b = goes_to-IsBounded s accepted refl b
loop-IsBounded {s} (accept_error h) b = goes_to-IsBounded s returned refl b
loop-IsBounded {s} (stays_nonblocking h) b = goes_to-IsBounded s polling refl b
loop-IsBounded {s} (refuse h i) b = goes_to-IsBounded s polling refl b
loop-IsBounded {s} (admit h i) b = record { counts = b.counts; within = omega arith }
loop-IsBounded {s} (spawn h) b = record {
  counts = omega (arith, b.counts);
  within = omega (arith, b.within, ap promised h);
}
loop-IsBounded {s} (leave_loop h i) b = record {
  counts = b.counts;
  within = omega (arith, b.within);
}
loop-IsBounded {s} (sleep slept h i k l) b = record { counts = b.counts; within = b.within }
loop-IsBounded {s} (drained h i) b = goes_to-IsBounded s returned refl b
loop-IsBounded {s} (deadline h i k) b = goes_to-IsBounded s returned refl b

step-IsBounded : {s t : ServeLoop} → Step s t → IsBounded s → IsBounded t
step-IsBounded (loop st) b = loop-IsBounded st b
step-IsBounded {s} (finish h) b = record {
  counts = omega (arith, b.counts);
  within = omega (arith, b.within, b.counts);
}
step-IsBounded {s} (stop h) b = record { counts = b.counts; within = b.within }

pub Steps-IsBounded :
    {s : ServeLoop} {n : ℕ} {t : ServeLoop} → Steps s n t → IsBounded s → IsBounded t
Steps-IsBounded none_yet b = b
Steps-IsBounded (and_then run st) b = step-IsBounded st (Steps-IsBounded run b)

-- However the loop and its threads interleave, the counter is the number of the threads that
-- run, and there are never more than 64.
pub Steps-bound :
    (n : ℕ) (s : ServeLoop)
    → Steps started n s
    → (s.active ≡ s.running) × (s.running ≤ max_concurrent_connections)
Steps-bound n s run =
    let b = Steps-IsBounded run (record { counts = refl; within = omega arith }) in
    (b.counts, omega (arith, b.counts, b.within))
