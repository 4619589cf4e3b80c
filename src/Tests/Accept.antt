-- ===== src/Tests/Accept.antt =====
-- A run of the loop that accepts connections.
use memoryd.Prelude.{◌≤◌, true, false, ◌≡◌, refl, arith, ◌⊎◌}
use memoryd.Http.Accept.{
  max_concurrent_connections, polling, draining, returned, ServeLoop, started, LoopStep, poll,
  accept, admit, spawn, leave_loop, sleep, loop, stop, Steps, none_yet, and_then,
}
use memoryd.Http.Accept.Bound.{Steps-bound}
use memoryd.Http.Accept.Drain.{Steps-return}

-- One connection is served, and a shutdown follows.
abbrev serving : ServeLoop
serving = record { phase = polling; shutdown = false; active = 1; running = 1; waited = 0 }

abbrev stopping : ServeLoop
stopping = record serving { shutdown = true }

one_connection : Steps started 4 serving
one_connection =
    and_then
      (and_then (and_then (and_then none_yet (loop (poll refl refl))) (loop (accept refl)))
        (loop (admit refl (omega arith))))
      (loop (spawn refl))

Steps-bound_example :
    (serving.active ≡ serving.running) × (serving.running ≤ max_concurrent_connections)
Steps-bound_example = Steps-bound 4 serving one_connection

-- The loop has left its test of `shutdown`, and has slept once for the connection.
abbrev waiting : ServeLoop
waiting = record stopping { phase = draining; waited = 50 }

Steps-return_example :
    (2 ≤ 171) × ((waiting.phase ≡ returned) ⊎ ((u : ServeLoop) × LoopStep waiting u))
Steps-return_example =
    Steps-return 5 2 stopping waiting (and_then one_connection (stop refl)) refl (
      and_then (and_then none_yet (loop (leave_loop refl refl)))
        (loop (sleep 50 refl (omega arith) (omega arith) (omega arith))))
