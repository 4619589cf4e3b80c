-- ===== src/Tests/Runs.antt =====
-- A run of the store.
use memoryd.Prelude.{false, none, some, [], ◌∷◌, refl, arith}
use memoryd.Prelude.Int.{pos}
use memoryd.Store.Tables.{Tables, JobState}
use memoryd.Store.Queue.{active_job_count}
use memoryd.Store.Queue.Machine.{Tracks}
use memoryd.Runs.{Daemon, Run, here, next, capture, tick, IsSound}
use memoryd.Runs.Jobs.{Run-IsSound, Run-Tracks}
use memoryd.Tests.Data.{toy_codec, toy_engine, no_rows_at_all, embed_job, queue}
use memoryd.Tests.Capture.{greeting, kept, ack, with_room}
use memoryd.Tests.Capture
use memoryd.Tests.Background.{caps, down, report, after_tick, failed_tick}
use memoryd.Tests.Background

abbrev pub daemon : Daemon
daemon = record {
  codec = toy_codec;
  engine = toy_engine;
  adapter = down;
  caps = caps;
  queue_depth_max = 1;
}

abbrev captured : Tables
captured = kept (embed_job 1 JobState.pending 9 none ∷ [])

one_capture : Run daemon no_rows_at_all captured
unfolding Capture.capture
one_capture = next here (capture greeting (pos 9) (ack (some 1) false) with_room)

pub empty-IsSound : IsSound daemon no_rows_at_all
unfolding active_job_count
empty-IsSound = record {
  keyed = tt;
  within = omega arith;
  counted = λ k. refl;
  unique = λ k. omega arith;
  once = λ h. omega arith;
}

Run-IsSound_example : IsSound daemon captured
Run-IsSound_example = Run-IsSound daemon no_rows_at_all captured one_capture empty-IsSound

-- A queue that is full, and a tick in which the adapter fails.
abbrev full : Daemon
full = record daemon { queue_depth_max = 3 }

failing_tick : Run full queue after_tick
unfolding Background.tick
failing_tick = next here (tick (pos 10) report failed_tick)

queue-IsSound : IsSound full queue
unfolding active_job_count
queue-IsSound = record {
  keyed = omega arith;
  within = omega arith;
  counted = λ k. refl;
  unique = λ k. omega arith;
  once = λ h. omega arith;
}

Run-Tracks_example : Tracks queue.jobs after_tick.jobs
Run-Tracks_example = Run-Tracks full queue after_tick failing_tick queue-IsSound
