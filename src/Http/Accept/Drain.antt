-- ===== src/Http/Accept/Drain.antt =====
-- The loop returns after a shutdown.
use memoryd.Prelude.{
  ℕ, zero, suc, ◌+◌, ◌-◌, ◌*◌, ◌≤◌, ◌<◌, true, ◌≡◌, refl, ap, arith, ◌⊎◌, inl, inr, leb, Bool-cases,
}
use memoryd.Http.Accept.{
  max_concurrent_connections, drain_limit, drain_sleep, Phase, polling, accepting, accepted,
  admitted, draining, returned, ServeLoop, started, goes_to, LoopStep, poll, would_block, accept,
  accept_error, stays_nonblocking, refuse, admit, spawn, leave_loop, sleep, drained, deadline, Step,
  loop, finish, stop, Steps, none_yet, and_then,
}
use memoryd.Http.Accept.Bound.{Steps-bound}

-- How many steps of the loop may still follow.
abbrev weight : Phase → ℕ
weight accepting = 6
weight accepted = 5
weight admitted = 4
weight polling = 2
weight draining = 1
weight returned = 0

-- How much of its time to wait the loop has left, with one sleep that may go over it.
abbrev patience : Phase → ℕ → ℕ
patience draining waited = drain_limit + drain_sleep - waited
patience returned waited = 0
patience _ waited = drain_limit + drain_sleep

-- It falls by a sleep at least with every step after a shutdown.
abbrev left : ServeLoop → ℕ
left s = drain_sleep * (weight s.phase + s.running) + patience s.phase s.waited

abbrev Falls : ServeLoop → ServeLoop → Type 0
Falls s t = (drain_sleep + left t ≤ left s) × (t.shutdown ≡ true)

leaves-left :
    (s : ServeLoop) (p q : Phase)
    → s.phase ≡ p
    → weight q < weight p
    → patience q s.waited ≤ patience p s.waited
    → drain_sleep + left (goes_to q s) ≤ left s
leaves-left s p q h less no_more =
    omega (arith, ap weight h, ap (λ x. patience x s.waited) h, less, no_more)

loop-left : {s t : ServeLoop} → LoopStep s t → s.shutdown ≡ true → Falls s t
loop-left (poll h i) down = absurd (ground arith)
loop-left {s} (would_block h) down =
    (leaves-left s accepting polling h (omega arith) (omega arith), down)
loop-left {s} (accept h) down =
    (leaves-left s accepting accepted h (omega arith) (omega arith), down)
loop-left {s} (accept_error h) down =
    (leaves-left s accepting returned h (omega arith) (omega arith), down)
loop-left {s} (stays_nonblocking h) down =
    (leaves-left s accepted polling h (omega arith) (omega arith), down)
loop-left {s} (refuse h i) down =
    (leaves-left s accepted polling h (omega arith) (omega arith), down)
loop-left {s} (admit h i) down =
    (leaves-left s accepted admitted h (omega arith) (omega arith), down)
loop-left {s} (spawn h) down = (omega (arith, ap weight h, ap (λ x. patience x s.waited) h), down)
loop-left {s} (leave_loop h i) down =
    (omega (arith, ap weight h, ap (λ x. patience x s.waited) h), down)
loop-left {s} (sleep slept h i k l) down = (
  omega (arith, ap (λ x. patience x s.waited) h, ap (λ x. patience x (s.waited + slept)) h),
  down,
)
loop-left {s} (drained h i) down =
    (leaves-left s draining returned h (omega arith) (omega arith), down)
loop-left {s} (deadline h i k) down =
    (leaves-left s draining returned h (omega arith) (omega arith), down)

step-left : {s t : ServeLoop} → Step s t → s.shutdown ≡ true → Falls s t
step-left (loop st) down = loop-left st down
step-left (finish h) down = (omega arith, down)
step-left (stop h) down = absurd (ground arith)

Steps-left :
    {s : ServeLoop} {n : ℕ} {t : ServeLoop}
    → Steps s n t
    → s.shutdown ≡ true
    → (drain_sleep * n + left t ≤ left s) × (t.shutdown ≡ true)
Steps-left none_yet down = (omega arith, down)
Steps-left (and_then run st) down =
    let (before, still) = Steps-left run down in
    let (less, last) = step-left st still in (omega arith, last)

weight-le : (p : Phase) → weight p ≤ 6
weight-le accepting = omega arith
weight-le accepted = omega arith
weight-le admitted = omega arith
weight-le polling = omega arith
weight-le draining = omega arith
weight-le returned = omega arith

patience-le : (p : Phase) (waited : ℕ) → patience p waited ≤ drain_limit + drain_sleep
patience-le accepting waited = omega arith
patience-le accepted waited = omega arith
patience-le admitted waited = omega arith
patience-le polling waited = omega arith
patience-le draining waited = omega arith
patience-le returned waited = omega arith

zero_or_more : (n : ℕ) → (n ≡ 0) ⊎ (1 ≤ n)
zero_or_more zero = inl refl
zero_or_more (suc n) = inr (omega arith)

at_least_or_less : (k n : ℕ) → (k ≤ n) ⊎ (n < k)
at_least_or_less k n = elim (Bool-cases (leb k n)) [
  | inl more ↦ inl (ground arith)
  | inr h ↦ inr (ground arith)
]

-- A step of the loop itself, which a shutdown leaves it, unless it has returned.
moves_on :
    (s : ServeLoop) (p : Phase)
    → s.phase ≡ p
    → s.shutdown ≡ true
    → (p ≡ returned) ⊎ ((t : ServeLoop) × LoopStep s t)
moves_on s polling h down = inr (_, leave_loop h down)
moves_on s accepting h down = inr (_, accept h)
moves_on s accepted h down = elim (at_least_or_less max_concurrent_connections s.active) [
  | inl full ↦ inr (_, refuse h full)
  | inr room ↦ inr (_, admit h room)
]
moves_on s admitted h down = inr (_, spawn h)
moves_on s draining h down = elim (zero_or_more s.active) [
  | inl e ↦ inr (_, drained h e)
  | inr le ↦ elim (at_least_or_less drain_limit s.waited) [
    | inl over ↦ inr (_, deadline h le over)
    | inr early ↦ inr (_, sleep drain_sleep h le early (omega arith))
  ]
]
moves_on s returned h down = inl refl

-- After a shutdown the loop and its threads take at most 171 steps more, the sleeps of the drain
-- included, and as long as the loop has not returned it has a next step of its own, one that is not
-- the end of a thread.
pub Steps-return :
    (n m : ℕ) (s t : ServeLoop)
    → Steps started n s
    → s.shutdown ≡ true
    → Steps s m t
    → (m ≤ 171) × ((t.phase ≡ returned) ⊎ ((u : ServeLoop) × LoopStep t u))
Steps-return n m s t before down run =
    let (steps, still) = Steps-left run down in
    let (counts, within) = Steps-bound n s before in
    (omega (arith, weight-le s.phase, patience-le s.phase s.waited), moves_on t t.phase refl still)
