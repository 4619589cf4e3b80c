-- ===== src/Http/Throttle/Lockout.antt =====
-- Who is locked out by the throttle, and for how long.
use memoryd.Prelude.{
  All, subst, ℕ, suc, ◌+◌, ◌≤◌, ◌<◌, Bool, false, Option, none, some, List, [], ◌∷◌, ◌≡◌, refl, inl,
  inr, arith, leb, if◌then◌else◌, length, filter, Bool-cases, Option-cases,
}
use memoryd.Prelude.Int.{ℤ, pos, ltb_ℤ, ◌+ℤ◌, ◌≤ℤ◌, +ℤ_parts, -ℤ_parts, saturating_sub, clamp_i64}
use memoryd.Http.Peer.{IpAddr, ip_eq, ip_eq_iff}
use memoryd.Http.Throttle.{
  FailState, Entries, lookup, remove, evict, update, record_failure, record_success, fail, fresh,
  is_throttled, auth_fail_limit, drop_oldest, is_live, auth_throttle_max_entries,
}
use memoryd.Http.Throttle.Bounds.{ip_eq_refl}

lookup-update :
    (ip other : IpAddr) (now : ℤ) (m : Entries)
    → lookup other (update ip now m) ≡ (
        if ip_eq ip other
        then some (fail now (elim (lookup ip m) [ none ↦ fresh now | some s ↦ s ]))
        else lookup other m)
unfolding update lookup
lookup-update ip other now [] = ground arith
lookup-update ip other now ((k, s) ∷ rest) = ground (
  arith,
  lookup-update ip other now rest,
  ip_eq_iff k ip,
  ip_eq_iff k other,
  ip_eq_iff ip other,
  ip_eq_iff ip ip,
)

lookup-remove :
    (ip other : IpAddr) (m : Entries)
    → lookup other (remove ip m) ≡ (if ip_eq ip other then none else lookup other m)
unfolding remove lookup
lookup-remove ip other [] = ground arith
lookup-remove ip other ((k, s) ∷ rest) =
    ground
      (arith, lookup-remove ip other rest, ip_eq_iff k ip, ip_eq_iff k other, ip_eq_iff ip other)

abbrev entry_or_fresh : ℤ → Option FailState → FailState
entry_or_fresh now none = fresh now
entry_or_fresh now (some s) = s

-- Within the window a failure is counted, and the fifth locks.
fail-counts :
    (now : ℤ) (s : FailState)
    → ltb_ℤ (pos 60000) (saturating_sub now s.window_start_ms) ≡ false
    → suc s.failures < auth_fail_limit
    → fail now s ≡ record s { failures = suc s.failures; last_failure_ms = now }
unfolding fail
fail-counts now s h k = rw h (rw (gap s.failures k))
  where
    gap : (n : ℕ) → suc n < auth_fail_limit → leb auth_fail_limit (suc n) ≡ false
    gap n below = ground arith

fail-locks :
    (now : ℤ) (s : FailState)
    → ltb_ℤ (pos 60000) (saturating_sub now s.window_start_ms) ≡ false
    → suc s.failures ≡ auth_fail_limit
    → fail now s ≡ record {
      failures = 0;
      window_start_ms = now;
      locked_until_ms = now +ℤ pos 60000;
      last_failure_ms = now;
    }
unfolding fail
fail-locks now s h k = rw h (rw k)

-- A time that lies no further than the window behind its start.
abbrev pub Within : ℤ → ℤ → Type 0
Within start now = now ≤ℤ start +ℤ pos 60000

Within-counts :
    (start now : ℤ) → Within start now → ltb_ℤ (pos 60000) (saturating_sub now start) ≡ false
unfolding saturating_sub clamp_i64
Within-counts start now h = ground (arith, -ℤ_parts now start, +ℤ_parts start (pos 60000))

lookup-filter-none :
    (ip : IpAddr) (p : IpAddr × FailState → Bool) (m : Entries)
    → lookup ip m ≡ none
    → lookup ip (filter p m) ≡ none
unfolding lookup
lookup-filter-none ip p [] h = refl
lookup-filter-none ip p ((k, s) ∷ rest) h = ground (arith, lookup-filter-none ip p rest)

lookup-drop_oldest-none :
    (ip : IpAddr) (m : Entries) → lookup ip m ≡ none → lookup ip (drop_oldest m) ≡ none
lookup-drop_oldest-none ip [] h = h
lookup-drop_oldest-none ip ((k, s) ∷ rest) h = rw lookup-remove (ground arith)

lookup-evict-none :
    (ip : IpAddr) (now : ℤ) (m : Entries) → lookup ip m ≡ none → lookup ip (evict now m) ≡ none
unfolding evict
lookup-evict-none ip now m h =
    let live = filter (λ (e : IpAddr × FailState). is_live now e.1) m in
    elim (Bool-cases (leb auth_throttle_max_entries (length live))) [
      | inl over ↦ rw over (lookup-drop_oldest-none ip live (lookup-filter-none ip _ m h))
      | inr under ↦ rw under (lookup-filter-none ip _ m h)
    ]

-- What a failure leaves for its address: its entry, or a new one, with the failure counted. An
-- eviction to make room does not touch it.
lookup-record_failure :
    (ip : IpAddr) (now : ℤ) (m : Entries)
    → lookup ip (record_failure ip now m) ≡ some (fail now (entry_or_fresh now (lookup ip m)))
unfolding record_failure
lookup-record_failure ip now m = elim (Option-cases (lookup ip m)) [
  | inr (s, old) ↦ rw old (rw lookup-update (rw (old, ip_eq_refl ip)))
  | inl new ↦ rw new (elim (Bool-cases (leb auth_throttle_max_entries (length m))) [
    | inl full ↦ rw full (rw lookup-update (rw (lookup-evict-none ip now m new, ip_eq_refl ip)))
    | inr room ↦ rw room (rw lookup-update (rw (new, ip_eq_refl ip)))
  ])
]

-- The failures of one address, in order.
abbrev pub failures_at : IpAddr → List ℤ → Entries → Entries
failures_at ip [] m = m
failures_at ip (t ∷ ts) m = failures_at ip ts (record_failure ip t m)

abbrev Counting : ℕ → ℤ → Option FailState → Type 0
Counting n start none = ⊥
Counting n start (some s) =
    (s.failures ≡ n) × (s.window_start_ms ≡ start) × (s.locked_until_ms ≡ pos 0)

Counting-fail :
    (n : ℕ) (start now : ℤ) (s : FailState)
    → Counting n start (some s)
    → Within start now
    → suc n < auth_fail_limit
    → Counting (suc n) start (some (fail now s))
Counting-fail n start now s (count, begun, free) h k =
    rw (fail-counts now s (rw begun (Within-counts start now h)) (omega arith))
      (omega arith, begun, free)

Counting-record_failure :
    (ip : IpAddr) (n : ℕ) (start now : ℤ) (m : Entries)
    → Counting n start (lookup ip m)
    → Within start now
    → suc n < auth_fail_limit
    → Counting (suc n) start (lookup ip (record_failure ip now m))
Counting-record_failure ip n start now m c h k =
    rw lookup-record_failure (elim (Option-cases (lookup ip m)) [
      | inl gone ↦ absurd (rw gone at c)
      | inr (s, there) ↦ rw there (Counting-fail n start now s (rw there at c) h k)
    ])

Counting-first :
    (ip : IpAddr) (now : ℤ) (m : Entries)
    → lookup ip m ≡ none
    → Counting 1 now (lookup ip (record_failure ip now m))
Counting-first ip now m new = rw lookup-record_failure (
    rw new (
      Counting-fail 0 now now (fresh now) (refl, refl, refl)
        (omega (arith, +ℤ_parts now (pos 60000))) (omega arith)))

Counting-failures_at :
    (ip : IpAddr) (n : ℕ) (start : ℤ) (ts : List ℤ) (m : Entries)
    → Counting n start (lookup ip m)
    → All (Within start) ts
    → n + length ts < auth_fail_limit
    → Counting (n + length ts) start (lookup ip (failures_at ip ts m))
Counting-failures_at ip n start [] m c h k =
    subst (λ j. Counting j start (lookup ip m)) (omega arith) c
Counting-failures_at ip n start (t ∷ ts) m c (h, hs) k =
    subst (λ j. Counting j start (lookup ip (failures_at ip (t ∷ ts) m))) (omega arith)
      (Counting-failures_at ip (suc n) start ts (record_failure ip t m)
        (Counting-record_failure ip n start t m c h (omega arith)) hs (omega arith))

-- An address with no entry is let through after up to four failures within a minute of the first.
pub is_throttled-few :
    (ip : IpAddr) (start : ℤ) (ts : List ℤ) (later : ℕ) (m : Entries)
    → lookup ip m ≡ none
    → All (Within start) ts
    → length ts ≤ 3
    → is_throttled ip (pos later) (failures_at ip (start ∷ ts) m) ≡ false
unfolding is_throttled
is_throttled-few ip start ts later m new h k =
    let c =
      Counting-failures_at ip 1 start ts (record_failure ip start m) (Counting-first ip start m new)
        h (omega arith) in
    elim (Option-cases (lookup ip (failures_at ip (start ∷ ts) m))) [
      | inl gone ↦ rw gone
      | inr (s, there) ↦
          rw there
            (let c' : Counting (1 + length ts) start (some s) = rw there at c in ground arith)
    ]

fail-at_limit :
    (start last : ℤ) (s : FailState)
    → Counting 4 start (some s)
    → Within start last
    → (fail last s).locked_until_ms ≡ last +ℤ pos 60000
fail-at_limit start last s (count, begun, free) h =
    rw (fail-locks last s (rw begun (Within-counts start last h)) (omega arith))

-- The fifth failure of an address with no entry, within a minute of the first, locks it out for
-- the minute that follows, and for no longer. An eviction that the failures cause makes no difference.
pub is_throttled-fifth :
    (ip : IpAddr) (start last later : ℤ) (ts : List ℤ) (m : Entries)
    → lookup ip m ≡ none
    → All (Within start) ts
    → length ts ≡ 3
    → Within start last
    → is_throttled ip later (record_failure ip last (failures_at ip (start ∷ ts) m))
      ≡ ltb_ℤ later (last +ℤ pos 60000)
unfolding is_throttled
is_throttled-fifth ip start last later ts m new h k w =
    let c =
      Counting-failures_at ip 1 start ts (record_failure ip start m) (Counting-first ip start m new)
        h (omega arith) in
    let c' : Counting 4 start (lookup ip (failures_at ip (start ∷ ts) m)) =
      subst (λ j. Counting j start (lookup ip (failures_at ip (start ∷ ts) m))) (omega arith) c in
    rw lookup-record_failure (elim (Option-cases (lookup ip (failures_at ip (start ∷ ts) m))) [
      | inl gone ↦ absurd (rw gone at c')
      | inr (s, there) ↦ rw there (rw (fail-at_limit start last s (rw there at c') w))
    ])

-- A success lifts the lockout of its address, and of no other.
pub is_throttled-record_success :
    (ip other : IpAddr) (now : ℤ) (m : Entries)
    → is_throttled other now (record_success ip m)
      ≡ (if ip_eq ip other then false else is_throttled other now m)
unfolding is_throttled record_success
is_throttled-record_success ip other now m = rw lookup-remove (ground arith)
