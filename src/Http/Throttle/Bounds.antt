-- ===== src/Http/Throttle/Bounds.antt =====
-- The map of the throttle stays bounded.
use memoryd.Prelude.{
  is_some, suc, ◌-◌, ◌≤◌, ◌<◌, Bool, true, false, [], ◌∷◌, ◌≡◌, refl, inl, inr, ◌⊎◌, arith, leb,
  if◌then◌else◌, length, filter, length-filter-le, Bool-cases,
}
use memoryd.Prelude.Int.{ℤ, ltb_ℤ}
use memoryd.Http.Peer.{IpAddr, ip_eq, ip_eq_iff}
use memoryd.Http.Throttle.{
  FailState, Entries, lookup, remove, is_live, oldest_of, evict, update, record_failure,
  auth_throttle_max_entries, drop_oldest,
}

pub length-remove-le : (ip : IpAddr) (m : Entries) → length (remove ip m) ≤ length m
unfolding remove
length-remove-le ip [] = omega arith
length-remove-le ip ((k, s) ∷ rest) = ground (arith, length-remove-le ip rest)

-- Removing a key that is there shortens the map.
has : IpAddr → Entries → Bool
has ip [] = false
has ip ((k, s) ∷ rest) = if ip_eq k ip then true else has ip rest

length-remove-lt : (ip : IpAddr) (m : Entries) → has ip m ≡ true → length (remove ip m) < length m
unfolding remove has
length-remove-lt ip [] h = absurd (ground arith)
length-remove-lt ip ((k, s) ∷ rest) h =
    ground (arith, length-remove-le ip rest, length-remove-lt ip rest)

pub ip_eq_refl : (ip : IpAddr) → ip_eq ip ip ≡ true
ip_eq_refl ip = (ip_eq_iff ip ip).1 refl

module _ (ip k : IpAddr) (best : ℤ) (s : FailState) (rest : Entries) where
  oldest_of-older :
      ltb_ℤ s.last_failure_ms best ≡ true
      → oldest_of ip best ((k, s) ∷ rest) ≡ oldest_of k s.last_failure_ms rest
  unfolding oldest_of
  oldest_of-older h = rw h

  oldest_of-younger :
      ltb_ℤ s.last_failure_ms best ≡ false
      → oldest_of ip best ((k, s) ∷ rest) ≡ oldest_of ip best rest
  unfolding oldest_of
  oldest_of-younger h = rw h

oldest_of-nil : (ip : IpAddr) (best : ℤ) → oldest_of ip best [] ≡ ip
unfolding oldest_of
oldest_of-nil ip best = refl

has-head : (k : IpAddr) (s : FailState) (rest : Entries) → has k ((k, s) ∷ rest) ≡ true
unfolding has
has-head k s rest = rw (ip_eq_refl k)

has-tail :
    (ip k : IpAddr) (s : FailState) (rest : Entries)
    → has ip rest ≡ true
    → has ip ((k, s) ∷ rest) ≡ true
unfolding has
has-tail ip k s rest h = ground arith

-- The entry that is evicted is one of the map.
oldest_of-mem :
    (ip : IpAddr) (best : ℤ) (rest : Entries)
    → (oldest_of ip best rest ≡ ip) ⊎ (has (oldest_of ip best rest) rest ≡ true)
oldest_of-mem ip best [] = inl (oldest_of-nil ip best)
oldest_of-mem ip best ((k, s) ∷ rest) = elim (Bool-cases (ltb_ℤ s.last_failure_ms best)) [
  | inl older ↦
      rw (oldest_of-older ip k best s rest older) (elim (oldest_of-mem k s.last_failure_ms rest) [
        | inl head ↦ inr (rw head (has-head k s rest))
        | inr tail ↦ inr (has-tail _ k s rest tail)
      ])
  | inr younger ↦
      rw (oldest_of-younger ip k best s rest younger) (elim (oldest_of-mem ip best rest) [
        | inl head ↦ inl head
        | inr tail ↦ inr (has-tail _ k s rest tail)
      ])
]

length-drop_oldest : (m : Entries) → length (drop_oldest m) ≤ length m - 1
length-drop_oldest [] = omega arith
length-drop_oldest ((k, s) ∷ rest) =
    let gone : has (oldest_of k s.last_failure_ms rest) ((k, s) ∷ rest) ≡ true =
      elim (oldest_of-mem k s.last_failure_ms rest) [
        | inl head ↦ rw head (has-head k s rest)
        | inr tail ↦ has-tail _ k s rest tail
      ] in
    omega (arith, length-remove-lt (oldest_of k s.last_failure_ms rest) ((k, s) ∷ rest) gone)

length-evict :
    (now : ℤ) (m : Entries)
    → length m ≤ auth_throttle_max_entries
    → length (evict now m) < auth_throttle_max_entries
unfolding evict
length-evict now m h =
    let live = filter (λ (e : IpAddr × FailState). is_live now e.1) m in
    elim (Bool-cases (leb auth_throttle_max_entries (length live))) [
      | inl over ↦ rw over (
          omega (
            arith,
            length-drop_oldest live,
            length-filter-le (λ (e : IpAddr × FailState). is_live now e.1) m,
          ))
      | inr under ↦ rw under (ground arith)
    ]

length-update : (ip : IpAddr) (now : ℤ) (m : Entries) → length (update ip now m) ≤ suc (length m)
unfolding update
length-update ip now [] = omega arith
length-update ip now ((k, s) ∷ rest) = ground (arith, length-update ip now rest)

length-update_old :
    (ip : IpAddr) (now : ℤ) (m : Entries)
    → is_some (lookup ip m) ≡ true
    → length (update ip now m) ≡ length m
unfolding update lookup
length-update_old ip now [] h = absurd (ground arith)
length-update_old ip now ((k, s) ∷ rest) h = ground (arith, length-update_old ip now rest)

-- A failure keeps the map at 1024 entries at most, whatever address fails.
pub length-record_failure :
    (ip : IpAddr) (now : ℤ) (m : Entries)
    → length m ≤ auth_throttle_max_entries
    → length (record_failure ip now m) ≤ auth_throttle_max_entries
unfolding record_failure
length-record_failure ip now m h = elim (Bool-cases (is_some (lookup ip m))) [
  | inl old ↦ rw old (omega (arith, length-update_old ip now m old))
  | inr new ↦ rw new (elim (Bool-cases (leb auth_throttle_max_entries (length m))) [
    | inl full ↦ rw full (omega (arith, length-update ip now (evict now m), length-evict now m h))
    | inr room ↦ rw room (ground (arith, length-update ip now m))
  ])
]
