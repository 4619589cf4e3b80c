-- ===== src/Http/Throttle.antt =====
-- `AuthThrottle` of crates/memoryd/src/main.rs. The map is a list of its entries in the order in
-- which an iteration meets them, which the code leaves open; the mutex makes each call one step.
pub mod Bounds
pub mod Lockout
use memoryd.Prelude.{
  is_some, ℕ, suc, Bool, true, false, not, ◌&&◌, ◌||◌, Option, none, some, List, [], ◌∷◌, ◌++◌, ltb,
  leb, if◌then◌else◌, length, filter,
}
use memoryd.Prelude.Int.{ℤ, pos, ltb_ℤ, leb_ℤ, ◌+ℤ◌, saturating_sub}
use memoryd.Http.Peer.{IpAddr, ip_eq}

abbrev pub auth_fail_limit : ℕ
auth_fail_limit = 5

abbrev pub auth_fail_window_ms : ℤ
auth_fail_window_ms = pos 60000

abbrev pub auth_lockout_ms : ℤ
auth_lockout_ms = pos 60000

abbrev pub auth_throttle_max_entries : ℕ
auth_throttle_max_entries = 1024

pub record FailState : Type 0 where
  pub failures : ℕ
  pub window_start_ms : ℤ
  pub locked_until_ms : ℤ
  pub last_failure_ms : ℤ

abbrev pub Entries : Type 0
Entries = List (IpAddr × FailState)

-- `HashMap::get`, `contains_key` and `remove`.
unfoldable pub lookup : IpAddr → Entries → Option FailState
lookup ip [] = none
lookup ip ((k, s) ∷ rest) = if ip_eq k ip then some s else lookup ip rest

pub remove : IpAddr → Entries → Entries
remove ip [] = []
remove ip ((k, s) ∷ rest) = if ip_eq k ip then remove ip rest else (k, s) ∷ remove ip rest

abbrev is_locked : ℤ → Option FailState → Bool
is_locked now none = false
is_locked now (some s) = ltb_ℤ now s.locked_until_ms

unfoldable pub is_throttled : IpAddr → ℤ → Entries → Bool
is_throttled ip now m = is_locked now (lookup ip m)

-- What `evict` retains.
abbrev pub is_live : ℤ → FailState → Bool
is_live now s =
    ltb_ℤ now s.locked_until_ms || leb_ℤ (saturating_sub now s.last_failure_ms) auth_fail_window_ms

-- `min_by_key` over the entries that follow the best one so far: the first of the least.
oldest_of : IpAddr → ℤ → Entries → IpAddr
oldest_of ip best [] = ip
oldest_of ip best ((k, s) ∷ rest) =
    oldest_of (if ltb_ℤ s.last_failure_ms best then k else ip)
      (if ltb_ℤ s.last_failure_ms best then s.last_failure_ms else best) rest

abbrev drop_oldest : Entries → Entries
drop_oldest [] = []
drop_oldest ((k, s) ∷ rest) = remove (oldest_of k s.last_failure_ms rest) ((k, s) ∷ rest)

pub evict : ℤ → Entries → Entries
unfolding oldest_of remove
evict now m =
    let live = filter (λ e. is_live now e.1) m in
    if leb auth_throttle_max_entries (length live) then drop_oldest live else live

abbrev pub fresh : ℤ → FailState
fresh now = record {
  failures = 0;
  window_start_ms = now;
  locked_until_ms = pos 0;
  last_failure_ms = now;
}

abbrev window : ℤ → FailState → FailState
window now s =
    if ltb_ℤ auth_fail_window_ms (saturating_sub now s.window_start_ms)
    then record s { failures = 0; window_start_ms = now }
    else s

abbrev counted : ℤ → FailState → FailState
counted now s = record s { failures = suc s.failures; last_failure_ms = now }

abbrev locking : ℤ → FailState → FailState
locking now s =
    if leb auth_fail_limit s.failures
    then record s { locked_until_ms = now +ℤ auth_lockout_ms; failures = 0; window_start_ms = now }
    else s

-- What a failure makes of the entry.
pub fail : ℤ → FailState → FailState
fail now s = locking now (counted now (window now s))

-- `entry(ip).or_insert(…)`, and the update of the entry in place.
pub update : IpAddr → ℤ → Entries → Entries
unfolding fail
update ip now [] = (ip, fail now (fresh now)) ∷ []
update ip now ((k, s) ∷ rest) =
    if ip_eq k ip then (k, fail now s) ∷ rest else (k, s) ∷ update ip now rest

unfoldable pub record_failure : IpAddr → ℤ → Entries → Entries
unfolding lookup evict update
record_failure ip now m = update ip now (
    if not (is_some (lookup ip m)) && leb auth_throttle_max_entries (length m)
    then evict now m
    else m)

unfoldable pub record_success : IpAddr → Entries → Entries
unfolding remove
record_success ip m = remove ip m
