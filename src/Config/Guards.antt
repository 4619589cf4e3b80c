-- ===== src/Config/Guards.antt =====
-- What a validated configuration guarantees to the parts that are run with it.
use memoryd.Prelude.{
  ◌*◌, ◌≤◌, String, ◌<>◌, Bool, true, false, Option, none, some, List, ok, err, ◌>>=◌, is_some, ◌≡◌,
  refl, subst, arith,
}
use memoryd.Text.{byte_len, as_bytes, is_blank}
use memoryd.Http.Peer.{IpAddr, is_loopback}
use memoryd.Http.Message.{header_value}
use memoryd.Http.Auth.{is_authorized}
use memoryd.Http.Auth.Credentials.{is_authorized_iff}
use memoryd.Worker.{visibility_ms}
use memoryd.Config.{
  Config, ConfigError, Checked, refuse_if, check_bind, check_token, check_providers, check_duration,
  validate, min_bearer_token_len,
}

refuse_if-ok : (bad : Bool) (e : ConfigError) → refuse_if bad e ≡ ok tt → bad ≡ false
refuse_if-ok true e h = absurd (ground arith)
refuse_if-ok false e h = refl

-- A check that passes has passed both its parts.
and_then :
    (first next : Checked) → first >>= (λ done. next) ≡ ok tt → (first ≡ ok tt) × (next ≡ ok tt)
and_then (ok tt) next h = (refl, h)
and_then (err e) next h = absurd (ground arith)

record Passed (c : Config) : Type 0 where
  bind : check_bind c ≡ ok tt
  token : check_token c.bind c.bearer_token ≡ ok tt
  lease : check_duration "lease_visibility_secs" c.caps.lease_visibility_secs ≡ ok tt

validate-Passed : (c : Config) → validate c ≡ ok tt → Passed c
unfolding validate
validate-Passed c h =
    let (bind, h1) = and_then (check_bind c) _ h in
    let (token, h2) = and_then (check_token c.bind c.bearer_token) _ h1 in
    let (providers, h3) = and_then (check_providers c.providers) _ h2 in
    let (index, h4) = and_then _ _ h3 in
    let (dream, lease) =
      and_then (check_duration "dream_wallclock_secs" c.dream_wallclock_secs) _ h4 in
    record { bind = bind; token = token; lease = lease }

token-guards :
    (bind : IpAddr) (token : Option String)
    → is_loopback bind ≡ false
    → is_some token ≡ true
    → check_token bind token ≡ ok tt
    → (t : String) × (token ≡ some t) × (is_blank t ≡ false) × (min_bearer_token_len ≤ byte_len t)
token-guards bind none far some_token h = absurd (ground arith)
token-guards bind (some t) far some_token h =
    let (blank, short) = and_then (refuse_if (is_blank t) _) _ h in
    let long = refuse_if-ok _ _ short in (t, refl, refuse_if-ok _ _ blank, ground (arith, long))

-- A validated configuration that binds beyond the loopback addresses has a token of at least 16
-- bytes, not blank, and a request that is authorized carries it, whoever its peer is.
pub validate-guards :
    (c : Config) (peer : Option IpAddr) (headers : List (String × String))
    → validate c ≡ ok tt
    → is_loopback c.bind ≡ false
    → is_authorized c.bearer_token peer headers ≡ true
    → (token : String) × (c.bearer_token ≡ some token)
      × (is_blank token ≡ false)
      × (min_bearer_token_len ≤ byte_len token)
      × ((actual : String) × (header_value "authorization" headers ≡ some actual)
          × (as_bytes actual ≡ as_bytes ("Bearer " <> token)))
validate-guards c peer headers h far authorized =
    let passed = validate-Passed c h in
    let given = refuse_if-ok _ _ passed.bind in
    let (t, e, ink, long) =
      token-guards c.bind c.bearer_token far (ground (arith, given)) passed.token in
    (
      t,
      e,
      ink,
      long,
      (is_authorized_iff (some t) peer headers).0
          (subst (λ token. is_authorized token peer headers ≡ true) e authorized),
    )

-- The visibility timeout of a validated configuration is its seconds in milliseconds: neither bound
-- of the conversion is reached, and the timeout is at most a day.
pub validate-visibility_ms :
    (c : Config)
    → validate c ≡ ok tt
    → (visibility_ms c.caps ≡ c.caps.lease_visibility_secs * 1000)
      × (visibility_ms c.caps ≤ 86400000)
validate-visibility_ms c h =
    let short = refuse_if-ok _ _ (validate-Passed c h).lease in
    (ground (arith, short), ground (arith, short))
