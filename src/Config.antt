-- ===== src/Config.antt =====
-- `Config::validate` of crates/memoryd-core/src/config.rs, on the fields that it reads.
pub mod Guards
use memoryd.Prelude.{
  ℕ, ◌<◌, String, Bool, true, false, not, ◌&&◌, ◌||◌, Option, none, some, List, [], ◌∷◌, any, ltb,
  ◌==◌, ◌is◌, if◌then◌else◌, Result, ok, err, ◌>>=◌, is_some,
}
use memoryd.Text.{byte_len, is_blank, begins, codes}
use memoryd.Http.Peer.{IpAddr, is_loopback}
use memoryd.Worker.{Caps}

abbrev pub min_bearer_token_len : ℕ
min_bearer_token_len = 16

abbrev pub max_duration_secs : ℕ
max_duration_secs = 86400

-- The spend cap is the bits of a float.
pub record ProviderConfig : Type 0 where
  pub default_adapter : String
  pub embed_adapter : Option String
  pub base_url : String
  pub api_key : Option String
  pub paid_spend_cap_usd : ℕ

pub record Config : Type 0 where
  pub bind : IpAddr
  pub bearer_token : Option String
  pub providers : ProviderConfig
  pub caps : Caps
  pub vector_index_kind : String
  pub dream_wallclock_secs : ℕ

pub data ConfigError : Type 0 where
  remote_bind_requires_bearer : IpAddr → ConfigError
  empty_bearer_token : ConfigError
  bearer_token_too_short : ℕ → ConfigError
  unknown_adapter : String → ConfigError
  invalid_base_url : String → ConfigError
  empty_api_key : ConfigError
  paid_provider_requires_budget : String → ConfigError
  unknown_vector_index : String → ConfigError
  cap_duration_too_large : String → ℕ → ConfigError

abbrev pub Checked : Type 0
Checked = Result ConfigError (Unit {0})

abbrev pub refuse_if : Bool → ConfigError → Checked
refuse_if bad e = if bad then err e else ok tt

abbrev pub is_one_of : List String → String → Bool
is_one_of names s = any (λ n. s is n) names

abbrev adapters : List String
adapters = "null" ∷ "local" ∷ "openai_compat" ∷ []

-- `== 0.0` holds of both zeros.
abbrev is_zero : ℕ → Bool
is_zero bits = (bits == 0) || (bits == 0x8000_0000_0000_0000)

abbrev pub check_bind : Config → Checked
check_bind c =
    refuse_if (not (is_loopback c.bind) && not (is_some c.bearer_token))
      (remote_bind_requires_bearer c.bind)

abbrev pub check_token : IpAddr → Option String → Checked
check_token bind none = ok tt
check_token bind (some token) = refuse_if (is_blank token) empty_bearer_token >>= λ done.
    refuse_if (not (is_loopback bind) && ltb (byte_len token) min_bearer_token_len)
      (bearer_token_too_short (byte_len token))

abbrev check_embed_adapter : Option String → Checked
check_embed_adapter none = ok tt
check_embed_adapter (some adapter) =
    refuse_if (not (is_one_of adapters adapter)) (unknown_adapter adapter)

abbrev is_set_blank : Option String → Bool
is_set_blank none = false
is_set_blank (some key) = is_blank key

abbrev has_scheme : String → Bool
has_scheme base = begins (codes "http://") (codes base) || begins (codes "https://") (codes base)

abbrev check_providers : ProviderConfig → Checked
check_providers p =
    refuse_if (not (is_one_of adapters p.default_adapter)) (unknown_adapter p.default_adapter)
    >>= λ done. check_embed_adapter p.embed_adapter >>= λ done.
        refuse_if ((p.default_adapter is "openai_compat") && not (has_scheme p.base_url))
          (invalid_base_url p.base_url)
        >>= λ done.
            refuse_if ((p.default_adapter is "openai_compat") && is_set_blank p.api_key)
              empty_api_key
            >>= λ done.
                refuse_if
                  (not (is_one_of ("null" ∷ "local" ∷ []) p.default_adapter)
                    && is_zero p.paid_spend_cap_usd)
                  (paid_provider_requires_budget p.default_adapter)

abbrev pub check_duration : String → ℕ → Checked
check_duration field value =
    refuse_if (ltb max_duration_secs value) (cap_duration_too_large field value)

unfoldable pub validate : Config → Checked
validate c = check_bind c >>= λ done. check_token c.bind c.bearer_token >>= λ done.
    check_providers c.providers >>= λ done.
    refuse_if (not (is_one_of ("brute-force" ∷ "hnsw" ∷ []) c.vector_index_kind))
      (unknown_vector_index c.vector_index_kind)
    >>= λ done. check_duration "dream_wallclock_secs" c.dream_wallclock_secs >>= λ done.
        check_duration "lease_visibility_secs" c.caps.lease_visibility_secs
