-- ===== src/Tests/Config.antt =====
-- A configuration that serves beyond this machine.
use memoryd.Prelude.{◌*◌, ◌≤◌, String, ◌<>◌, true, false, none, some, List, [], ◌∷◌, ok, ◌≡◌, refl}
use memoryd.Text.{byte_len, len_utf8, as_bytes, is_blank, is_whitespace, begins}
use memoryd.Http.Peer.{v4, is_loopback}
use memoryd.Http.Message.{header_value}
use memoryd.Http.Auth.{is_authorized}
use memoryd.Http.Auth.Credentials.{is_authorized_iff}
use memoryd.Worker.{visibility_ms}
use memoryd.Config.{Config, validate, min_bearer_token_len}
use memoryd.Config.Guards.{validate-guards, validate-visibility_ms}
use memoryd.Tests.Background.{caps}

abbrev secret : String
secret = "0123456789abcdef"

abbrev config : Config
config = record {
  bind = v4 0x0a000001;
  bearer_token = some secret;
  providers = record {
    default_adapter = "local";
    embed_adapter = none;
    base_url = "";
    api_key = none;
    paid_spend_cap_usd = 0;
  };
  caps = caps;
  vector_index_kind = "hnsw";
  dream_wallclock_secs = 60;
}

config_valid : validate config ≡ ok tt
unfolding validate is_loopback is_blank is_whitespace byte_len len_utf8 begins
config_valid = refl

abbrev credentials : List (String × String)
credentials = ("authorization", "Bearer " <> secret) ∷ []

authorized : is_authorized config.bearer_token none credentials ≡ true
unfolding header_value
authorized = (is_authorized_iff (some secret) none credentials).1 ("Bearer " <> secret, refl, refl)

validate-guards_example :
    (token : String) × (config.bearer_token ≡ some token)
    × (is_blank token ≡ false)
    × (min_bearer_token_len ≤ byte_len token)
    × ((actual : String) × (header_value "authorization" credentials ≡ some actual)
        × (as_bytes actual ≡ as_bytes ("Bearer " <> token)))
unfolding is_loopback
validate-guards_example = validate-guards config none credentials config_valid refl authorized

validate-visibility_ms_example :
    (visibility_ms caps ≡ caps.lease_visibility_secs * 1000) × (visibility_ms caps ≤ 86400000)
validate-visibility_ms_example = validate-visibility_ms config config_valid

-- A remote adapter for the embeddings alone needs no address and no budget.
remote_embeds_pass :
    validate (record config {
      providers = record {
        default_adapter = "local";
        embed_adapter = some "openai_compat";
        base_url = "ftp://example";
        api_key = none;
        paid_spend_cap_usd = 0;
      };
    })
    ≡ ok tt
unfolding validate is_loopback is_blank is_whitespace byte_len len_utf8 begins
remote_embeds_pass = refl
