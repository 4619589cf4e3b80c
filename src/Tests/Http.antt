-- ===== src/Tests/Http.antt =====
-- Runs of the HTTP server's throttle and of its answers.
use memoryd.Prelude.{
  ℕ, ◌≤◌, true, false, none, some, List, [], ◌∷◌, ◌≡◌, ◌↔◌, refl, arith, length, ok, if◌then◌else◌,
}
use memoryd.Prelude.Int.{pos, ltb_ℤ, ◌+ℤ◌, ◌<ℤ◌}
use memoryd.Store.Tables.{Tables}
use memoryd.Json.{object, end}
use memoryd.Http.Peer.{IpAddr, v4, ip_eq}
use memoryd.Http.Message.{HttpRequest, header_value, constant_time_eq}
use memoryd.Http.Message.Constant.{constant_time_eq_iff}
use memoryd.Http.Serve.{Server, failed}
use memoryd.Http.Serve.Lockout.{
  Visit, visits, knocks, rate_limited, IsGuess, handle_http_connection-locked,
}
use memoryd.Http.Auth.{is_authorized}
use memoryd.Http.Auth.Credentials.{HasCredentials, is_authorized_iff}
use memoryd.Http.Throttle.{
  Entries, lookup, is_throttled, record_failure, record_success, auth_throttle_max_entries,
}
use memoryd.Http.Throttle.Bounds.{length-record_failure}
use memoryd.Http.Throttle.Lockout.{
  failures_at, is_throttled-few, is_throttled-fifth, is_throttled-record_success, Within,
}
use memoryd.Tests.Data.{toy_engine, toy_codec, no_rows_at_all}

-- 10.0.0.1 and 10.0.0.2.
abbrev pub guest : IpAddr
guest = v4 0x0a000001

abbrev other_guest : IpAddr
other_guest = v4 0x0a000002

abbrev pub server : Server
server = record {
  codec = toy_codec;
  engine = toy_engine;
  bearer_token = some "secret";
  queue_depth_max = 4;
  now = pos 9;
  writer_alive = true;
  parse_body = λ b. some (object end);
  schema_version = λ t. some 1;
  recall = λ a t. failed;
}

abbrev knock : HttpRequest
knock = record { method = "POST"; path = "/v1/capture"; headers = []; body = [] }

constant_time_eq_iff_example :
    (constant_time_eq (1 ∷ 2 ∷ []) (1 ∷ 3 ∷ []) ≡ true) ↔ ◌≡◌ {A = List ℕ} (1 ∷ 2 ∷ []) (1 ∷ 3 ∷ [])
constant_time_eq_iff_example = constant_time_eq_iff (1 ∷ 2 ∷ []) (1 ∷ 3 ∷ [])

length-record_failure_example : length (record_failure guest (pos 0) []) ≤ auth_throttle_max_entries
length-record_failure_example = length-record_failure guest (pos 0) [] (omega arith)

absent : lookup guest [] ≡ none
unfolding lookup
absent = refl

in_window : (n : ℕ) → n ≤ 60000 → Within (pos 0) (pos n)
unfolding ◌+ℤ◌
in_window n h = omega arith

is_throttled-few_example :
    is_throttled guest (pos 40) (failures_at guest (pos 0 ∷ pos 10 ∷ pos 20 ∷ pos 30 ∷ []) [])
    ≡ false
is_throttled-few_example =
    is_throttled-few guest (pos 0) (pos 10 ∷ pos 20 ∷ pos 30 ∷ []) 40 [] absent
      (in_window 10 (omega arith), (in_window 20 (omega arith), (in_window 30 (omega arith), tt)))
      (omega arith)

is_throttled-fifth_example :
    is_throttled guest
      (pos 50)
      (record_failure guest (pos 40) (failures_at guest (pos 0 ∷ pos 10 ∷ pos 20 ∷ pos 30 ∷ []) []))
    ≡ ltb_ℤ (pos 50) (pos 40 +ℤ pos 60000)
is_throttled-fifth_example =
    is_throttled-fifth guest (pos 0) (pos 40) (pos 50) (pos 10 ∷ pos 20 ∷ pos 30 ∷ []) [] absent
      (in_window 10 (omega arith), (in_window 20 (omega arith), (in_window 30 (omega arith), tt)))
      refl (in_window 40 (omega arith))

is_throttled-record_success_example :
    is_throttled other_guest (pos 9) (record_success guest [])
    ≡ (if ip_eq guest other_guest then false else is_throttled other_guest (pos 9) [])
is_throttled-record_success_example = is_throttled-record_success guest other_guest (pos 9) []

is_guess : IsGuess server guest knock
unfolding is_authorized header_value
is_guess = (refl, refl, refl)

soon : (later : ℕ) → later ≤ 60000 → pos later <ℤ pos 40 +ℤ pos 60000
unfolding ◌+ℤ◌
soon later h = omega arith

abbrev later_visits : List Visit
later_visits =
    record { time = 50; request = ok knock; written = true }
    ∷ record { time = 40000; request = ok knock; written = false }
    ∷ []

abbrev after_five : Tables × Entries
after_five = knocks server guest knock (0 ∷ 10 ∷ 20 ∷ 30 ∷ 40 ∷ []) (no_rows_at_all, [])

handle_http_connection-locked_example :
    visits server guest later_visits after_five ≡ (rate_limited ∷ rate_limited ∷ [], after_five)
handle_http_connection-locked_example =
    handle_http_connection-locked server guest knock 0 10 20 30 40 later_visits no_rows_at_all []
      is_guess absent
      (
        in_window 10 (omega arith),
        (
          in_window 20 (omega arith),
          (in_window 30 (omega arith), (in_window 40 (omega arith), tt)),
        ),
      )
      (soon 50 (omega arith), (soon 40000 (omega arith), tt))

is_authorized_iff_example :
    (is_authorized (some "secret") (some guest) [] ≡ true)
    ↔ HasCredentials (some "secret") (some guest) []
is_authorized_iff_example = is_authorized_iff (some "secret") (some guest) []
