-- ===== src/Http/Serve/Lockout.antt =====
-- A peer that guesses the token over connections of its own.
use memoryd.Prelude.{
  ℕ, ◌≤◌, true, false, none, some, List, [], ◌∷◌, ◌≡◌, refl, sym, subst, arith, Bool, map, Result,
  ok, All, length,
}
use memoryd.Prelude.Int.{ℤ, pos, ◌+ℤ◌, ◌<ℤ◌}
use memoryd.Store.Tables.{Tables}
use memoryd.Http.Peer.{IpAddr}
use memoryd.Http.Message.{HttpRequest, HttpResponse, error_response}
use memoryd.Http.Auth.{is_authorized}
use memoryd.Http.Throttle.{Entries, lookup, is_throttled, record_failure}
use memoryd.Http.Throttle.Lockout.{failures_at, Within, is_throttled-few, is_throttled-fifth}
use memoryd.Http.Serve.{Server, reject, handle_http_request, handle_http_connection}
use memoryd.Http.Serve.Access.{is_exempt}

is_throttled-absent :
    (ip : IpAddr) (now : ℤ) (m : Entries) → lookup ip m ≡ none → is_throttled ip now m ≡ false
unfolding is_throttled
is_throttled-absent ip now m h = rw h

-- The server at a time.
abbrev pub at : Server → ℕ → Server
at S now = record S { now = pos now }

-- The tables and the throttle after connections of one peer at those times, with the same request and
-- an answer that is written.
pub knocks : Server → IpAddr → HttpRequest → List ℕ → Tables × Entries → Tables × Entries
knocks S ip r [] s = s
knocks S ip r (now ∷ rest) (t, m) =
    knocks S ip r rest (handle_http_connection (at S now) (some ip) (ok r) true t m).1

abbrev pub times : List ℕ → List ℤ
times [] = []
times (n ∷ ns) = pos n ∷ times ns

-- The answer to a peer that is locked out.
abbrev pub rate_limited : HttpResponse
rate_limited =
    error_response 429 "rate_limited" "too many failed authentication attempts; retry later"

-- A connection: when it is handled, its request or the error of the parser, and whether its answer
-- is written.
pub record Visit : Type 0 where
  pub time : ℕ
  pub request : Result HttpResponse HttpRequest
  pub written : Bool

-- The answers to connections of one peer, one after the other, with the state after them.
pub visits :
    Server → IpAddr → List Visit → Tables × Entries → List HttpResponse × (Tables × Entries)
visits S ip [] s = ([], s)
visits S ip (v ∷ vs) s =
    let (response, u) =
      handle_http_connection (at S v.time) (some ip) v.request v.written s.0 s.1 in
    let (rest, w) = visits S ip vs u in (response ∷ rest, w)

module _ (S : Server) (ip : IpAddr) (r : HttpRequest) where
  visits-locked :
      (last : ℕ) (vs : List Visit) (s : Tables × Entries)
      → ((later : ℕ) → pos later <ℤ pos last +ℤ pos 60000 → is_throttled ip (pos later) s.1 ≡ true)
      → All (λ v. pos v.time <ℤ pos last +ℤ pos 60000) vs
      → visits S ip vs s ≡ (map (λ v. rate_limited) vs, s)
  unfolding visits handle_http_connection
  visits-locked last [] s locked soon = refl
  visits-locked last (v ∷ vs) s locked (early, soon) =
      rw (locked v.time early, handle_http_connection)
        (rw (visits-locked last vs s locked soon) refl)

  -- The request carries no valid credentials.
  abbrev pub IsGuess : Type 0
  IsGuess =
      (S.writer_alive ≡ true)
      × (is_exempt (some ip) r ≡ false)
      × (is_authorized S.bearer_token (some ip) r.headers ≡ false)

  status-guess :
      (now : ℕ) (t : Tables)
      → IsGuess
      → (handle_http_request (at S now) (some ip) r t).0.status ≡ 401
  unfolding handle_http_request reject
  status-guess now t (alive, far, anonymous) = ground (arith, far)

  entries-guess :
      (now : ℕ) (t : Tables) (m : Entries)
      → IsGuess
      → is_throttled ip (pos now) m ≡ false
      → (handle_http_connection (at S now) (some ip) (ok r) true t m).1.1
        ≡ record_failure ip (pos now) m
  unfolding handle_http_connection
  entries-guess now t m g free = rw (free, handle_http_connection) (rw (status-guess now t g))

  entries-next :
      (now : ℕ) (s : Tables × Entries) (m : Entries)
      → IsGuess
      → s.1 ≡ m
      → is_throttled ip (pos now) m ≡ false
      → (knocks S ip r (now ∷ []) s).1 ≡ record_failure ip (pos now) m
  unfolding knocks
  entries-next now (t, n) m g same free =
      subst (λ k. (knocks S ip r (now ∷ []) (t, n)).1 ≡ record_failure ip (pos now) k) same
        (entries-guess now t n g (rw same free))

  -- Five guesses within a minute of the first, by an address with no entry, are recorded as its
  -- failures.
  entries-knocks :
      (start a b c last : ℕ) (t : Tables) (m : Entries)
      → IsGuess
      → lookup ip m ≡ none
      → All (Within (pos start)) (times (a ∷ b ∷ c ∷ []))
      → (knocks S ip r (start ∷ a ∷ b ∷ c ∷ last ∷ []) (t, m)).1
        ≡ record_failure ip (pos last) (failures_at ip (times (start ∷ a ∷ b ∷ c ∷ [])) m)
  unfolding knocks
  entries-knocks start a b c last t m g new (wa, (wb, (wc, _))) =
      let few = λ (ts : List ℤ) (w : All (Within (pos start)) ts) (k : length ts ≤ 3) (n : ℕ).
        is_throttled-few ip (pos start) ts n m new w k in
      let s1 = knocks S ip r (start ∷ []) (t, m) in
      let s2 = knocks S ip r (a ∷ []) s1 in
      let s3 = knocks S ip r (b ∷ []) s2 in
      let s4 = knocks S ip r (c ∷ []) s3 in
      let e1 = entries-next start (t, m) m g refl (is_throttled-absent ip (pos start) m new) in
      let e2 = entries-next a s1 _ g e1 (few [] tt (omega arith) a) in
      let e3 = entries-next b s2 _ g e2 (few (pos a ∷ []) (wa, tt) (omega arith) b) in
      let e4 = entries-next c s3 _ g e3 (few (pos a ∷ pos b ∷ []) (wa, (wb, tt)) (omega arith) c) in
      entries-next last s4 _ g e4
        (few (pos a ∷ pos b ∷ pos c ∷ []) (wa, (wb, (wc, tt))) (omega arith) last)

  -- After five connections with one unauthorized request, within a minute of the first, their
  -- answers written and the writer alive, by an address that the throttle does not know, and for as
  -- long as no other address connects, the answer to every connection of that address in the minute
  -- after the fifth is 429, whatever it sends, a valid token too, and whether or not the answer is
  -- written; its request is not handled, and neither the tables nor the throttle change.
  pub handle_http_connection-locked :
      (start a b c last : ℕ) (vs : List Visit) (t : Tables) (m : Entries)
      → IsGuess
      → lookup ip m ≡ none
      → All (Within (pos start)) (times (a ∷ b ∷ c ∷ last ∷ []))
      → All (λ v. pos v.time <ℤ pos last +ℤ pos 60000) vs
      → let s = knocks S ip r (start ∷ a ∷ b ∷ c ∷ last ∷ []) (t, m) in
        visits S ip vs s ≡ (map (λ v. rate_limited) vs, s)
  handle_http_connection-locked start a b c last vs t m g new (wa, (wb, (wc, (wl, _)))) soon =
      let s = knocks S ip r (start ∷ a ∷ b ∷ c ∷ last ∷ []) (t, m) in
      let locked = λ (later : ℕ) (early : pos later <ℤ pos last +ℤ pos 60000).
        subst (λ k. is_throttled ip (pos later) k ≡ true)
          (sym (entries-knocks start a b c last t m g new (wa, (wb, (wc, tt)))))
          (rw
            (is_throttled-fifth ip (pos start) (pos last) (pos later) (times (a ∷ b ∷ c ∷ [])) m new
              (wa, (wb, (wc, tt))) refl wl)
            (ground arith)) in
      visits-locked last vs s locked soon
