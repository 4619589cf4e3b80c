-- ===== src/Mcp/Server/Replies.antt =====
-- What a message is answered with, and what it does to the store.
use memoryd.Prelude.{
  String, true, false, ◌||◌, Option, none, some, ◌is◌, Result, ok, err, ◌≡◌, refl, arith, inl, inr,
  Bool-cases,
}
use memoryd.Prelude.Int.{ℤ}
use memoryd.Json.{Value, get}
use memoryd.Redact.Spans.{Fault}
use memoryd.Store.Tables.{Tables}
use memoryd.Mcp.Host.{Host}
use memoryd.Mcp.Calls.{Response, answer}
use memoryd.Mcp.Server.{Session, Dispatched, dispatch, replied, request, with_method}
use memoryd.Mcp.Server.Captures.{Captures, same, answer-Captures}
use memoryd.Mcp.Server.Ids.{HasId, error_response-HasId, answer-HasId}

-- A message without an id gets no reply; any other gets one, with its id, unless the process panics.
abbrev pub Replies : Option Value → Result Fault (Option Value) → Type 0
Replies none reply = reply ≡ ok none
Replies (some id) (ok none) = ⊥
Replies (some id) (ok (some v)) = HasId id (ok v)
Replies (some id) (err f) = Unit

replied-Replies : (id : Value) (r : Response) → HasId id r → Replies (some id) (replied r)
replied-Replies id (ok v) h = h
replied-Replies id (err f) h = tt

module _ (H : Host) where
  answer-idle :
      (method : String) (id : Value) (params : Option Value) (now : ℤ) (t : Tables)
      → ((method is "initialize") || (method is "ping")) ≡ true
      → (answer H method id params now t).1 ≡ t
  unfolding answer
  answer-idle method id params now t h = elim (Bool-cases (method is "initialize")) [
    | inl a ↦ rw a refl
    | inr a ↦ let b : (method is "ping") ≡ true = ground arith in rw (a, b) refl
  ]

  -- What a message leads to: its reply; one capture at most; and none before the client has
  -- initialized, nor by a notification.
  pub record Answers (id : Option Value) (s : Session) (d : Dispatched) : Type 1 where
    pub replies : Replies id (d.0)
    pub captures : Captures H s.1 (d.1.1)
    pub gated : s.0 ≡ false → d.1.1 ≡ s.1
    pub silent : id ≡ none → d.1.1 ≡ s.1

  request-Answers :
      (method : String) (id : Value) (params : Option Value) (now : ℤ) (s : Session)
      → Answers (some id) s (request H method id params now s)
  request-Answers method id params now (true, t) = record {
    replies = replied-Replies id _ (answer-HasId H method id params now t);
    captures = answer-Captures H method id params now t;
    gated = λ h. absurd (ground arith);
    silent = λ h. absurd (ground arith);
  }
  request-Answers method id params now (false, t) =
      elim (Bool-cases ((method is "initialize") || (method is "ping"))) [
        | inl free ↦ rw free (record {
          replies = replied-Replies id _ (answer-HasId H method id params now t);
          captures = answer-Captures H method id params now t;
          gated = λ h. answer-idle method id params now t free;
          silent = λ h. absurd (ground arith);
        })
        | inr h ↦ rw h (record {
          replies = error_response-HasId id 32002 "server not initialized";
          captures = same;
          gated = λ e. refl;
          silent = λ e. refl;
        })
      ]

  with_method-Answers :
      (message : Value) (now : ℤ) (s : Session) (method : Option String) (id : Option Value)
      → Answers id s (with_method H message now s method id)
  with_method-Answers message now s none none = record {
    replies = refl;
    captures = same;
    gated = λ e. refl;
    silent = λ e. refl;
  }
  with_method-Answers message now s none (some id) = record {
    replies = error_response-HasId id 32600 "invalid request";
    captures = same;
    gated = λ e. refl;
    silent = λ e. refl;
  }
  with_method-Answers message now s (some method) none = record {
    replies = refl;
    captures = same;
    gated = λ e. refl;
    silent = λ e. refl;
  }
  with_method-Answers message now s (some method) (some id) = request-Answers method id _ now s

  pub dispatch-Answers :
      (message : Value) (now : ℤ) (s : Session)
      → Answers (get "id" message) s (dispatch H message now s)
  unfolding dispatch
  dispatch-Answers message now s = with_method-Answers message now s _ (get "id" message)
