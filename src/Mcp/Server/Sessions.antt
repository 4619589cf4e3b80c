-- ===== src/Mcp/Server/Sessions.antt =====
-- A session of the MCP server as a run of the store.
use memoryd.Prelude.{
  ℕ, zero, suc, ◌≤◌, String, true, false, Option, none, some, List, [], Result, ok, err, ◌≡◌, refl,
  sym, subst, ◌⊎◌, inl, inr, arith, ◌≢◌,
}
use memoryd.Prelude.Int.{ℤ}
use memoryd.Text.{trim}
use memoryd.Json.{Value}
use memoryd.Io.{IoError}
use memoryd.Store.Tables.{Tables}
use memoryd.Worker.{Adapter, Caps}
use memoryd.Runs.{Daemon, Run, here, next, capture, IsSound}
use memoryd.Runs.Jobs.{Run-IsSound}
use memoryd.Mcp.Lines.{Fill, Buffer, max_mcp_line_bytes}
use memoryd.Mcp.Lines.Size.{size, Takes, read_capped_line-Takes}
use memoryd.Mcp.Host.{Host}
use memoryd.Mcp.Server.{
  Session, Dispatched, End, stuck, Turn, ended, goes_on, with_message, with_line, message_step,
  with_reply, after_message, with_input, turn, run_loop,
}
use memoryd.Mcp.Server.Captures.{Captures, same, captured}
use memoryd.Mcp.Server.Replies.{dispatch-Answers}

-- The daemon beside which the server runs, with the same limits.
abbrev pub beside : Host → Adapter → Caps → Daemon
beside H adapter caps = record {
  codec = H.codec;
  engine = H.engine;
  adapter = adapter;
  caps = caps;
  queue_depth_max = H.queue_depth_max;
}

Run-trans : {D : Daemon} {t u v : Tables} → Run D t u → Run D u v → Run D t v
Run-trans r here = r
Run-trans r (next q st) = next (Run-trans r q) st

Captures-Run :
    {H : Host} (adapter : Adapter) (caps : Caps) {t u : Tables}
    → Captures H t u
    → Run (beside H adapter caps) t u
Captures-Run adapter caps same = here
Captures-Run adapter caps (captured e now a h) = next here (capture e now a h)

module _ (H : Host) (lossy : List ℕ → String) (clock : ℕ → ℤ) where
  with_message-Captures :
      (now : ℤ) (s : Session) (message : Option Value)
      → Captures H s.1 ((with_message H lossy clock now s message).1.1)
  with_message-Captures now s none = same
  with_message-Captures now s (some message) = (dispatch-Answers H message now s).captures

  with_line-Captures :
      (line : String) (now : ℤ) (s : Session)
      → Captures H s.1 ((with_line H lossy clock line now s).1.1)
  with_line-Captures String.[] now s = same
  with_line-Captures (String.◌∷◌ c line) now s = with_message-Captures now s _

  message_step-Captures :
      (buffer : Buffer) (now : ℤ) (s : Session)
      → Captures H s.1 ((message_step H lossy clock buffer now s).1.1)
  unfolding message_step
  message_step-Captures (raw, true) now s = same
  message_step-Captures (raw, false) now s = with_line-Captures (trim (lossy raw)) now s

  -- A round captures one event at most, and leaves less to read or ends for a reason.
  Rounds : Session → List Fill → Turn → Type 1
  Rounds s fills (ended e t) = Captures H s.1 t × (e ≢ stuck)
  Rounds s fills (goes_on reply later rest) =
      Captures H s.1 later.1 × (suc (size rest) ≤ size fills)

  after_message-Rounds :
      (s : Session) (fills rest : List Fill) (d : Dispatched)
      → Captures H s.1 (d.1.1)
      → suc (size rest) ≤ size fills
      → Rounds s fills (after_message H lossy clock rest d)
  unfolding Rounds
  after_message-Rounds s fills rest (ok reply, later) c le = (c, le)
  after_message-Rounds s fills rest (err f, later) c le = (c, λ h. absurd (ground arith))

  with_input-Rounds :
      (i : ℕ) (s : Session) (fills : List Fill) (r : Result IoError (Option Buffer × List Fill))
      → Takes (size fills) r
      → Rounds s fills (with_input H lossy clock i s r)
  unfolding Rounds
  with_input-Rounds i s fills (err e) h = (same, λ h. absurd (ground arith))
  with_input-Rounds i s fills (ok (none, rest)) h = (same, λ h. absurd (ground arith))
  with_input-Rounds i s fills (ok (some buffer, rest)) h =
      after_message-Rounds s fills rest _ (message_step-Captures buffer (clock i) s) h

  turn-Rounds :
      (i : ℕ) (s : Session) (fills : List Fill) → Rounds s fills (turn H lossy clock i s fills)
  unfolding turn
  turn-Rounds i s fills =
      with_input-Rounds i s fills _ (read_capped_line-Takes max_mcp_line_bytes fills)

  Turn-cases :
      (u : Turn)
      → ((e : End) × (t : Tables) × (u ≡ ended e t))
        ⊎ ((v : Option Value) × (s : Session) × (rest : List Fill) × (u ≡ goes_on v s rest))
  Turn-cases (ended e t) = inl (e, t, refl)
  Turn-cases (goes_on v s rest) = inr (v, s, rest, refl)

  run_loop-ended :
      (fuel i : ℕ) (s : Session) (fills : List Fill) (e : End) (t : Tables)
      → turn H lossy clock i s fills ≡ ended e t
      → run_loop H lossy clock (suc fuel) i s fills ≡ (e, ([], t))
  unfolding run_loop
  run_loop-ended fuel i s fills e t h = cc h

  run_loop-goes_on :
      (fuel i : ℕ) (s : Session) (fills : List Fill) (v : Option Value) (later : Session)
      (rest : List Fill)
      → turn H lossy clock i s fills ≡ goes_on v later rest
      → run_loop H lossy clock (suc fuel) i s fills
        ≡ with_reply H lossy clock v (run_loop H lossy clock fuel (suc i) later rest)
  unfolding run_loop
  run_loop-goes_on fuel i s fills v later rest h = cc h

  module _ (adapter : Adapter) (caps : Caps) where
    -- What a session does: its tables are reached by captures, and it ends for a reason.
    abbrev Ends : Tables → End × (List Value × Tables) → Type 1
    Ends t r = Run (beside H adapter caps) t (r.1.1) × (r.0 ≢ stuck)

    Ends-goes_on :
        (s later : Session) (v : Option Value) (r : End × (List Value × Tables))
        → Captures H s.1 later.1
        → Ends later.1 r
        → Ends s.1 (with_reply H lossy clock v r)
    Ends-goes_on s later none r c (run, e) = (Run-trans (Captures-Run adapter caps c) run, e)
    Ends-goes_on s later (some v) r c (run, e) = (Run-trans (Captures-Run adapter caps c) run, e)

    run_loop-Ends :
        (fuel i : ℕ) (s : Session) (fills : List Fill)
        → suc (size fills) ≤ fuel
        → Ends s.1 (run_loop H lossy clock fuel i s fills)
    unfolding Rounds
    run_loop-Ends zero i s fills h = absurd (omega arith)
    run_loop-Ends (suc fuel) i s fills h = elim (Turn-cases (turn H lossy clock i s fills)) [
      | inl (e, t, eq) ↦
          let (c, reason) = subst (Rounds s fills) eq (turn-Rounds i s fills) in
          subst (Ends s.1) (sym (run_loop-ended fuel i s fills e t eq))
            (Captures-Run adapter caps c, reason)
      | inr (v, later, rest, eq) ↦
          let (c, less) = subst (Rounds s fills) eq (turn-Rounds i s fills) in
          subst (Ends s.1) (sym (run_loop-goes_on fuel i s fills v later rest eq))
            (Ends-goes_on s later v _ c (run_loop-Ends fuel (suc i) later rest (omega arith)))
    ]

    -- With more fuel than there is to read, a session of the MCP server ends for a reason of its own,
    -- whatever the input, and keeps the tables of the daemon beside it sound.
    pub run_loop-IsSound :
        (fuel i : ℕ) (s : Session) (fills : List Fill)
        → suc (size fills) ≤ fuel
        → IsSound (beside H adapter caps) (s.1)
        → ((run_loop H lossy clock fuel i s fills).0 ≢ stuck)
          × IsSound (beside H adapter caps) ((run_loop H lossy clock fuel i s fills).1.1)
    run_loop-IsSound fuel i s fills h sound =
        let (run, reason) = run_loop-Ends fuel i s fills h in
        (
          reason,
          Run-IsSound (beside H adapter caps) s.1 ((run_loop H lossy clock fuel i s fills).1.1) run
              sound,
        )
