-- ===== src/Tests/Mcp.antt =====
-- Runs of the MCP server.
use memoryd.Prelude.{false, none, List, [], ◌∷◌, ◌≢◌, refl, arith, ok}
use memoryd.Prelude.Int.{pos}
use memoryd.Io.{interrupted}
use memoryd.Json.{Value, string}
use memoryd.Mcp.Messages.{obj, nat}
use memoryd.Mcp.Lines.{Fill, chunk, failure, read_capped_line}
use memoryd.Mcp.Lines.Chunks.{Cuts, read_capped_line-Cuts}
use memoryd.Mcp.Host.{Host}
use memoryd.Mcp.Server.{Session, run_loop, stuck}
use memoryd.Mcp.Server.Sessions.{beside, run_loop-IsSound}
use memoryd.Http.Serve.{failed}
use memoryd.Runs.{IsSound}
use memoryd.Tests.Data.{toy_codec, toy_engine, no_rows_at_all}
use memoryd.Tests.Background.{caps, down}
use memoryd.Tests.Runs.{empty-IsSound}

abbrev host : Host
host = record {
  codec = toy_codec;
  engine = toy_engine;
  version = "0.0.0";
  queue_depth_max = 1;
  recall = λ a t. failed;
  table_stats = λ t. ok [];
  memory_neighbors = λ m n t. ok none;
  active_profile_facts = λ n t. ok [];
  top_central_memories = λ n t. ok [];
  distilled_sessions = λ n t. ok [];
  distilled_session = λ n t. ok none;
}

-- `ping`, in two chunks with an interruption between them.
abbrev input : List Fill
input = chunk (b'{' ∷ b'}' ∷ []) ∷ failure interrupted ∷ chunk (b' ' ∷ b'\n' ∷ b'x' ∷ []) ∷ []

read_capped_line-Cuts_example :
    Cuts 4 (b'{' ∷ b'}' ∷ b' ' ∷ b'\n' ∷ b'x' ∷ []) (read_capped_line 4 input)
read_capped_line-Cuts_example = read_capped_line-Cuts 4 input (tt, (refl, (tt, tt)))

abbrev ping : Value
ping = obj (("id", nat 1) ∷ ("method", string "ping") ∷ [])

abbrev session : Session
session = (false, no_rows_at_all)

run_loop-IsSound_example :
    ((run_loop host (λ bs. "{}") pos 20 0 session input).0 ≢ stuck)
    × IsSound (beside host down caps) ((run_loop host (λ bs. "{}") pos 20 0 session input).1.1)
run_loop-IsSound_example =
    run_loop-IsSound host (λ bs. "{}") pos down caps 20 0 session input (omega arith) empty-IsSound
