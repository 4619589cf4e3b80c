-- ===== src/Lib.antt =====
-- A model of the core of memoryd, a local memory service for coding agents: the store that captures
-- events, queues their embedding and keeps facts behind approvals, the redactor that every text
-- passes, and the HTTP and MCP servers in front of them.
--
-- Parts, and the code they translate:
-- - Store (Store.Tables, Store.Audit): the tables of crates/memoryd-core/src/store.rs that the
--   operations below touch. A table is a list of records in the order of its row ids, an SQL statement
--   is a function on the lists, and a transaction is a function from tables to a result, so an error
--   leaves the tables as they were.
-- - Store.Queue: active_job_count, lease_embed_jobs, complete_embed_job, fail_job.
-- - Store.Capture: capture_event_with_queue_limit, from the redaction to the audit entries.
-- - Store.Approvals: list_pending_approvals as auto_approve_profile_facts uses it, decide_approval as
--   an outer read and a transaction (another process may write in between), and the loop.
-- - Store.Staging: import_units of crates/memoryd-core/src/store.rs, with the batch row it begins and
--   finishes and the transaction of each unit (stage_import_unit).
-- - Import: crates/memoryd-core/src/import.rs (generic JSONL, truncation, the content hash, and in
--   Import.Iso8601 the timestamps) and crates/memoryd-core/src/importers.rs (Import.Transcripts for
--   Claude Code, Import.Transcripts.Codex, Import.Opencode and Import.Databases for the rows that the
--   databases of OpenCode and Hermes give).
-- - Sources: import_jsonl_files and import_db of crates/memoryd/src/import_sources.rs, a batch for each
--   file.
-- - Redact: the collectors of spans (bearer tokens, known prefixes, e-mail addresses, tokens of high
--   entropy), apply_redaction_spans, redact_inline_string_with_count and redact_json_value_in_place.
-- - Http: AuthThrottle (Http.Throttle), is_authorized and constant_time_eq (Http.Auth, Http.Message),
--   the readers of bodies (Http.Body), and the handlers up to handle_http_connection (Http.Serve), all
--   of crates/memoryd/src/main.rs; and WriterHandle::exec of crates/memoryd-core/src/writer.rs.
-- - Http.Reader: read_http_request and read_http_line of crates/memoryd/src/main.rs on a socket that is
--   the list of what its reads give; Http.Connection: one connection from its bytes to the bytes of
--   write_http_response.
-- - Http.Accept: serve_loop and ConnectionGuard of crates/memoryd/src/main.rs as steps that interleave
--   with the threads of the connections. The clock of the drain moves with the sleeps, each of which
--   takes 50 ms at least.
-- - Worker: tick_embed of crates/memoryd-core/src/worker.rs, run on the store itself.
-- - Provider: the retries of crates/memoryd-core/src/openaicompat.rs.
-- - Config: validate of crates/memoryd-core/src/config.rs, on the fields that it reads.
-- - Mcp: the server of crates/memoryd/src/mcp.rs, from the lines of its input (Mcp.Lines) to its replies
--   (Mcp.Server), with its tools and resources (Mcp.Tools, Mcp.Calls).
-- - Runs: the store under all its writers, a run being captures, ticks, decisions, rejected requests and
--   the transactions of imports in any order. An import is staged under the daemon's limit of the queue.
-- - Hook: crates/memoryd/src/hook.rs, from the payload of a hook to the tables and the lines printed.
-- - Cli: Cli::parse of crates/memoryd/src/main.rs, an argument being its lossy text and, if it is UTF-8,
--   its text.
-- - Integrate: crates/memoryd/src/integrate.rs: the blocks appended to text files (append_file_parts) and
--   the plans of Codex and Hermes on them, the merge into JSON settings (Integrate.Claude), and the
--   plugin of OpenCode (Integrate.Plugin). A file is its text.
-- - Dream: the kinds, the half-lives and the states of a memory in crates/memoryd-core/src/dream.rs.
-- - Tui: civil_from_days of crates/memoryd/src/tui.rs.
-- - Json and Text: serde_json's value with its accessors, and the operations of Rust's strings and
--   slices that the code uses. A slice at an offset that is no character boundary is none, which is a
--   panic. Prelude holds numbers, lists and results.
--
-- Parameters: the printer and the reader of JSON and the float of a number (Json.Codec), floats
-- (Redact.Entropy.Float), the unstable sort (Redact.Spans.Sorter, which is to sort and permute), the
-- clock, random ids, the search behind a recall, the queries that the MCP server reads the store with
-- (Mcp.Host) and a hook asks (Hook.Queries), its lossy decoder of bytes, the pretty printer of JSON, the
-- debug form of a text, the arithmetic on floats of the importers (Import.Databases.Reals), and the
-- environment and the files of the command line. The order of a hash map is no part of the model: the
-- throttle's map is a list of entries without a promised order, and the entry that is evicted among
-- those of the same age is the first of the list.
--
-- Integers: an i64 is an integer that saturates where the code calls the saturating operations. A count
-- of rows or bytes is a natural number without a bound. The loops over texts run on fuel, more than
-- the bytes left, and a loop that spent it would end in the fault stuck: each round moves on by a byte at
-- least, and by no more than the needle beyond the end. The loop of the MCP server runs on fuel as well,
-- which is enough if it is more than the bytes and the reads that are left (Mcp.Lines.Size).
--
-- Not modelled: recall and its ranking and the dream passes over the memories in the store, which rest on floats and on
-- SQLite's full-text search; migrations; the requests of the provider adapters; the vector index; the
-- drawing and the keys of the terminal interface; what the commands of the command line print; the
-- environment; the detection of agents, backups and the report of the integrations; the opening of files
-- and databases; the errors of SQLite itself, on which a transaction rolls back and the call fails; and
-- what part of an answer a write to a socket that fails has sent.
--
-- Each theorem with hypotheses has an instance in a module below Tests, which also holds runs.
pub mod Prelude
pub mod Text
pub mod Redact
pub mod Json
pub mod Import
pub mod Tui
pub mod Cli
pub mod Integrate
pub mod Store
pub mod Io
pub mod Http
pub mod Config
pub mod Mcp
pub mod Worker
pub mod Runs
pub mod Provider
pub mod Dream
pub mod Sources
pub mod Hook
pub mod Tests
