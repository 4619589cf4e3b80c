-- ===== src/Cli/Arguments.antt =====
-- The commands and their arguments, as `Cli::parse` of crates/memoryd/src/main.rs builds them. An
-- argument is its lossy text and, if it is UTF-8, its text. The environment, the parser of addresses,
-- that of floats and the files are parameters.

use memoryd.Prelude.{
  ℕ, String, Bool, false, ◌||◌, Option, none, List, [], ◌is◌, if◌then◌else◌, Result, ok, err,
}
use memoryd.Integrate.{Mode}
use memoryd.Cli.{CliError, unknown_command}

pub data Scope : Type 0 where
  user project : Scope

pub record IntegrateArgs : Type 0 where
  pub agent : Option String
  pub scope : Scope
  pub mode : Mode
  pub dry_run : Bool
  pub bin : Option String
  pub db : Option String

pub record HookArgs : Type 0 where
  pub verb : String
  pub agent : String

pub record RememberArgs : Type 0 where
  pub content : String
  pub kind : String
  pub session_id : String
  pub source : String
  pub tags : List String
  pub agent : String

pub record RecallArgs : Type 0 where
  pub query : String
  pub limit : ℕ
  pub semantic : Bool
  pub hops : ℕ
  pub index_kind : Option String

pub record ImportArgs : Type 0 where
  pub source : String
  pub path : String

-- The budget is a float's bits.
pub record DreamArgs : Type 0 where
  pub budget_usd : Option ℕ
  pub max_seconds : Option ℕ

pub record ApproveArgs : Type 0 where
  pub list : Bool
  pub id : Option String
  pub accept : Bool
  pub reject : Bool

pub data Command : Type 0 where
  doctor : Bool → Command
  stats serve mcp tui version help : Command
  backup setup : String → Command
  integrate : IntegrateArgs → Command
  hook : HookArgs → Command
  remember : RememberArgs → Command
  recall : RecallArgs → Command
  import_ : ImportArgs → Command
  dream : DreamArgs → Command
  approve : ApproveArgs → Command

pub record Cli : Type 0 where
  pub command : Command
  pub db_path : String
  pub bind : String
  pub bearer_token : Option String
  pub adapter : Option String

-- An `OsString`.
pub record Argument : Type 0 where
  pub lossy : String
  pub utf8 : Option String

pub record Outside : Type 0 where
  pub default_db_path : String
  pub token : Option String
  pub parse_bind : String → Option String
  pub parse_f64 : String → Option ℕ
  pub read_file : String → Option String

unfoldable pub command_of : String → Result CliError Command
command_of name =
    if name is "doctor"
    then ok (doctor false)
    else if name is "stats"
    then ok (stats)
    else if name is "backup"
    then ok (backup "")
    else if name is "setup"
    then ok (setup "")
    else if name is "hook"
    then ok (hook (record { verb = ""; agent = "hook" }))
    else if name is "integrate"
    then ok (
        integrate (record {
          agent = none;
          scope = user;
          mode = Mode.mcp;
          dry_run = false;
          bin = none;
          db = none;
        }))
    else if name is "serve"
    then ok (serve)
    else if name is "remember"
    then ok (
        remember (record {
          content = "";
          kind = "note";
          session_id = "cli";
          source = "cli";
          tags = [];
          agent = "cli";
        }))
    else if name is "recall"
    then ok
        (recall (record { query = ""; limit = 5; semantic = false; hops = 1; index_kind = none }))
    else if name is "import"
    then ok (import_ (record { source = "jsonl"; path = "" }))
    else if name is "dream"
    then ok (dream (record { budget_usd = none; max_seconds = none }))
    else if name is "approve"
    then ok (approve (record { list = false; id = none; accept = false; reject = false }))
    else if name is "mcp"
    then ok (mcp)
    else if name is "tui"
    then ok (tui)
    else if (name is "--version") || (name is "-V") || (name is "version")
    then ok version
    else if (name is "--help") || (name is "-h") || (name is "help")
    then ok help
    else err (unknown_command name)
