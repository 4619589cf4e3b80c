-- ===== src/Cli.antt =====
-- The command line of crates/memoryd/src/main.rs: its errors, those of the store, of JSON and of I/O
-- apart, which carry no more than that they happened.
pub mod Arguments
pub mod Flags
pub mod Parse
use memoryd.Prelude.{ℕ, String}

pub data CliError : Type 0 where
  unknown_command : String → CliError
  unknown_flag : String → CliError
  unexpected_argument : String → CliError
  missing_argument : String → CliError
  missing_flag_value : String → CliError
  invalid_utf8_flag_value : String → CliError
  invalid_utf8_argument : String → CliError
  invalid_number_flag : String → String → CliError
  invalid_bind : String → CliError
  token_file_unreadable : String → CliError
  unknown_agent : String → CliError
  integrate_unparseable : CliError
  integrate_conflict : String → CliError
  invalid_scope : String → CliError
  unknown_hook_verb : String → CliError
  invalid_mode : String → CliError
  duration_too_large : String → ℕ → ℕ → CliError
  store io json : CliError
  doctor_failed tui_not_a_terminal : CliError
