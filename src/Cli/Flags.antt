-- ===== src/Cli/Flags.antt =====
-- What each flag of the command line does with the command before it.
use Prim.Native.Char.{Char, code}
use memoryd.Prelude.{
  ℕ, String, true, not, some, List, [], ◌∷◌, filter, map, ltb, ◌==◌, ◌is◌, if◌then◌else◌, Result,
  ok, err, ◌>>=◌, ok_or,
}
use memoryd.Text.{is_blank, trim}
use memoryd.Config.{max_duration_secs}
use memoryd.Http.Reader.{parse_usize}
use memoryd.Integrate.{Mode}
use memoryd.Cli.{
  CliError, unknown_flag, invalid_utf8_flag_value, invalid_number_flag, invalid_scope, invalid_mode,
  duration_too_large,
}
use memoryd.Cli.Arguments.{
  Scope, user, project, Command, doctor, backup, setup, integrate, hook, remember, recall, import_,
  dream, approve, Cli, Argument,
}

-- What an argument does: it changes the command line, it wants the next argument, or it asks for help.
pub data Effect : Type 0 where
  now : Cli → Effect
  value : String → (Argument → Result CliError Cli) → Effect
  asks_help : Effect

abbrev pub set_command : Cli → Command → Cli
set_command s c = record s { command = c }

-- `next_string`, without the missing value.
unfoldable pub text_value : String → Argument → Result CliError String
text_value flag a = ok_or a.utf8 (invalid_utf8_flag_value flag)

-- A flag that wants a text for the command.
abbrev pub wants : String → Cli → (String → Result CliError Command) → Result CliError Effect
wants flag s f = ok (value flag (λ a. text_value flag a >>= f >>= λ c. ok (set_command s c)))

abbrev cons_tag : Char → List String → List String
cons_tag c [] = String.◌∷◌ c String.[] ∷ []
cons_tag c (s ∷ ss) = String.◌∷◌ c s ∷ ss

abbrev split_commas : String → List String
split_commas String.[] = String.[] ∷ []
split_commas (String.◌∷◌ c s) =
    let rest = split_commas s in if code c == 44 then String.[] ∷ rest else cons_tag c rest

unfoldable pub parse_tags : String → List String
parse_tags text = filter (λ tag. not (is_blank tag)) (map trim (split_commas text))

unfoldable pub parse_limit : String → String → Result CliError ℕ
parse_limit flag text = ok_or (parse_usize text) (invalid_number_flag flag text) >>= λ n.
    if n == 0 then err (invalid_number_flag flag text) else ok n

unfoldable pub parse_hops : String → Result CliError ℕ
parse_hops text =
    if text is "0"
    then ok 0
    else if text is "1"
    then ok 1
    else err (invalid_number_flag "--hops" text)

abbrev scope_of : String → Result CliError Scope
scope_of text =
    if text is "user"
    then ok user
    else if text is "project"
    then ok project
    else err (invalid_scope text)

abbrev mode_of : String → Result CliError Mode
mode_of text =
    if text is "mcp"
    then ok Mode.mcp
    else if text is "hooks"
    then ok Mode.hooks
    else if text is "all"
    then ok Mode.all
    else err (invalid_mode text)

abbrev seconds_of : String → Result CliError ℕ
seconds_of text = ok_or (parse_usize text) (invalid_number_flag "--max-seconds" text) >>= λ n.
    if ltb max_duration_secs n
    then err (duration_too_large "--max-seconds" n max_duration_secs)
    else ok n

abbrev pub fix_flag : Cli → Command → Result CliError Effect
fix_flag s (doctor fix) = ok (now (set_command s (doctor true)))
fix_flag s _ = err (unknown_flag "--fix")

abbrev pub to_flag : Cli → Command → Result CliError Effect
to_flag s (backup to) = wants "--to" s (λ text. ok (backup text))
to_flag s _ = err (unknown_flag "--to")

abbrev pub out_flag : Cli → Command → Result CliError Effect
out_flag s (setup out) = wants "--out" s (λ text. ok (setup text))
out_flag s _ = err (unknown_flag "--out")

abbrev pub agent_flag : Cli → Command → Result CliError Effect
agent_flag s (integrate a) =
    wants "--agent" s (λ text. ok (integrate (record a { agent = some text })))
agent_flag s (hook a) = wants "--agent" s (λ text. ok (hook (record a { agent = text })))
agent_flag s _ = err (unknown_flag "--agent")

abbrev pub scope_flag : Cli → Command → Result CliError Effect
scope_flag s (integrate a) =
    wants "--scope" s (λ text. (scope_of text >>= λ x. ok (integrate (record a { scope = x }))))
scope_flag s _ = err (unknown_flag "--scope")

abbrev pub mode_flag : Cli → Command → Result CliError Effect
mode_flag s (integrate a) =
    wants "--mode" s (λ text. (mode_of text >>= λ x. ok (integrate (record a { mode = x }))))
mode_flag s _ = err (unknown_flag "--mode")

abbrev pub dry_run_flag : Cli → Command → Result CliError Effect
dry_run_flag s (integrate a) = ok (now (set_command s (integrate (record a { dry_run = true }))))
dry_run_flag s _ = err (unknown_flag "--dry-run")

abbrev pub kind_flag : Cli → Command → Result CliError Effect
kind_flag s (remember a) = wants "--kind" s (λ text. ok (remember (record a { kind = text })))
kind_flag s _ = err (unknown_flag "--kind")

abbrev pub session_flag : Cli → Command → Result CliError Effect
session_flag s (remember a) =
    wants "--session" s (λ text. ok (remember (record a { session_id = text })))
session_flag s _ = err (unknown_flag "--session")

abbrev pub source_flag : Cli → Command → Result CliError Effect
source_flag s (remember a) = wants "--source" s (λ text. ok (remember (record a { source = text })))
source_flag s (import_ a) = wants "--source" s (λ text. ok (import_ (record a { source = text })))
source_flag s _ = err (unknown_flag "--source")

abbrev pub path_flag : Cli → Command → Result CliError Effect
path_flag s (import_ a) = wants "--path" s (λ text. ok (import_ (record a { path = text })))
path_flag s _ = err (unknown_flag "--path")

abbrev pub max_seconds_flag : Cli → Command → Result CliError Effect
max_seconds_flag s (dream a) =
    wants "--max-seconds" s
      (λ text. (seconds_of text >>= λ n. ok (dream (record a { max_seconds = some n }))))
max_seconds_flag s _ = err (unknown_flag "--max-seconds")

abbrev pub now_flag : Cli → Command → Result CliError Effect
now_flag s (dream a) = ok (now (set_command s (dream a)))
now_flag s _ = err (unknown_flag "--now")

abbrev pub list_flag : Cli → Command → Result CliError Effect
list_flag s (approve a) = ok (now (set_command s (approve (record a { list = true }))))
list_flag s _ = err (unknown_flag "--list")

abbrev pub id_flag : Cli → Command → Result CliError Effect
id_flag s (approve a) = wants "--id" s (λ text. ok (approve (record a { id = some text })))
id_flag s _ = err (unknown_flag "--id")

abbrev pub accept_flag : Cli → Command → Result CliError Effect
accept_flag s (approve a) = ok (now (set_command s (approve (record a { accept = true }))))
accept_flag s _ = err (unknown_flag "--accept")

abbrev pub reject_flag : Cli → Command → Result CliError Effect
reject_flag s (approve a) = ok (now (set_command s (approve (record a { reject = true }))))
reject_flag s _ = err (unknown_flag "--reject")

abbrev pub tags_flag : Cli → Command → Result CliError Effect
tags_flag s (remember a) =
    wants "--tags" s (λ text. ok (remember (record a { tags = parse_tags text })))
tags_flag s _ = err (unknown_flag "--tags")

abbrev pub k_flag : Cli → Command → Result CliError Effect
k_flag s (recall a) =
    wants "--k" s (λ text. (parse_limit "--k" text >>= λ n. ok (recall (record a { limit = n }))))
k_flag s _ = err (unknown_flag "--k")

abbrev pub semantic_flag : Cli → Command → Result CliError Effect
semantic_flag s (recall a) = ok (now (set_command s (recall (record a { semantic = true }))))
semantic_flag s _ = err (unknown_flag "--semantic")

abbrev pub hops_flag : Cli → Command → Result CliError Effect
hops_flag s (recall a) =
    wants "--hops" s (λ text. (parse_hops text >>= λ n. ok (recall (record a { hops = n }))))
hops_flag s _ = err (unknown_flag "--hops")

abbrev pub index_flag : Cli → Command → Result CliError Effect
index_flag s (recall a) =
    wants "--index" s (λ text. ok (recall (record a { index_kind = some text })))
index_flag s _ = err (unknown_flag "--index")

abbrev pub no_wait_flag : Cli → Command → Result CliError Effect
no_wait_flag s (remember a) = ok (now (set_command s (remember a)))
no_wait_flag s _ = err (unknown_flag "--no-wait")
