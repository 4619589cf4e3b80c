-- ===== src/Cli/Parse.antt =====
-- `Cli::parse`: the loop over the arguments.
use Prim.Native.Char.{Char, code}
use memoryd.Prelude.{
  String, Bool, ◌||◌, none, some, List, [], ◌∷◌, ◌==◌, ◌is◌, if◌then◌else◌, Result, ok, err, ◌>>=◌,
  ok_or,
}
use memoryd.Text.{begins, codes}
use memoryd.Http.Reader.{parse_usize}
use memoryd.Cli.{
  CliError, unknown_flag, unexpected_argument, missing_argument, missing_flag_value,
  invalid_utf8_argument, invalid_number_flag, invalid_bind, token_file_unreadable,
}
use memoryd.Cli.Arguments.{
  Command, help, integrate, hook, remember, recall, dream, Cli, Argument, Outside, command_of,
}
use memoryd.Cli.Flags.{
  Effect, now, value, asks_help, set_command, text_value, wants, parse_tags, parse_limit,
  parse_hops, fix_flag, to_flag, out_flag, agent_flag, scope_flag, mode_flag, dry_run_flag,
  kind_flag, session_flag, source_flag, path_flag, max_seconds_flag, now_flag, list_flag, id_flag,
  accept_flag, reject_flag, tags_flag, k_flag, semantic_flag, hops_flag, index_flag, no_wait_flag,
}

module _ (O : Outside) where
  abbrev budget_usd_flag : Cli → Command → Result CliError Effect
  budget_usd_flag s (dream a) = wants "--budget-usd" s (λ text.
      ok_or (O.parse_f64 text) (invalid_number_flag "--budget-usd" text) >>= λ x.
      ok (dream (record a { budget_usd = some x })))
  budget_usd_flag s _ = err (unknown_flag "--budget-usd")

  -- A path need not be UTF-8; the model keeps its lossy text.
  abbrev bin_flag : Cli → Command → Result CliError Effect
  bin_flag s (integrate a) =
      ok (value "--bin" (λ v. ok (set_command s (integrate (record a { bin = some v.lossy })))))
  bin_flag s _ = err (unknown_flag "--bin")

  abbrev db_command : String → Command → Command
  db_command path (integrate a) = integrate (record a { db = some path })
  db_command path c = c

  abbrev db_flag : Cli → Result CliError Effect
  db_flag s = ok (
      value "--db"
        (λ v. ok (record s { command = db_command v.lossy s.command; db_path = v.lossy })))

  abbrev bind_flag : Cli → Result CliError Effect
  bind_flag s = ok (
      value "--bind" (λ v. text_value "--bind" v >>= λ text.
      ok_or (O.parse_bind text) (invalid_bind text) >>= λ addr. ok (record s { bind = addr })))

  -- `trim_end_matches` of line ends.
  abbrev keep_char : Char → String → String
  keep_char c String.[] =
      if (code c == 10) || (code c == 13) then String.[] else String.◌∷◌ c String.[]
  keep_char c (String.◌∷◌ d s) = String.◌∷◌ c (String.◌∷◌ d s)

  abbrev trim_ends : String → String
  trim_ends String.[] = String.[]
  trim_ends (String.◌∷◌ c s) = keep_char c (trim_ends s)

  abbrev token_file_flag : Cli → Result CliError Effect
  token_file_flag s = ok (
      value "--token-file" (λ v. text_value "--token-file" v >>= λ path.
      ok_or (O.read_file path) (token_file_unreadable path) >>= λ contents.
      ok (record s { bearer_token = some (trim_ends contents) })))

  abbrev token_flag : Cli → Result CliError Effect
  token_flag s = ok (
      value "--token"
        (λ v. text_value "--token" v >>= λ text. ok (record s { bearer_token = some text })))

  abbrev adapter_flag : Cli → Result CliError Effect
  adapter_flag s = ok (
      value "--adapter"
        (λ v. text_value "--adapter" v >>= λ text. ok (record s { adapter = some text })))

  abbrev is_flag : String → Bool
  is_flag token = begins (codes "--") (codes token)

  abbrev fill : Cli → String → String → (String → Command) → Result CliError Effect
  fill s old text f =
      if old is "" then ok (now (set_command s (f text))) else err (unexpected_argument text)

  abbrev positional : Cli → Command → Argument → Result CliError Effect
  positional s (remember a) v = ok_or v.utf8 (invalid_utf8_argument "argument") >>= λ text.
      fill s a.content text (λ t. remember (record a { content = t }))
  positional s (recall a) v = ok_or v.utf8 (invalid_utf8_argument "argument") >>= λ text.
      fill s a.query text (λ t. recall (record a { query = t }))
  positional s (hook a) v = ok_or v.utf8 (invalid_utf8_argument "argument") >>= λ text.
      fill s a.verb text (λ t. hook (record a { verb = t }))
  positional s _ v = err (unexpected_argument v.lossy)

  -- What an argument does, after the command.
  unfoldable pub effect : Argument → Cli → Result CliError Effect
  unfolding text_value parse_tags parse_limit parse_hops parse_usize begins
  effect v s =
      let token = v.lossy in
      if token is "--db"
      then db_flag s
      else if token is "--bind"
      then bind_flag s
      else if token is "--token"
      then token_flag s
      else if token is "--adapter"
      then adapter_flag s
      else if token is "--token-file"
      then token_file_flag s
      else if token is "--bin"
      then bin_flag s s.command
      else if token is "--budget-usd"
      then budget_usd_flag s s.command
      else if token is "--fix"
      then fix_flag s s.command
      else if token is "--to"
      then to_flag s s.command
      else if token is "--out"
      then out_flag s s.command
      else if token is "--agent"
      then agent_flag s s.command
      else if token is "--scope"
      then scope_flag s s.command
      else if token is "--mode"
      then mode_flag s s.command
      else if token is "--dry-run"
      then dry_run_flag s s.command
      else if token is "--kind"
      then kind_flag s s.command
      else if token is "--session"
      then session_flag s s.command
      else if token is "--source"
      then source_flag s s.command
      else if token is "--path"
      then path_flag s s.command
      else if token is "--max-seconds"
      then max_seconds_flag s s.command
      else if token is "--now"
      then now_flag s s.command
      else if token is "--list"
      then list_flag s s.command
      else if token is "--id"
      then id_flag s s.command
      else if token is "--accept"
      then accept_flag s s.command
      else if token is "--reject"
      then reject_flag s s.command
      else if token is "--tags"
      then tags_flag s s.command
      else if token is "--k"
      then k_flag s s.command
      else if token is "--semantic"
      then semantic_flag s s.command
      else if token is "--hops"
      then hops_flag s s.command
      else if token is "--index"
      then index_flag s s.command
      else if token is "--no-wait"
      then no_wait_flag s s.command
      else if (token is "--help") || (token is "-h")
      then ok asks_help
      else if is_flag token
      then err (unknown_flag token)
      else positional s s.command v

  abbrev finished : Cli → Command → Result CliError Cli
  finished s (remember a) = if a.content is "" then err (missing_argument "content") else ok s
  finished s (recall a) = if a.query is "" then err (missing_argument "query") else ok s
  finished s (hook a) =
      if a.verb is "" then err (missing_argument "hook verb (tool|prompt|session-start)") else ok s
  finished s _ = ok s

  -- The arguments after the command. The last one can want a value that is missing.
  unfoldable pub parse_arguments : List Argument → Cli → Result CliError Cli
  unfolding effect
  parse_arguments [] s = finished s s.command
  parse_arguments (v ∷ []) s = effect v s >>= λ e. elim e [
    | now u ↦ finished u u.command
    | value flag f ↦ err (missing_flag_value flag)
    | asks_help ↦ ok (set_command s help)
  ]
  parse_arguments (v ∷ w ∷ rest) s =
      let one = parse_arguments (w ∷ rest) in
      let two = parse_arguments rest in
      effect v s >>= λ e. elim e [
        | now u ↦ one u
        | value flag f ↦ f w >>= two
        | asks_help ↦ ok (set_command s help)
      ]

  abbrev parse_command : List Argument → Result CliError (Command × List Argument)
  parse_command [] = ok (help, [])
  parse_command (v ∷ rest) = command_of v.lossy >>= λ c. ok (c, rest)

  -- The arguments after the name of the program.
  unfoldable pub parse : String → List Argument → Result CliError Cli
  unfolding command_of parse_arguments
  parse default_bind arguments = parse_command arguments >>= λ (command, rest).
      parse_arguments rest (record {
        command = command;
        db_path = O.default_db_path;
        bind = default_bind;
        bearer_token = O.token;
        adapter = none;
      })
