-- ===== src/Tests/Cli.antt =====
-- Runs of the command line.
use memoryd.Prelude.{String, none, some, List, [], ◌∷◌, map, ◌≡◌, refl, Result, ok, err}
use memoryd.Cli.{CliError, unknown_flag, missing_flag_value, missing_argument}
use memoryd.Cli.Arguments.{Argument, Outside, Cli, remember, command_of}
use memoryd.Cli.Flags.{text_value, parse_tags}
use memoryd.Cli.Parse.{parse, parse_arguments, effect}

abbrev outside : Outside
outside = record {
  default_db_path = "m.db";
  token = none;
  parse_bind = λ s. some s;
  parse_f64 = λ s. none;
  read_file = λ s. none;
}

abbrev plain : String → Argument
plain s = record { lossy = s; utf8 = some s }

unfoldable run : List String → Result CliError Cli
unfolding parse parse_arguments effect command_of text_value parse_tags
run arguments = parse outside "127.0.0.1:7777" (map plain arguments)

run_remember :
    run ("remember" ∷ "hi" ∷ "--kind" ∷ "fact" ∷ [])
    ≡ ok (record {
      command = remember (record {
        content = "hi";
        kind = "fact";
        session_id = "cli";
        source = "cli";
        tags = [];
        agent = "cli";
      });
      db_path = "m.db";
      bind = "127.0.0.1:7777";
      bearer_token = none;
      adapter = none;
    })
unfolding run
run_remember = refl

run_without_content : run ("remember" ∷ []) ≡ err (missing_argument "content")
unfolding run
run_without_content = refl

run_without_value : run ("serve" ∷ "--db" ∷ []) ≡ err (missing_flag_value "--db")
unfolding run
run_without_value = refl

run_with_stray_flag : run ("stats" ∷ "--fix" ∷ []) ≡ err (unknown_flag "--fix")
unfolding run
run_with_stray_flag = refl
