-- ===== src/Integrate/Agents.antt =====
-- What `integrate` plans: the plans of Codex and Hermes. How Rust prints a text for debugging (`{:?}`) is a parameter.

use memoryd.Prelude.{
  String, Bool, true, false, Option, none, some, List, [], ◌∷◌, ◌++◌, map, if◌then◌else◌,
}
use memoryd.Text.{join}
use memoryd.Integrate.{
  Mode, mcp, hooks, Action, Part, server_name, mcp_command, dream_command, hook_command,
  append_file_parts,
}

abbrev pub is_mcp : Mode → Bool
is_mcp mcp = true
is_mcp _ = false

abbrev is_hooks : Mode → Bool
is_hooks hooks = true
is_hooks _ = false

abbrev unless {ℓ} : {A : Type ℓ} → Bool → List A → List A
unless b xs = if b then [] else xs

abbrev first_of : List String → String
first_of [] = ""
first_of (s ∷ ss) = s

abbrev args_of : List String → List String
args_of [] = []
args_of (s ∷ ss) = ss

-- `format!` of several texts.
abbrev pub format : List String → String
format texts = join "" texts

module _ (debug : String → String) where
  abbrev arg_list : List String → String
  arg_list cmd = join ", " (map debug (args_of cmd))

  abbrev codex_hook : String → Option String → String × String → Part
  codex_hook bin db (event, verb) = record {
    present_marker = format (" hook " ∷ verb ∷ " " ∷ []);
    conflict_marker = none;
    stanza = format (
        "[[hooks."
        ∷ event
        ∷ "]]\n\n[[hooks."
        ∷ event
        ∷ ".hooks]]\ntype = \"command\"\ncommand = "
        ∷ debug (hook_command bin verb "codex" db)
        ∷ "\ntimeout = 60\n"
        ∷ []);
    what = "capture/context hooks (TOML)";
  }

  unfoldable pub codex_parts : String → Option String → Mode → List Part
  unfolding mcp_command dream_command hook_command join
  codex_parts bin db mode =
      let cmd = mcp_command bin db in
      let server : Part = record {
        present_marker = format ("[mcp_servers." ∷ server_name ∷ "]" ∷ []);
        conflict_marker = none;
        stanza = format (
            "[mcp_servers."
            ∷ server_name
            ∷ "]\ncommand = "
            ∷ debug (first_of cmd)
            ∷ "\nargs = ["
            ∷ arg_list cmd
            ∷ "]\n"
            ∷ []);
        what = "MCP server (TOML)";
      } in
      let stop : Part = record {
        present_marker = " dream\"";
        conflict_marker = none;
        stanza = format (
            "[[hooks.Stop]]\n\n[[hooks.Stop.hooks]]\ntype = \"command\"\ncommand = "
            ∷ debug (dream_command bin db)
            ∷ "\ntimeout = 60\n"
            ∷ []);
        what = "Stop dream hook (TOML)";
      } in
      unless (is_hooks mode) (server ∷ [])
      ++ (stop
          ∷ unless (is_mcp mode) (
              map (codex_hook bin db) (
                ("SessionStart", "session-start")
                ∷ ("UserPromptSubmit", "prompt")
                ∷ ("PostToolUse", "tool")
                ∷ [])))

  -- The file is ~/.codex/config.toml.
  unfoldable pub plan_codex : String → Option String → Mode → Option String → List Action
  unfolding codex_parts
  plan_codex bin db mode file = append_file_parts file (codex_parts bin db mode)

  unfoldable pub hermes_parts : String → Option String → Mode → List Part
  unfolding mcp_command dream_command hook_command join
  hermes_parts bin db mode =
      let cmd = mcp_command bin db in
      let server : Part = record {
        present_marker = format ("  " ∷ server_name ∷ ":" ∷ []);
        conflict_marker = some "mcp_servers:";
        stanza = format (
            "mcp_servers:\n  "
            ∷ server_name
            ∷ ":\n    command: "
            ∷ debug (first_of cmd)
            ∷ "\n    args: ["
            ∷ arg_list cmd
            ∷ "]\n"
            ∷ []);
        what = "MCP server (YAML)";
      } in
      let capture = unless (is_mcp mode) (
        "  post_tool_call:\n    - command: "
        ∷ debug (hook_command bin "tool" "hermes" db)
        ∷ "\n      timeout: 60\n"
        ∷ []) in
      let session : Part = record {
        present_marker = " dream\"";
        conflict_marker = some "hooks:";
        stanza = format (
            "hooks:\n  on_session_end:\n    - command: "
            ∷ debug (dream_command bin db)
            ∷ "\n      timeout: 60\n"
            ∷ capture);
        what = "session hooks (YAML)";
      } in
      unless (is_hooks mode) (server ∷ []) ++ (session ∷ [])

  -- The file is ~/.hermes/config.yaml.
  unfoldable pub plan_hermes : String → Option String → Mode → Option String → List Action
  unfolding hermes_parts
  plan_hermes bin db mode file = append_file_parts file (hermes_parts bin db mode)
