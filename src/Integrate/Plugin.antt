-- ===== src/Integrate/Plugin.antt =====
-- OpenCode's plugin: its text, and what becomes of a file that is there.
use Prim.Native.Char.{code}
use memoryd.Prelude.{String, true, false, Option, none, some, [], ◌∷◌, ◌is◌, if◌then◌else◌}
use memoryd.Text.{joined, join, one_of}
use memoryd.Integrate.{Mode, Action, write}
use memoryd.Integrate.Agents.{is_mcp, format}

unfoldable pub shell_escape_db : String → String
unfolding one_of
shell_escape_db String.[] = String.[]
shell_escape_db (String.◌∷◌ c s) =
    let rest = String.◌∷◌ c (shell_escape_db s) in
    if one_of "\\\"$`" (code c) then joined "\\" rest else rest

abbrev opencode_capture_handlers : String
opencode_capture_handlers = join "\n" (
    "    \"chat.message\": async (input, output) => {"
    ∷ "      const sessionId = input?.sessionID ?? \"\""
    ∷ "      const text = (output?.parts ?? [])"
    ∷ "        .filter((p) => p.type === \"text\" && !p.synthetic && !p.ignored)"
    ∷ "        .map((p) => p.text)" ∷ "        .join(\"\\n\")" ∷ "      if (!text.trim()) return"
    ∷ "      await capture(\"prompt\", {" ∷ "        session_id: sessionId,"
    ∷ "        hook_event_name: \"UserPromptSubmit\"," ∷ "        prompt: text," ∷ "      })"
    ∷ "    }," ∷ "    \"tool.execute.after\": async (input, output) => {"
    ∷ "      await capture(\"tool\", {" ∷ "        session_id: input?.sessionID ?? \"\","
    ∷ "        hook_event_name: \"PostToolUse\"," ∷ "        tool_name: input?.tool ?? \"tool\","
    ∷ "        tool_input: input?.args ?? {}," ∷ "        tool_output: output?.output ?? null,"
    ∷ "      })" ∷ "    }," ∷ "" ∷ [])

abbrev capture_helper : String → String → String
capture_helper bin db_arg = join "\n" (
    "  const capture = async (verb, payload) => {"
    ∷ "    try {"
    ∷ format (
        "      await $`\"" ∷ bin ∷ "\" hook ${verb} --agent opencode" ∷ db_arg
        ∷ " < ${new Response(JSON.stringify(payload))}`.quiet().nothrow()" ∷ [])
    ∷ "    } catch (_) {}"
    ∷ "  }"
    ∷ ""
    ∷ [])

unfoldable pub render_opencode_plugin : String → String → Mode → String
unfolding join
render_opencode_plugin bin db_arg mode = join "\n" (
    "// Installed by `memoryd integrate`. Captures this machine's OpenCode"
    ∷ "// prompts and tool calls into memoryd (direct-to-SQLite, no daemon), and runs"
    ∷ "// a dream pass (distill, associate, decay) when a session goes idle. Every"
    ∷ "// memoryd call is wrapped so a failure can never break your OpenCode session."
    ∷ "// Auto-managed: re-running `memoryd integrate` regenerates this file when it is"
    ∷ "// unmodified; your edits are preserved (copy to another name to customize)."
    ∷ "export const MemorydPlugin = async ({ $ }) => {"
    ∷ format ((if is_mcp mode then "" else capture_helper bin db_arg) ∷ "  return {" ∷ [])
    ∷ "    event: async ({ event }) => {"
    ∷ "      if (event.type === \"session.idle\") {"
    ∷ "        try {"
    ∷ format ("          await $`\"" ∷ bin ∷ "\" dream" ∷ db_arg ∷ "`.quiet().nothrow()" ∷ [])
    ∷ "        } catch (_) {}"
    ∷ "      }"
    ∷ "    },"
    ∷ format ((if is_mcp mode then "" else opencode_capture_handlers) ∷ "  }" ∷ [])
    ∷ "}"
    ∷ ""
    ∷ [])

unfoldable pub legacy_opencode_dream_plugin : String → String → String
unfolding join
legacy_opencode_dream_plugin bin db_arg = join "\n" (
    "// Installed by `memoryd integrate`. Consolidates this machine's memoryd"
    ∷ "// captures (dream pass: distill, associate, decay) whenever a session goes"
    ∷ "// idle. The pass is incremental and bounded, so repeat fires are cheap."
    ∷ "// Safe to edit or delete; re-running `memoryd integrate` will not overwrite."
    ∷ "export const MemorydPlugin = async ({ $ }) => {"
    ∷ "  return {"
    ∷ "    event: async ({ event }) => {"
    ∷ "      if (event.type === \"session.idle\") {"
    ∷ "        try {"
    ∷ format ("          await $`\"" ∷ bin ∷ "\" dream" ∷ db_arg ∷ "`" ∷ [])
    ∷ "        } catch (_) {}"
    ∷ "      }"
    ∷ "    },"
    ∷ "  }"
    ∷ "}"
    ∷ ""
    ∷ [])

-- The plugin file, or what becomes of one that is there.
abbrev existing_plugin : Option String → String → String → Action
existing_plugin none target legacy = write target "memoryd opencode plugin" false
existing_plugin (some existing) target legacy =
    if existing is target
    then write existing "memoryd opencode plugin" true
    else if existing is legacy
    then write target "memoryd opencode plugin" false
    else write existing "opencode plugin (left as-is; not memoryd-managed)" true

abbrev db_arg_of : Option String → String
db_arg_of none = ""
db_arg_of (some db) = format (" --db \"" ∷ shell_escape_db db ∷ "\"" ∷ [])

unfoldable pub opencode_plugin : String → Option String → Mode → Option String → Action
unfolding shell_escape_db render_opencode_plugin legacy_opencode_dream_plugin
opencode_plugin bin db mode file =
    existing_plugin file (render_opencode_plugin bin (db_arg_of db) mode)
      (legacy_opencode_dream_plugin bin (db_arg_of db))
