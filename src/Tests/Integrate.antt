-- ===== src/Tests/Integrate.antt =====
-- Runs of the integrations.
use memoryd.Prelude.{String, Bool, true, false, Option, none, some, List, [], ◌∷◌, ◌≡◌, refl, ok}
use memoryd.Text.{joined, lines, contains, join}
use memoryd.Json.{Fields, end, field, object, array, nil, cons, get, get_field}
use memoryd.Integrate.{
  mcp, append_file_parts, append_loop, append_stanza, marker_present, is_conflicted,
  has_top_level_key, mcp_command, dream_command, hook_command,
}
use memoryd.Integrate.Again.{first_write, append_file_parts-again}
use memoryd.Integrate.Agents.{codex_parts, plan_codex}
use memoryd.Integrate.Claude.{
  merge_hooks, merge_entries, with_command, put_field, group_has, new_group, ends_in,
  memoryd_command_tail, from_marker,
}
use memoryd.Integrate.Hooks.{merge_hooks-again}

abbrev quoted : String → String
quoted s = joined "\"" (joined s "\"")

-- The text that a first plan for Codex writes, and whether the second finds all of it.
abbrev text_of : Option (String × Bool) → String
text_of none = ""
text_of (some (text, already)) = text

abbrev already_of : Option (String × Bool) → Bool
already_of none = false
already_of (some (text, already)) = already

unfoldable codex : Option String → Option String → Option (String × Bool)
unfolding plan_codex codex_parts append_file_parts append_loop append_stanza marker_present
    is_conflicted has_top_level_key mcp_command dream_command hook_command lines contains join
codex db file = first_write (plan_codex quoted "/bin/memoryd" db mcp file)

-- Without a database path the second run finds the hook of the first.
codex_once : already_of (codex none (some (text_of (codex none none)))) ≡ true
unfolding codex
codex_once = refl

-- With one it does not, and appends the hook again.
codex_twice : already_of (codex (some "/d") (some (text_of (codex (some "/d") none)))) ≡ false
unfolding codex
codex_twice = refl

append_file_parts-again_example :
    first_write (
      append_file_parts
        (some (text_of (codex none none)))
        (codex_parts quoted "/bin/memoryd" none mcp))
    ≡ some (text_of (codex none none), true)
unfolding codex
append_file_parts-again_example =
    append_file_parts-again none (codex_parts quoted "/bin/memoryd" none mcp)
      (text_of (codex none none)) false refl ((refl, refl), ((refl, refl), tt)) refl

abbrev entries : List (String × String)
entries = ("SessionEnd", "/bin/memoryd dream") ∷ []

-- Settings with a hook of another program.
abbrev settings : Fields
settings =
    field "hooks" (object (field "SessionEnd" (array nil) (field "Stop" (array nil) end))) end

abbrev merged : Fields
merged =
    field "hooks"
      (object (
        field "SessionEnd" (array (cons (new_group "/bin/memoryd dream") nil))
          (field "Stop" (array nil) end)))
      end

first_merge : merge_hooks entries settings ≡ ok (false, merged)
unfolding merge_hooks merge_entries with_command put_field group_has new_group ends_in
    memoryd_command_tail from_marker contains get get_field
first_merge = refl

merge_hooks-again_example : merge_hooks entries merged ≡ ok (true, merged)
merge_hooks-again_example = merge_hooks-again entries settings merged false first_merge
