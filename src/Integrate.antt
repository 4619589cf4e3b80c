-- ===== src/Integrate.antt =====
-- `memoryd integrate`, crates/memoryd/src/integrate.rs: the commands it registers and the blocks it
-- appends to the text files of other programs. A file is its text, or `none` if there is none.
pub mod Append
pub mod Again
pub mod Agents
pub mod Plugin
pub mod Claude
pub mod Hooks
use Prim.Native.Char.{Char, code}
use memoryd.Prelude.{
  ℕ, String, Bool, true, false, not, ◌&&◌, ◌||◌, Option, none, some, List, [], ◌∷◌, ◌++◌, map, any,
  ◌==◌, if◌then◌else◌,
}
use memoryd.Text.{joined, join, lines, contains, begins, codes}

abbrev pub server_name : String
server_name = "memoryd"

pub data Mode : Type 0 where
  mcp hooks all : Mode

-- A change of a file, or an instruction to the user.
pub data Action : Type 0 where
  write : String → String → Bool → Action
  manual : String → String → Action

-- `--db` and the path, if there is one.
unfoldable pub mcp_command : String → Option String → List String
mcp_command bin none = bin ∷ "mcp" ∷ []
mcp_command bin (some db) = bin ∷ "mcp" ∷ "--db" ∷ db ∷ []

unfoldable pub dream_command : String → Option String → String
dream_command bin none = joined bin " dream"
dream_command bin (some db) = joined bin (joined " dream --db " db)

unfoldable pub hook_command : String → String → String → Option String → String
hook_command bin verb agent none =
    joined bin (joined " hook " (joined verb (joined " --agent " agent)))
hook_command bin verb agent (some db) =
    joined bin
      (joined " hook " (joined verb (joined " --agent " (joined agent (joined " --db " db)))))

-- One block for a text file.
pub record Part : Type 0 where
  pub present_marker : String
  pub conflict_marker : Option String
  pub stanza : String
  pub what : String

unfoldable pub marker_present : String → String → Bool
marker_present text marker =
    any (λ line. contains line marker && contains line "memoryd") (lines text)

-- `starts_with`
abbrev starts_with : String → String → Bool
starts_with line prefix = begins (codes prefix) (codes line)

unfoldable pub has_top_level_key : String → String → Bool
has_top_level_key text key =
    any (λ line. starts_with line key && not (starts_with line " ") && not (starts_with line "\t"))
      (lines text)

unfoldable pub is_conflicted : String → Option String → Bool
unfolding has_top_level_key
is_conflicted text none = false
is_conflicted text (some key) = has_top_level_key text key

-- `ends_with('\n')`
abbrev pub ends_in_feed : String → Bool
ends_in_feed String.[] = false
ends_in_feed (String.◌∷◌ c String.[]) = code c == 10
ends_in_feed (String.◌∷◌ c (String.◌∷◌ d s)) = ends_in_feed (String.◌∷◌ d s)

abbrev pub is_empty : String → Bool
is_empty String.[] = true
is_empty (String.◌∷◌ c s) = false

abbrev end_line : String → String
end_line text = if not (is_empty text) && not (ends_in_feed text) then joined text "\n" else text

-- The text with a block behind it.
unfoldable pub append_stanza : String → String → String
append_stanza text stanza =
    let ended = end_line text in
    if is_empty ended then joined ended stanza else joined ended (joined "\n" stanza)

abbrev pub with_manual : Part → String × Bool × List Action → String × Bool × List Action
with_manual p (text, appended, actions) = (text, appended, manual p.what p.stanza ∷ actions)

-- The text after the parts, whether any was appended, and the instructions.
unfoldable pub append_loop : List Part → String → Bool → String × Bool × List Action
unfolding marker_present is_conflicted append_stanza
append_loop [] text appended = (text, appended, [])
append_loop (p ∷ parts) text appended =
    let present = append_loop parts text appended in
    let added = append_loop parts (append_stanza text p.stanza) true in
    if marker_present text p.present_marker
    then present
    else if is_conflicted text p.conflict_marker
    then with_manual p present
    else added

abbrev pub file_text : Option String → String
file_text none = ""
file_text (some text) = text

unfoldable pub append_file_parts : Option String → List Part → List Action
unfolding append_loop
append_file_parts file parts =
    let (text, appended, actions) = append_loop parts (file_text file) false in
    write text "memoryd config blocks" (not appended) ∷ actions
