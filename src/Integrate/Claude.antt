-- ===== src/Integrate/Claude.antt =====
-- Merging into the JSON settings of Claude Code and OpenCode: `merge_json_mcp`,
-- `merge_claude_hooks` and `read_json_object`. An object is a list of fields; a new one goes to
-- the end, since the order of the keys is no part of the model.
use memoryd.Prelude.{
  String, Bool, true, false, ◌&&◌, ◌||◌, Option, none, some, List, [], ◌∷◌, ◌is◌, if◌then◌else◌,
  Result, ok, ◌>>=◌, ok_or,
}
use memoryd.Text.{joined, contains, begins, codes, is_blank}
use memoryd.Json.{
  Codec, Value, Items, Fields, nil, cons, end, field, string, array, object, number, pos_int, get,
  get_field, as_str,
}
use memoryd.Import.{and_then}
use memoryd.Cli.{CliError, integrate_unparseable, integrate_conflict}
use memoryd.Integrate.{server_name}

abbrev fields_of : Value → Option Fields
fields_of (object fs) = some fs
fields_of _ = none

-- The object of a file that is not there, or blank, has no fields.
unfoldable pub read_json_object : Codec → Option String → Result CliError Fields
read_json_object C none = ok end
read_json_object C (some text) =
    if is_blank text
    then ok end
    else ok_or (and_then (C.parse text) fields_of) integrate_unparseable

-- `Map::insert`
unfoldable pub put_field : String → Value → Fields → Fields
put_field k v end = field k v end
put_field k v (field j w fs) = if j is k then field j v fs else field j w (put_field k v fs)

abbrev pub object_of : Option Value → Option Fields
object_of none = some end
object_of (some (object fs)) = some fs
object_of (some _) = none

abbrev pub array_or_empty : Option Value → Option Items
array_or_empty none = some nil
array_or_empty (some (array items)) = some items
array_or_empty (some _) = none

-- The object with the server under a key, and the server that was there.
unfoldable pub put_server : String → Value → Fields → Result CliError (Option Value × Fields)
unfolding put_field
put_server key server root =
    ok_or (object_of (get_field key root)) (integrate_conflict "MCP key is not an object")
    >>= λ servers. ok (
      get_field server_name servers,
      put_field key (object (put_field server_name server servers)) root,
    )

-- `ends_with` and `find`
unfoldable pub ends_in : String → String → Bool
ends_in String.[] t = String.[] is t
ends_in (String.◌∷◌ c s) t = (String.◌∷◌ c s is t) || ends_in s t

unfoldable pub from_marker : String → String → Option String
from_marker marker String.[] = none
from_marker marker (String.◌∷◌ c s) =
    let later = from_marker marker s in
    if begins (codes marker) (codes (String.◌∷◌ c s)) then some (String.◌∷◌ c s) else later

unfoldable pub memoryd_command_tail : String → String
unfolding from_marker
memoryd_command_tail command = elim (from_marker " dream" command) [
  | some tail ↦ tail
  | none ↦ elim (from_marker " hook " command) [ some tail ↦ tail | none ↦ command ]
]

-- Whether a command is the given one, or one of memoryd with the same tail.
abbrev pub is_command : String → Option String → Bool
is_command command none = false
is_command command (some c) =
    (c is command) || (contains c "memoryd" && ends_in c (memoryd_command_tail command))

abbrev pub any_item : (Value → Bool) → Items → Bool
any_item p nil = false
any_item p (cons v items) = p v || any_item p items

abbrev items_of : Option Value → Items
items_of (some (array items)) = items
items_of _ = nil

unfoldable pub group_has : String → Value → Bool
unfolding memoryd_command_tail ends_in
group_has command group =
    any_item (λ h. is_command command (and_then (get "command" h) as_str))
      (items_of (get "hooks" group))

abbrev pub push_item : Items → Value → Items
push_item nil v = cons v nil
push_item (cons w items) v = cons w (push_item items v)

unfoldable pub new_group : String → Value
new_group command = object (
    field "matcher" (string "") (
      field "hooks"
        (array (
          cons
            (object (
              field "type" (string "command")
                (field "command" (string command) (field "timeout" (number (pos_int 60)) end))))
            nil))
        end))

-- The array of an event with the command in it.
unfoldable pub with_command : String → Items → Items
unfolding group_has new_group
with_command command groups =
    if any_item (group_has command) groups then groups else push_item groups (new_group command)

-- Whether all commands were there, and the events with the commands.
unfoldable pub merge_entries : List (String × String) → Fields → Result CliError (Bool × Fields)
unfolding with_command put_field
merge_entries [] events = ok (true, events)
merge_entries ((event, command) ∷ entries) events =
    ok_or (array_or_empty (get_field event events))
      (integrate_conflict "a hooks event entry is not an array")
    >>= λ groups.
        merge_entries entries (put_field event (array (with_command command groups)) events)
        >>= λ r. ok (any_item (group_has command) groups && r.0, r.1)

-- The same in the settings of a file.
unfoldable pub merge_hooks : List (String × String) → Fields → Result CliError (Bool × Fields)
unfolding merge_entries
merge_hooks entries root =
    ok_or (object_of (get_field "hooks" root)) (integrate_conflict "hooks is not an object")
    >>= λ events.
        merge_entries entries events >>= λ r. ok (r.0, put_field "hooks" (object r.1) root)

-- The text of the settings file, and whether all was there. The pretty printer of serde_json is a
-- parameter.
unfoldable pub merge_claude_hooks :
    Codec
    → (Value → String)
    → Option String
    → List (String × String)
    → Result CliError (String × Bool)
unfolding read_json_object merge_hooks
merge_claude_hooks C pretty file entries = read_json_object C file >>= λ root.
    merge_hooks entries root >>= λ r. ok (joined (pretty (object r.1)) "\n", r.0)
