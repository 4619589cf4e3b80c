-- ===== src/Import.antt =====
-- `crates/memoryd-core/src/import.rs`: the units of an import, the reader of generic JSONL, the
-- truncation of a text and the hash of a unit's content.
pub mod Iso8601
pub mod Transcripts
pub mod Opencode
pub mod Databases
use Prim.Native.Nat.{bit_xor}
use Prim.Native.Char.{Char}
use memoryd.Prelude.{
  ℕ, zero, suc, ◌+◌, ◌*◌, ◌/◌, ◌%◌, String, Bool, Option, none, some, List, [], ◌∷◌, ◌++◌,
  if◌then◌else◌, get_elem?, Result, ok, err, ◌>>=◌, decimal,
}
use memoryd.Prelude.Int.{ℤ}
use memoryd.Text.{
  is_blank, trim, lines, joined, join, split_whitespace, char_indices, slice_to, as_bytes,
}
use memoryd.Json.{Codec, Value, Fields, object, get_field, as_str, as_i64}
use memoryd.Redact.Spans.{Fault, panicked}

pub record ImportUnit : Type 0 where
  pub text : String
  pub session_id : String
  pub agent : String
  pub source : String
  pub ts_ms : Option ℤ

pub data ImportError : Type 0 where
  malformed : ℕ → String → ImportError
  missing_text : ℕ → ImportError
  db : String → ImportError
  unsupported_schema : String → String → ImportError

-- `impl Display for ImportError`
unfoldable pub show_import_error : ImportError → String
show_import_error (malformed line msg) = joined "line " (joined (decimal line) (joined ": " msg))
show_import_error (missing_text line) =
    joined "line " (joined (decimal line) ": missing required non-empty string field \"text\"")
show_import_error (db msg) = joined "source database error: " msg
show_import_error (unsupported_schema agent detail) =
    joined "unsupported " (joined agent (joined " database schema: " detail))

abbrev pub import_text_cap : ℕ
import_text_cap = 4000

abbrev pub cut_at : String → Option (ℕ × Char) → Result Fault String
cut_at text none = ok text
cut_at text (some (index, c)) = elim (slice_to text index) [
  | none ↦ err panicked
  | some head ↦ ok (joined head "…")
]

unfoldable pub truncate_chars : String → ℕ → Result Fault String
truncate_chars text max_chars = cut_at text (get_elem? (char_indices text) max_chars)

abbrev default_field : String
default_field = "import"

-- A text, unless it is blank.
abbrev pub if_filled : String → Option String
if_filled s = if is_blank s then none else some s

-- `Option::and_then`
abbrev pub and_then {ℓ κ} : {A : Type ℓ} {B : Type κ} → Option A → (A → Option B) → Option B
and_then none f = none
and_then (some a) f = f a

abbrev pub unwrap_or {ℓ} : {A : Type ℓ} → Option A → A → A
unwrap_or none a = a
unwrap_or (some b) a = b

-- `Option::or_else`
abbrev pub or_else {ℓ} : {A : Type ℓ} → Option A → Option A → Option A
or_else none o = o
or_else (some a) o = some a

unfoldable pub string_field : String → Fields → String
string_field key obj =
    unwrap_or (and_then (and_then (get_field key obj) as_str) if_filled) default_field

abbrev unit_of : ℕ → Fields → Option String → Result ImportError ImportUnit
unit_of line obj none = err (missing_text line)
unit_of line obj (some text) = ok (record {
  text = text;
  session_id = string_field "session_id" obj;
  agent = string_field "agent" obj;
  source = string_field "source" obj;
  ts_ms = and_then (or_else (get_field "ts_ms" obj) (get_field "ts" obj)) as_i64;
})

-- The text of the error that serde_json has for a text is a parameter.
module _ (C : Codec) (reason : String → String) where
  abbrev parse_value : ℕ → String → Option Value → Result ImportError ImportUnit
  parse_value line s none = err (malformed line (reason s))
  parse_value line s (some (object obj)) =
      unit_of line obj (and_then (and_then (get_field "text" obj) as_str) if_filled)
  parse_value line s (some _) = err (malformed line "expected a JSON object")

  -- The lines from the given number on; a blank one is skipped.
  unfoldable pub parse_lines : ℕ → List String → Result ImportError (List ImportUnit)
  unfolding string_field
  parse_lines line [] = ok []
  parse_lines line (raw ∷ rest) =
      let later = parse_lines (suc line) rest in
      if is_blank raw
      then later
      else parse_value line (trim raw) (C.parse (trim raw)) >>= λ u. later >>= λ us. ok (u ∷ us)

  unfoldable pub parse_jsonl : String → Result ImportError (List ImportUnit)
  unfolding parse_lines lines
  parse_jsonl contents = parse_lines 1 (lines contents)

unfoldable pub normalize : String → String
unfolding split_whitespace join
normalize text = join " " (split_whitespace text)

-- FNV-1a over bytes, on `u64`.
abbrev two_64 : ℕ
two_64 = 0x1_0000_0000_0000_0000

unfoldable pub mix : ℕ → List ℕ → ℕ
mix hash [] = hash
mix hash (byte ∷ bytes) = mix (bit_xor hash byte * 0x100_0000_01b3 % two_64) bytes

-- The bytes of a number, the lowest first.
unfoldable pub to_le_bytes : ℕ → ℕ → List ℕ
to_le_bytes zero n = []
to_le_bytes (suc k) n = (n % 256) ∷ to_le_bytes k (n / 256)

unfoldable pub content_hash : String → String → List ℕ
unfolding normalize mix to_le_bytes as_bytes
content_hash source_tag text = to_le_bytes 8 (
    mix (mix (mix 0xcbf2_9ce4_8422_2325 (as_bytes source_tag)) (0 ∷ []))
      (as_bytes (normalize text)))
