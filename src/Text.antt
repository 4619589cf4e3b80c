-- ===== src/Text.antt =====
-- What the crates use of `str`: byte lengths and slices, `char_indices`, the UTF-8 bytes, and the
-- classes of characters. A slice that does not fall on the boundary of a character panics: `none`.
pub mod Utf8
use Prim.Native.Char.{Char, code}
use memoryd.Prelude.{
  ℕ, zero, suc, ◌+◌, ◌-◌, ◌/◌, ◌%◌, String, Bool, true, false, not, ◌&&◌, ◌||◌, Option, none, some,
  List, [], ◌∷◌, ◌++◌, ltb, leb, ◌==◌, if◌then◌else◌, any,
}

-- `char::len_utf8`
unfoldable pub len_utf8 : Char → ℕ
len_utf8 c =
    if ltb (code c) 128
    then 1
    else if ltb (code c) 2048
    then 2
    else if ltb (code c) 65536
    then 3
    else 4

-- `str::len`
unfoldable pub byte_len : String → ℕ
byte_len String.[] = 0
byte_len (String.◌∷◌ c s) = len_utf8 c + byte_len s

-- `&s[n..]`
unfoldable pub slice_from : String → ℕ → Option String
slice_from s zero = some s
slice_from String.[] (suc n) = none
slice_from (String.◌∷◌ c s) (suc n) =
    let rest = slice_from s (suc n - len_utf8 c) in if ltb (suc n) (len_utf8 c) then none else rest

abbrev pub prepend : Char → Option String → Option String
prepend c none = none
prepend c (some t) = some (String.◌∷◌ c t)

-- `&s[..n]`
unfoldable pub slice_to : String → ℕ → Option String
slice_to s zero = some String.[]
slice_to String.[] (suc n) = none
slice_to (String.◌∷◌ c s) (suc n) =
    let rest = prepend c (slice_to s (suc n - len_utf8 c)) in
    if ltb (suc n) (len_utf8 c) then none else rest

-- `&s[a..b]`
unfoldable pub slice : String → ℕ → ℕ → Option String
slice s a b =
    if ltb b a then none else elim (slice_from s a) [ none ↦ none | some t ↦ slice_to t (b - a) ]

-- `s.char_indices()`, the indices counted from `i`.
unfoldable pub char_indices_from : ℕ → String → List (ℕ × Char)
char_indices_from i String.[] = []
char_indices_from i (String.◌∷◌ c s) = (i, c) ∷ char_indices_from (i + len_utf8 c) s

abbrev pub char_indices : String → List (ℕ × Char)
char_indices s = char_indices_from 0 s

-- The UTF-8 bytes of a character, and of a text.
unfoldable pub encode_utf8 : Char → List ℕ
encode_utf8 c =
    let n = code c in
    if ltb n 128
    then n ∷ []
    else if ltb n 2048
    then (192 + n / 64) ∷ (128 + n % 64) ∷ []
    else if ltb n 65536
    then (224 + n / 4096) ∷ (128 + n / 64 % 64) ∷ (128 + n % 64) ∷ []
    else (240 + n / 262144) ∷ (128 + n / 4096 % 64) ∷ (128 + n / 64 % 64) ∷ (128 + n % 64) ∷ []

unfoldable pub as_bytes : String → List ℕ
as_bytes String.[] = []
as_bytes (String.◌∷◌ c s) = encode_utf8 c ++ as_bytes s

unfoldable pub is_digit : ℕ → Bool
is_digit n = leb b'0' n && leb n b'9'

unfoldable pub is_upper : ℕ → Bool
is_upper n = leb b'A' n && leb n b'Z'

unfoldable pub is_alphabetic : ℕ → Bool
unfolding is_upper
is_alphabetic n = is_upper n || (leb b'a' n && leb n b'z')

-- `is_ascii_alphanumeric`
unfoldable pub is_alphanumeric : ℕ → Bool
unfolding is_digit is_alphabetic
is_alphanumeric n = is_digit n || is_alphabetic n

-- `to_ascii_lowercase`
unfoldable pub to_lower : ℕ → ℕ
unfolding is_upper
to_lower n = if is_upper n then n + 32 else n

-- `char::is_whitespace`: the code points with the property White_Space.
unfoldable pub is_whitespace : ℕ → Bool
is_whitespace n =
    (leb 9 n && leb n 13)
    || (n == 32)
    || (n == 0x85)
    || (n == 0xa0)
    || (n == 0x1680)
    || (leb 0x2000 n && leb n 0x200a)
    || (n == 0x2028)
    || (n == 0x2029)
    || (n == 0x202f)
    || (n == 0x205f)
    || (n == 0x3000)

-- The code points of a text.
abbrev pub codes : String → List ℕ
codes String.[] = []
codes (String.◌∷◌ c s) = code c ∷ codes s

-- Whether a code point is one of those of a text.
unfoldable pub one_of : String → ℕ → Bool
one_of s n = any (λ k. k == n) (codes s)

-- Whether a text is empty but for white space: `s.trim().is_empty()`.
unfoldable pub is_blank : String → Bool
unfolding is_whitespace
is_blank String.[] = true
is_blank (String.◌∷◌ c s) = is_whitespace (code c) && is_blank s

-- Whether the bytes of the second text stand at the head of the first list, and anywhere in it.
unfoldable pub begins : List ℕ → List ℕ → Bool
begins [] bs = true
begins (k ∷ ks) [] = false
begins (k ∷ ks) (b ∷ bs) = (k == b) && begins ks bs

unfoldable pub contains_bytes : List ℕ → List ℕ → Bool
unfolding begins
contains_bytes ks [] = begins ks []
contains_bytes ks (b ∷ bs) = begins ks (b ∷ bs) || contains_bytes ks bs

-- `s.contains(t)`
unfoldable pub contains : String → String → Bool
unfolding contains_bytes
contains s t = contains_bytes (codes t) (codes s)

-- `str::trim`
unfoldable pub trim_start : String → String
trim_start String.[] = String.[]
trim_start (String.◌∷◌ c s) = if is_whitespace (code c) then trim_start s else String.◌∷◌ c s

abbrev snoc_end : Char → String → String
snoc_end c String.[] = if is_whitespace (code c) then String.[] else String.◌∷◌ c String.[]
snoc_end c (String.◌∷◌ d s) = String.◌∷◌ c (String.◌∷◌ d s)

unfoldable pub trim_end : String → String
trim_end String.[] = String.[]
trim_end (String.◌∷◌ c s) = snoc_end c (trim_end s)

unfoldable pub trim : String → String
unfolding trim_start trim_end is_whitespace
trim s = trim_end (trim_start s)

-- What stands before the first character with that code: `s.split(k).next()`.
abbrev pub before_char : ℕ → String → String
before_char k String.[] = String.[]
before_char k (String.◌∷◌ c s) = if code c == k then String.[] else String.◌∷◌ c (before_char k s)

-- `split_once` at a character: what stands before the first one and what stands behind it.
abbrev cons_first : Char → Option (String × String) → Option (String × String)
cons_first c none = none
cons_first c (some (a, b)) = some (String.◌∷◌ c a, b)

unfoldable pub split_once : ℕ → String → Option (String × String)
split_once k String.[] = none
split_once k (String.◌∷◌ c s) =
    let later = cons_first c (split_once k s) in if code c == k then some ("", s) else later

-- `format!` of two texts.
abbrev pub joined : String → String → String
joined String.[] t = t
joined (String.◌∷◌ c s) t = String.◌∷◌ c (joined s t)

-- Whether all characters have a code that passes the test.
abbrev pub all_chars : (ℕ → Bool) → String → Bool
all_chars p String.[] = true
all_chars p (String.◌∷◌ c s) = p (code c) && all_chars p s

-- `str::lines`: a line ends at a line feed, with the carriage return before it.
abbrev pub cons_line : Char → List String → List String
cons_line c [] = String.◌∷◌ c String.[] ∷ []
cons_line c (l ∷ ls) = String.◌∷◌ c l ∷ ls

abbrev starts_at_feed : String → Bool
starts_at_feed String.[] = false
starts_at_feed (String.◌∷◌ c s) = code c == 10

unfoldable pub lines : String → List String
lines String.[] = []
lines (String.◌∷◌ c s) =
    let rest = lines s in
    if code c == 10
    then "" ∷ rest
    else if (code c == 13) && starts_at_feed s
    then rest
    else cons_line c rest

-- `str::split_whitespace`
abbrev starts_word : String → Bool
starts_word String.[] = false
starts_word (String.◌∷◌ c s) = not (is_whitespace (code c))

unfoldable pub split_whitespace : String → List String
split_whitespace String.[] = []
split_whitespace (String.◌∷◌ c s) =
    let rest = split_whitespace s in
    if is_whitespace (code c)
    then rest
    else if starts_word s
    then cons_line c rest
    else String.◌∷◌ c String.[] ∷ rest

-- `<[String]>::join`
unfoldable pub join : String → List String → String
join separator [] = ""
join separator (s ∷ []) = s
join separator (s ∷ t ∷ ts) = joined s (joined separator (join separator (t ∷ ts)))
