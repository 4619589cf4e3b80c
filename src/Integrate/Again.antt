-- ===== src/Integrate/Again.antt =====
-- Appending the parts again changes nothing.
use memoryd.Prelude.{
  String, Bool, true, false, Option, none, some, List, [], ◌∷◌, All, ◌≡◌, ◌⊎◌, refl, subst, inl,
  inr, Bool-cases,
}
use memoryd.Integrate.{
  Part, Action, write, marker_present, has_top_level_key, is_conflicted, append_stanza, append_loop,
  append_file_parts, file_text,
}
use memoryd.Integrate.Append.{
  is_plain, some_line, append_stanza-before, append_stanza-behind, append_stanza-plain,
}

-- A part that the loop passes by.
abbrev IsSettled : String → Part → Type 0
IsSettled text p =
    (marker_present text p.present_marker ≡ true) ⊎ (is_conflicted text p.conflict_marker ≡ true)

-- A block without carriage returns that shows its own marker.
abbrev pub IsMarked : Part → Type 0
IsMarked p = (is_plain p.stanza ≡ true) × (marker_present p.stanza p.present_marker ≡ true)

-- Every test that a line of the first text passes, a line of the second does.
abbrev Extends : String → String → Type 0
Extends s t = (q : String → Bool) → some_line q s ≡ true → some_line q t ≡ true

is_conflicted-Extends :
    (s t : String) (o : Option String)
    → Extends s t
    → is_conflicted s o ≡ true
    → is_conflicted t o ≡ true
unfolding is_conflicted has_top_level_key
is_conflicted-Extends s t none h k = k
is_conflicted-Extends s t (some key) h k = h _ k

IsSettled-Extends : (s t : String) (p : Part) → Extends s t → IsSettled s p → IsSettled t p
unfolding marker_present
IsSettled-Extends s t p h (inl k) = inl (h _ k)
IsSettled-Extends s t p h (inr k) = inr (is_conflicted-Extends s t p.conflict_marker h k)

-- What the loop makes of a text.
record Settles (parts : List Part) (text final : String) : Type 0 where
  extends : Extends text final
  plain : is_plain final ≡ true
  settled : All (IsSettled final) parts

-- A part that is settled where the loop goes on is settled in the end.
Settles-cons :
    (p : Part) (parts : List Part) (text next final : String)
    → Extends text next
    → IsSettled next p
    → Settles parts next final
    → Settles (p ∷ parts) text final
Settles-cons p parts text next final grows done r = record {
  extends = λ q h. r.extends q (grows q h);
  plain = r.plain;
  settled = (IsSettled-Extends next final p r.extends done, r.settled);
}

stanza-IsSettled :
    (text : String) (p : Part)
    → is_plain text ≡ true
    → IsMarked p
    → IsSettled (append_stanza text p.stanza) p
unfolding marker_present
stanza-IsSettled text p plain (_, shows) = inl (append_stanza-behind _ text p.stanza plain shows)

append_loop-Settles :
    (parts : List Part) (text : String) (a : Bool)
    → is_plain text ≡ true
    → All IsMarked parts
    → Settles parts text (append_loop parts text a).0
unfolding append_loop
append_loop-Settles [] text a plain h = record { extends = λ q k. k; plain = plain; settled = tt }
append_loop-Settles (p ∷ parts) text a plain (marked, h) =
    elim (Bool-cases (marker_present text p.present_marker)) [
      | inl there ↦ rw there (
          Settles-cons p parts text text _ (λ q k. k) (inl there)
            (append_loop-Settles parts text a plain h))
      | inr absent ↦ elim (Bool-cases (is_conflicted text p.conflict_marker)) [
        | inl refused ↦
            rw (absent, refused)
              (Settles-cons p parts text text _ (λ q k. k) (inr refused)
                (append_loop-Settles parts text a plain h))
        | inr free ↦
            rw (absent, free)
              (Settles-cons p parts text (append_stanza text p.stanza) _
                (λ q k. append_stanza-before q text p.stanza plain k)
                (stanza-IsSettled text p plain marked)
                (append_loop-Settles parts (append_stanza text p.stanza) true
                  (append_stanza-plain text p.stanza plain marked.0) h))
      ]
    ]

-- A loop over parts that are all settled changes nothing.
both_ways : (b : Bool) → b ≡ true → ¬ (b ≡ false)
both_ways b h k = cc

append_loop-settled :
    (parts : List Part) (text : String) (a : Bool)
    → All (IsSettled text) parts
    → ((append_loop parts text a).0 ≡ text) × ((append_loop parts text a).1 ≡ a)
unfolding append_loop
append_loop-settled [] text a h = (refl, refl)
append_loop-settled (p ∷ parts) text a (done, h) =
    elim (Bool-cases (marker_present text p.present_marker)) [
      | inl there ↦ rw there (append_loop-settled parts text a h)
      | inr absent ↦ elim done [
        | inl there ↦ absurd (both_ways _ there absent)
        | inr refused ↦ rw (absent, refused) (append_loop-settled parts text a h)
      ]
    ]

-- The file that the first action writes, and whether it was so already.
abbrev pub first_write : List Action → Option (String × Bool)
first_write (write text what already ∷ rest) = some (text, already)
first_write _ = none

-- Appending the parts to the text that they were appended to before writes the same text and says
-- that all was there already, if neither the file nor a block has a carriage return and each block
-- has a line with its own marker and the name memoryd.
pub append_file_parts-again :
    (file : Option String) (parts : List Part) (text : String) (already : Bool)
    → is_plain (file_text file) ≡ true
    → All IsMarked parts
    → first_write (append_file_parts file parts) ≡ some (text, already)
    → first_write (append_file_parts (some text) parts) ≡ some (text, true)
unfolding append_file_parts
append_file_parts-again file parts text already plain marked h =
    let same : (append_loop parts (file_text file) false).0 ≡ text = cc h in
    let r = append_loop-Settles parts (file_text file) false plain marked in
    let (kept, idle) =
      append_loop-settled parts text false (subst (λ t. All (IsSettled t) parts) same r.settled) in
    cc (kept, idle)
