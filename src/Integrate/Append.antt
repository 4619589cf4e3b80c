-- ===== src/Integrate/Append.antt =====
-- The lines of a text that a block is appended to.
use Prim.Native.Char.{Char, code}
use memoryd.Prelude.{
  String, Bool, true, false, not, List, [], ◌∷◌, ◌++◌, any, ◌==◌, ◌≡◌, refl, sym, ap, subst, ◌∙◌,
  inl, inr, arith, Bool-cases,
}
use memoryd.Text.{joined, lines, cons_line, all_chars}
use memoryd.Integrate.{append_stanza, ends_in_feed}

-- No carriage return.
abbrev pub is_plain : String → Bool
is_plain s = all_chars (λ n. not (n == 13)) s

is_plain-joined :
    (s t : String) → is_plain s ≡ true → is_plain t ≡ true → is_plain (joined s t) ≡ true
is_plain-joined String.[] t h k = k
is_plain-joined (String.◌∷◌ c s) t h k = ground (arith, is_plain-joined s t)

-- A line feed ends the lines of the text before it, and those of the text behind it follow.
record Splits (s t : String) : Type 0 where
  rest : List String
  upto : lines (joined s (joined "\n" t)) ≡ lines s ++ rest
  first : String
  front : List String
  behind : lines (joined s (joined "\n" t)) ≡ first ∷ (front ++ lines t)

lines-feed : (c : Char) (s : String) → (code c == 10) ≡ true → lines (String.◌∷◌ c s) ≡ "" ∷ lines s
unfolding lines
lines-feed c s h = rw h refl

lines-char :
    (c : Char) (s : String)
    → (code c == 10) ≡ false
    → (code c == 13) ≡ false
    → lines (String.◌∷◌ c s) ≡ cons_line c (lines s)
unfolding lines
lines-char c s h k = rw h (rw k refl)

-- A text that is not empty has a line.
abbrev HasLine : List String → Type 0
HasLine ls = (l : String) × (rest : List String) × (ls ≡ l ∷ rest)

cons_line-HasLine : (c : Char) (ls : List String) → HasLine (cons_line c ls)
cons_line-HasLine c [] = (_, _, refl)
cons_line-HasLine c (l ∷ ls) = (_, _, refl)

plain_char : (c : Char) (s : String) → is_plain (String.◌∷◌ c s) ≡ true → (code c == 13) ≡ false
plain_char c s h = ground arith

plain_tail : (c : Char) (s : String) → is_plain (String.◌∷◌ c s) ≡ true → is_plain s ≡ true
plain_tail c s h = ground arith

lines-HasLine :
    (c : Char) (s : String) → is_plain (String.◌∷◌ c s) ≡ true → HasLine (lines (String.◌∷◌ c s))
lines-HasLine c s h = elim (Bool-cases (code c == 10)) [
  | inl feed ↦ (_, _, lines-feed c s feed)
  | inr other ↦
      subst HasLine (sym (lines-char c s other (plain_char c s h))) (cons_line-HasLine c (lines s))
]

splits : (s t : String) → is_plain s ≡ true → Splits s t
unfolding lines
splits String.[] t h = record {
  rest = "" ∷ lines t;
  upto = refl;
  first = "";
  front = [];
  behind = refl;
}
splits (String.◌∷◌ c String.[]) t h = elim (Bool-cases (code c == 10)) [
  | inl feed ↦ record {
    rest = "" ∷ lines t;
    upto = cc (lines-feed c (joined "\n" t) feed, lines-feed c String.[] feed);
    first = "";
    front = "" ∷ [];
    behind = lines-feed c (joined "\n" t) feed;
  }
  | inr other ↦ record {
    rest = lines t;
    upto =
        lines-char c (joined "\n" t) other (plain_char c String.[] h)
        ∙ sym (ap (λ ls. ls ++ lines t) (lines-char c String.[] other (plain_char c String.[] h)));
    first = String.◌∷◌ c String.[];
    front = [];
    behind = lines-char c (joined "\n" t) other (plain_char c String.[] h);
  }
]
splits (String.◌∷◌ c (String.◌∷◌ d s)) t h =
    let r = splits (String.◌∷◌ d s) t (plain_tail c (String.◌∷◌ d s) h) in
    let more = joined (String.◌∷◌ d s) (joined "\n" t) in
    elim (Bool-cases (code c == 10)) [
      | inl feed ↦ record {
        rest = r.rest;
        upto =
            lines-feed c more feed
            ∙ ap (λ ls. "" ∷ ls) r.upto
            ∙ sym (ap (λ ls. ls ++ r.rest) (lines-feed c (String.◌∷◌ d s) feed));
        first = "";
        front = r.first ∷ r.front;
        behind = lines-feed c more feed ∙ ap (λ ls. "" ∷ ls) r.behind;
      }
      | inr other ↦
          let plain = plain_char c (String.◌∷◌ d s) h in
          let (l, ls, has) = lines-HasLine d s (plain_tail c (String.◌∷◌ d s) h) in
          record {
            rest = r.rest;
            upto =
                lines-char c more other plain
                ∙ ap (cons_line c) r.upto
                ∙ ap (λ xs. cons_line c (xs ++ r.rest)) has
                ∙ sym (ap (λ xs. cons_line c xs ++ r.rest) has)
                ∙ sym (ap (λ xs. xs ++ r.rest) (lines-char c (String.◌∷◌ d s) other plain));
            first = String.◌∷◌ c r.first;
            front = r.front;
            behind = lines-char c more other plain ∙ ap (cons_line c) r.behind;
          }
    ]

any-front : (p : String → Bool) (xs ys : List String) → any p xs ≡ true → any p (xs ++ ys) ≡ true
any-front p [] ys h = cc
any-front p (x ∷ xs) ys h = ground (arith, any-front p xs ys)

any-back : (p : String → Bool) (xs ys : List String) → any p ys ≡ true → any p (xs ++ ys) ≡ true
any-back p [] ys h = h
any-back p (x ∷ xs) ys h = ground (arith, any-back p xs ys)

-- Some line of a text passes a test.
abbrev pub some_line : (String → Bool) → String → Bool
some_line p s = any p (lines s)

no_line : (p : String → Bool) → ¬ (some_line p "" ≡ true)
unfolding lines
no_line p h = cc

some_line-before :
    (p : String → Bool) (s t : String)
    → is_plain s ≡ true
    → some_line p s ≡ true
    → some_line p (joined s (joined "\n" t)) ≡ true
some_line-before p s t plain h =
    let r = splits s t plain in rw (r.upto) (any-front p (lines s) r.rest h)

some_line-behind :
    (p : String → Bool) (s t : String)
    → is_plain s ≡ true
    → some_line p t ≡ true
    → some_line p (joined s (joined "\n" t)) ≡ true
some_line-behind p s t plain h =
    let r = splits s t plain in rw (r.behind) (any-back p (r.first ∷ r.front) (lines t) h)

-- What append_stanza makes of a text: the block alone, or the text with its last line ended and,
-- after a line feed, the block.
data Appended (text stanza : String) : Type 0 where
  alone : text ≡ "" → append_stanza text stanza ≡ stanza → Appended text stanza
  behind_feed : append_stanza text stanza ≡ joined text (joined "\n" stanza) → Appended text stanza
  behind_line :
      append_stanza text stanza ≡ joined (joined text (joined "\n" "")) (joined "\n" stanza)
      → Appended text stanza

appended : (text stanza : String) → Appended text stanza
unfolding append_stanza
appended String.[] stanza = alone refl refl
appended (String.◌∷◌ c s) stanza = elim (Bool-cases (ends_in_feed (String.◌∷◌ c s))) [
  | inl feed ↦ behind_feed (rw feed refl)
  | inr other ↦ behind_line (rw other refl)
]

-- The lines of the text and those of the block are lines of the result, but for the return that
-- a line might end in.
pub append_stanza-before :
    (p : String → Bool) (text stanza : String)
    → is_plain text ≡ true
    → some_line p text ≡ true
    → some_line p (append_stanza text stanza) ≡ true
append_stanza-before p text stanza plain h = elim (appended text stanza) [
  | alone e r ↦ absurd (no_line p (subst (λ s. some_line p s ≡ true) e h))
  | behind_feed r ↦ rw r (some_line-before p text stanza plain h)
  | behind_line r ↦ rw r (
      some_line-before p (joined text (joined "\n" "")) stanza
        (is_plain-joined text (joined "\n" "") plain refl) (some_line-before p text "" plain h))
]

pub append_stanza-behind :
    (p : String → Bool) (text stanza : String)
    → is_plain text ≡ true
    → some_line p stanza ≡ true
    → some_line p (append_stanza text stanza) ≡ true
append_stanza-behind p text stanza plain h = elim (appended text stanza) [
  | alone e r ↦ rw r h
  | behind_feed r ↦ rw r (some_line-behind p text stanza plain h)
  | behind_line r ↦ rw r (
      some_line-behind p (joined text (joined "\n" "")) stanza
        (is_plain-joined text (joined "\n" "") plain refl) h)
]

pub append_stanza-plain :
    (text stanza : String)
    → is_plain text ≡ true
    → is_plain stanza ≡ true
    → is_plain (append_stanza text stanza) ≡ true
append_stanza-plain text stanza plain h = elim (appended text stanza) [
  | alone e r ↦ rw r h
  | behind_feed r ↦ rw r (is_plain-joined text (joined "\n" stanza) plain h)
  | behind_line r ↦ rw r (
      is_plain-joined (joined text (joined "\n" "")) (joined "\n" stanza)
        (is_plain-joined text (joined "\n" "") plain refl) h)
]
