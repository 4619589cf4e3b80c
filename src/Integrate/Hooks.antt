-- ===== src/Integrate/Hooks.antt =====
-- Merging the hooks again changes nothing.
use memoryd.Prelude.{
  String, Bool, true, false, ◌||◌, Option, none, some, List, [], ◌∷◌, All, ◌≡◌, refl, sym, ap,
  subst, ◌∙◌, inl, inr, arith, ◌is◌, eq_iff, ok, ok_or, >>=-eq-ok, ok-injective, Bool-cases,
}
use memoryd.Json.{Value, Items, Fields, nil, cons, end, field, array, object, get_field, get}
use memoryd.Integrate.Claude.{
  put_field, any_item, push_item, group_has, new_group, with_command, merge_entries, merge_hooks,
  array_or_empty, object_of,
}

is_same : (s : String) → (s is s) ≡ true
is_same s = ground (arith, eq_iff s s)

get_field-put_field :
    (k : String) (v : Value) (fs : Fields) → get_field k (put_field k v fs) ≡ some v
unfolding put_field get_field
get_field-put_field k v end = rw (is_same k) refl
get_field-put_field k v (field j w fs) = elim (Bool-cases (j is k)) [
  | inl here ↦ cc here
  | inr other ↦ cc (other, get_field-put_field k v fs)
]

get_field-put_field-other :
    (k j : String) (v : Value) (fs : Fields)
    → (j is k) ≡ false
    → get_field k (put_field j v fs) ≡ get_field k fs
unfolding put_field get_field
get_field-put_field-other k j v end h = rw h refl
get_field-put_field-other k j v (field i w fs) h = elim (Bool-cases (i is j)) [
  | inl here ↦
      let apart : (i is k) ≡ false = ground (arith, eq_iff i j, eq_iff i k, eq_iff j k) in
      cc (here, apart)
  | inr other ↦ cc (other, get_field-put_field-other k j v fs h)
]

put_field-same :
    (k : String) (v : Value) (fs : Fields) → get_field k fs ≡ some v → put_field k v fs ≡ fs
unfolding put_field get_field
put_field-same k v end h = absurd (cc h)
put_field-same k v (field j w fs) h = elim (Bool-cases (j is k)) [
  | inl here ↦ cc (here, h)
  | inr other ↦ cc (other, put_field-same k v fs (rw other at h))
]

any_item-push_item :
    (p : Value → Bool) (items : Items) (v : Value)
    → (p v || any_item p items) ≡ true
    → any_item p (push_item items v) ≡ true
any_item-push_item p nil v h = h
any_item-push_item p (cons w items) v h = ground (arith, any_item-push_item p items v)

-- A group that is added has its command.
group_has-new_group : (command : String) → group_has command (new_group command) ≡ true
unfolding group_has new_group get get_field
group_has-new_group command = rw (is_same command) refl

with_command-has :
    (command : String) (groups : Items)
    → any_item (group_has command) (with_command command groups) ≡ true
unfolding with_command
with_command-has command groups = elim (Bool-cases (any_item (group_has command) groups)) [
  | inl there ↦ rw there there
  | inr absent ↦ rw absent (
      any_item-push_item (group_has command) groups (new_group command)
        (rw (group_has-new_group command) refl))
]

or_right : (a b : Bool) → b ≡ true → (a || b) ≡ true
or_right a b h = ground arith

with_command-keeps :
    (command other : String) (groups : Items)
    → any_item (group_has other) groups ≡ true
    → any_item (group_has other) (with_command command groups) ≡ true
unfolding with_command
with_command-keeps command other groups h =
    elim (Bool-cases (any_item (group_has command) groups)) [
      | inl there ↦ rw there h
      | inr absent ↦ rw absent (
          any_item-push_item (group_has other) groups (new_group command)
            (or_right (group_has other (new_group command)) _ h))
    ]

some-injective : {A : Type 0} {a b : A} → ◌≡◌ {A = Option A} (some a) (some b) → a ≡ b
some-injective h = cc h

ok_or-eq-ok :
    {A : Type 0} {E : Type 0} (o : Option A) (e : E) {a : A} → ok_or o e ≡ ok a → o ≡ some a
ok_or-eq-ok none e h = cc
ok_or-eq-ok (some a) e h = cc

-- An event has a group with a command.
abbrev Holds : Fields → String × String → Type 0
Holds events (event, command) =
    (groups : Items) × (get_field event events ≡ some (array groups))
    × (any_item (group_has command) groups ≡ true)

Holds-put_field :
    (event command : String) (groups : Items) (events : Fields)
    → array_or_empty (get_field event events) ≡ some groups
    → (e : String × String) → Holds events e
    → Holds (put_field event (array (with_command command groups)) events) e
Holds-put_field event command groups events found (event', command') (groups', at', has) =
    elim (Bool-cases (event is event')) [
      | inl same ↦
          let e : event ≡ event' = ground (arith, eq_iff event event') in
          let g : groups' ≡ groups =
            some-injective
              (sym (ap array_or_empty (ap (λ k. get_field k events) e ∙ at')) ∙ found) in
          (
            with_command command groups,
            subst
                (λ k.
                  get_field k (put_field event (array (with_command command groups)) events)
                  ≡ some (array (with_command command groups)))
                e (get_field-put_field event (array (with_command command groups)) events),
            with_command-keeps command command' groups
                (subst (λ gs. any_item (group_has command') gs ≡ true) g has),
          )
      | inr apart ↦ (groups', get_field-put_field-other event' event _ events apart ∙ at', has)
    ]

-- A merge keeps what is there, and has all its commands in the end.
merge_entries-Holds :
    (entries : List (String × String)) (events : Fields) (r : Bool × Fields)
    → merge_entries entries events ≡ ok r
    → ((e : String × String) → Holds events e → Holds r.1 e) × All (Holds r.1) entries
unfolding merge_entries
merge_entries-Holds [] events r h =
    (λ e k. subst (λ (r : Bool × Fields). Holds r.1 e) (ok-injective h) k, tt)
merge_entries-Holds ((event, command) ∷ entries) events r h =
    let (groups, found, h') = >>=-eq-ok (ok_or (array_or_empty (get_field event events)) _) _ h in
    let next = put_field event (array (with_command command groups)) events in
    let (q, merged, h'') = >>=-eq-ok (merge_entries entries next) _ h' in
    let (keeps, all) = merge_entries-Holds entries next q merged in
    let same = ap (λ (r : Bool × Fields). r.1) (ok-injective h'') in
    let new : Holds next (event, command) = (
      with_command command groups,
      get_field-put_field event (array (with_command command groups)) events,
      with_command-has command groups,
    ) in
    (
      λ e k.
          subst (λ fs. Holds fs e) same
            (keeps e (Holds-put_field event command groups events (ok_or-eq-ok _ _ found) e k)),
      (
        subst (λ fs. Holds fs (event, command)) same (keeps (event, command) new),
        subst (λ fs. All (Holds fs) entries) same all,
      ),
    )

-- A merge of commands that are all there changes nothing.
merge_entries-idle :
    (entries : List (String × String)) (events : Fields)
    → All (Holds events) entries
    → merge_entries entries events ≡ ok (true, events)
unfolding merge_entries with_command
merge_entries-idle [] events h = refl
merge_entries-idle ((event, command) ∷ entries) events ((groups, at', has), h) =
    let same = put_field-same event (array groups) events at' in
    rw (at', has) (rw same (rw (merge_entries-idle entries events h) refl))

-- Merging the hook commands into the settings that a merge returned finds them all there and
-- returns the same settings.
pub merge_hooks-again :
    (entries : List (String × String)) (root root' : Fields) (already : Bool)
    → merge_hooks entries root ≡ ok (already, root')
    → merge_hooks entries root' ≡ ok (true, root')
unfolding merge_hooks
merge_hooks-again entries root root' already h =
    let (events, found, h') = >>=-eq-ok (ok_or (object_of (get_field "hooks" root)) _) _ h in
    let (q, merged, h'') = >>=-eq-ok (merge_entries entries events) _ h' in
    let same = ap (λ (r : Bool × Fields). r.1) (ok-injective h'') in
    let idle = merge_entries-idle entries q.1 (merge_entries-Holds entries events q merged).1 in
    subst (λ fs. merge_hooks entries fs ≡ ok (true, fs)) same
      (rw (get_field-put_field "hooks" (object q.1) root) (
        rw idle (
          rw
            (put_field-same "hooks" (object q.1) (put_field "hooks" (object q.1) root)
              (get_field-put_field "hooks" (object q.1) root))
            refl)))
