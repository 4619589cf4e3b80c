-- ===== src/Redact/Inline/Keys.antt =====
-- What the redactor leaves of a JSON value: its shape, and nothing under a sensitive key.
use memoryd.Prelude.{
  ℕ, String, Bool, true, false, ◌≡◌, refl, sym, ap, ◌∙◌, arith, if◌then◌else◌, ok, >>=-eq-ok,
  ok-injective,
}
use memoryd.Json.{
  Value, null, boolean, number, string, array, object, Items, nil, cons, Fields, end, field,
}
use memoryd.Redact.Spans.{redacted}
use memoryd.Redact.Inline.{
  Engine, redact_inline_string_with_count, redact_value, redact_items, redact_fields,
  is_sensitive_key, hide,
}

-- `w` has the shape of `v`, with the marker in the place of every value that a sensitive key names.
mutual
  pub Hides : Value → Value → Type 0
  Hides null w = w ≡ null
  Hides (boolean b) w = w ≡ boolean b
  Hides (number n) w = w ≡ number n
  Hides (string s) w = (t : String) × (w ≡ string t)
  Hides (array vs) w = (ws : Items) × (w ≡ array ws) × HidesItems vs ws
  Hides (object fs) w = (gs : Fields) × (w ≡ object gs) × HidesFields fs gs

  pub HidesItems : Items → Items → Type 0
  HidesItems nil ws = ws ≡ nil
  HidesItems (cons v vs) ws =
      (x : Value) × (xs : Items) × (ws ≡ cons x xs) × Hides v x × HidesItems vs xs

  pub HidesFields : Fields → Fields → Type 0
  HidesFields end gs = gs ≡ end
  HidesFields (field k v fs) gs =
      let below = Hides v in
      (x : Value) × (rest : Fields) × (gs ≡ field k x rest)
      × (if is_sensitive_key k then x ≡ string redacted else below x)
      × HidesFields fs rest

hide_marker : (v : Value) → (hide v).0 ≡ string redacted
hide_marker (string s) = refl
hide_marker v = refl

module _ (E : Engine) where
  kept_or_hidden :
      (b : Bool) (v : Value) (r : Value × ℕ)
      → (redact_value E v ≡ ok r → Hides v r.0)
      → (if b then ok (hide v) else redact_value E v) ≡ ok r
      → (if b then r.0 ≡ string redacted else Hides v r.0)
  kept_or_hidden true v r below h = ap (λ p. p.0) (sym (ok-injective h)) ∙ hide_marker v
  kept_or_hidden false v r below h = below h

  mutual
    unfolding redact_value Hides

    value-Hides : (v w : Value) (n : ℕ) → redact_value E v ≡ ok (w, n) → Hides v w
    value-Hides null w n h = ground arith
    value-Hides (boolean b) w n h = ground arith
    value-Hides (number m) w n h = ground arith
    value-Hides (string s) w n h =
        let (r, inline, h') = >>=-eq-ok (redact_inline_string_with_count E s) _ h in
        (_, ap (λ p. p.0) (sym (ok-injective h')))
    value-Hides (array vs) w n h =
        let (r, items, h') = >>=-eq-ok (redact_items E vs) _ h in
        (r.0, ap (λ p. p.0) (sym (ok-injective h')), items-Hides vs r.0 r.1 items)
    value-Hides (object fs) w n h =
        let (r, fields, h') = >>=-eq-ok (redact_fields E fs) _ h in
        (r.0, ap (λ p. p.0) (sym (ok-injective h')), fields-Hides fs r.0 r.1 fields)

    items-Hides : (vs ws : Items) (n : ℕ) → redact_items E vs ≡ ok (ws, n) → HidesItems vs ws
    items-Hides nil ws n h = ground arith
    items-Hides (cons v vs) ws n h =
        let (r, value, h') = >>=-eq-ok (redact_value E v) _ h in
        let (rest, items, h'') = >>=-eq-ok (redact_items E vs) _ h' in
        (
          r.0,
          rest.0,
          ap (λ p. p.0) (sym (ok-injective h'')),
          value-Hides v r.0 r.1 value,
          items-Hides vs rest.0 rest.1 items,
        )

    fields-Hides : (fs gs : Fields) (n : ℕ) → redact_fields E fs ≡ ok (gs, n) → HidesFields fs gs
    fields-Hides end gs n h = ground arith
    fields-Hides (field k v fs) gs n h =
        let (r, value, h') =
          >>=-eq-ok (if is_sensitive_key k then ok (hide v) else redact_value E v) _ h in
        let (rest, fields, h'') = >>=-eq-ok (redact_fields E fs) _ h' in
        (
          r.0,
          rest.0,
          ap (λ p. p.0) (sym (ok-injective h'')),
          kept_or_hidden (is_sensitive_key k) v r (value-Hides v r.0 r.1) value,
          fields-Hides fs rest.0 rest.1 fields,
        )

  -- What the redactor answers to a JSON value, if it does not panic, has the same shape: the same keys in the same order,
  -- and arrays of the same length. Under every sensitive key, at any depth that no sensitive key
  -- covers, it has the marker alone; numbers, booleans and nulls elsewhere are as they were.
  pub redact_value-Hides : (v w : Value) (n : ℕ) → redact_value E v ≡ ok (w, n) → Hides v w
  redact_value-Hides v w n h = value-Hides v w n h
