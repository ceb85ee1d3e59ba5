-- ===== src/Redaction/Controls.antt =====
-- Which texts of a sanitised event have control characters, and when a removal is noted.
use aegis_ecosystem.Prelude.{
  ℕ, zero, suc, ◌≡◌, refl, Bool, true, false, not, ◌||◌, List, [], ◌∷◌, ◌++◌, arith, Text, codes,
  any, filter, take, member, ==_iff, Eq, eq_text, eq_nat, eq_pair, Bool-cases, inl, inr,
}
use aegis_ecosystem.Json.{
  Json, Items, Fields, null, boolean, number, text, array, object, nil, cons, end, field, is_truthy,
  get_field, set_field,
}
use aegis_ecosystem.Redaction.{
  patterns, is_control, Library, strip_control_chars, substitute, redact_text, redact_value,
  sanitize_text, sanitize_value, sanitize_items, sanitize_fields, show, marked, sanitize_event,
}

-- Whether a text of the value has a control character; the keys of dictionaries do not count.
unfoldable mutual
  pub has_control : Json → Bool
  has_control null = false
  has_control (boolean b) = false
  has_control (number is_zero shown) = false
  has_control (text s) = any is_control s
  has_control (array vs) = items_have_control vs
  has_control (object fs) = fields_have_control fs

  pub items_have_control : Items → Bool
  items_have_control nil = false
  items_have_control (cons v vs) = has_control v || items_have_control vs

  pub fields_have_control : Fields → Bool
  fields_have_control end = false
  fields_have_control (field k v fs) = has_control v || fields_have_control fs

module _ {ℓ} {A : Type ℓ} (p : A → Bool) where
  any-filter-not : (xs : List A) → any p (filter (λ x. not (p x)) xs) ≡ false
  any-filter-not [] = refl
  any-filter-not (x ∷ xs) = ground (arith, any-filter-not xs)

  any-take : (n : ℕ) (xs : List A) → any p xs ≡ false → any p (take n xs) ≡ false
  any-take zero xs h = refl
  any-take (suc n) [] h = refl
  any-take (suc n) (x ∷ xs) h = ground (arith, any-take n xs)

  any-append : (xs ys : List A) → any p (xs ++ ys) ≡ (any p xs || any p ys)
  any-append [] ys = refl
  any-append (x ∷ xs) ys = ground (arith, any-append xs ys)

  module _ ⦃e : Eq A⦄ where
    any-member : (x : A) (xs : List A) → any p xs ≡ false → member x xs ≡ true → p x ≡ false
    unfolding member
    any-member x [] h m = absurd (ground arith)
    any-member x (y ∷ xs) h m = ground (arith, e.same_iff y x, any-member x xs)

    any_none : (xs : List A) → ((x : A) → member x xs ≡ true → p x ≡ false) → any p xs ≡ false
    unfolding member
    any_none [] h = refl
    any_none (x ∷ xs) h =
        let first : p x ≡ false = h x (ground (arith, e.same_iff x x)) in
        ground (arith, any_none xs (λ y m. h y (ground arith)))

-- no replacement of the table has a control character
replacements_print : any (λ r. any is_control r.1) patterns ≡ false
unfolding is_control
replacements_print = refl

module _ (library : Library) where
  open library use {sub, sub_chars, repr, repr_prints}

  sub-prints :
      (q r s : Text)
      → member (q, r) patterns ≡ true
      → any is_control s ≡ false
      → any is_control (sub q r s) ≡ false
  sub-prints q r s m clean =
      let clean_r : any is_control r ≡ false =
        any-member (λ x. any is_control x.1) (q, r) patterns replacements_print m in
      any_none is_control (sub q r s) (λ c found. elim (Bool-cases (member c s)) [
        | inl in_s ↦ any-member is_control c s clean in_s
        | inr not_s ↦ any-member is_control c r clean_r (ground (arith, sub_chars q r s c m found))
      ])

  substitute-prints :
      (rest : List (Text × Text)) (s : Text)
      → ((x : Text × Text) → member x rest ≡ true → member x patterns ≡ true)
      → any is_control s ≡ false
      → any is_control (substitute library rest s) ≡ false
  unfolding substitute member
  substitute-prints [] s within clean = clean
  substitute-prints ((q, r) ∷ rest) s within clean =
      substitute-prints rest (sub q r s) (λ x m. within x (ground arith))
        (sub-prints q r s (within (q, r) (ground (arith, ==_iff q q, ==_iff r r))) clean)

  redact_text-prints :
      (s : Text) → any is_control s ≡ false → any is_control (redact_text library s) ≡ false
  unfolding redact_text
  redact_text-prints [] clean = refl
  redact_text-prints (c ∷ s) clean = any-take is_control 4096 _ (
      substitute-prints patterns (take 8192 (c ∷ s)) (λ x m. m)
        (any-take is_control 8192 (c ∷ s) clean))

  redacted_prints : any is_control (codes "<redacted>") ≡ false
  unfolding is_control
  redacted_prints = refl

  sanitize_text-prints :
      (key s : Text)
      → any is_control s ≡ false
      → any is_control (sanitize_text library key s) ≡ false
  unfolding sanitize_text redact_value
  sanitize_text-prints key s clean = ground (arith, redact_text-prints s clean, redacted_prints)

  strip_control_chars-prints :
      (s : Text) (st : Bool) → any is_control (strip_control_chars s st).0 ≡ false
  unfolding strip_control_chars
  strip_control_chars-prints s st = elim (Bool-cases (any is_control s)) [
    | inl e ↦ rw e (any-filter-not is_control s)
    | inr e ↦ rw (e, e) refl
  ]

  mutual
    unfolding sanitize_value has_control

    sanitize_value-prints :
        (key : Text) (v : Json) (st : Bool)
        → has_control (sanitize_value library key v st).0 ≡ false
    sanitize_value-prints key null st = refl
    sanitize_value-prints key (boolean b) st = refl
    sanitize_value-prints key (number z s) st = refl
    sanitize_value-prints key (text s) st =
        sanitize_text-prints key _ (strip_control_chars-prints s st)
    sanitize_value-prints key (array vs) st = sanitize_items-prints key vs st
    sanitize_value-prints key (object fs) st = sanitize_fields-prints fs st

    sanitize_items-prints :
        (key : Text) (vs : Items) (st : Bool)
        → items_have_control (sanitize_items library key vs st).0 ≡ false
    sanitize_items-prints key nil st = refl
    sanitize_items-prints key (cons v vs) st =
        rw (sanitize_value-prints key v st)
          (sanitize_items-prints key vs (sanitize_value library key v st).1)

    sanitize_fields-prints :
        (fs : Fields) (st : Bool) → fields_have_control (sanitize_fields library fs st).0 ≡ false
    sanitize_fields-prints end st = refl
    sanitize_fields-prints (field k v fs) st =
        rw (sanitize_value-prints k v st)
          (sanitize_fields-prints fs (sanitize_value library k v st).1)

  set_field-prints :
      (key : Text) (v : Json) (fs : Fields)
      → has_control v ≡ false
      → fields_have_control fs ≡ false
      → fields_have_control (set_field key v fs) ≡ false
  unfolding set_field has_control
  set_field-prints key v end hv h = ground arith
  set_field-prints key v (field k w fs) hv h = ground (arith, set_field-prints key v fs)

  get_field-prints :
      (key : Text) (fs : Fields)
      → fields_have_control fs ≡ false
      → has_control (get_field key fs) ≡ false
  unfolding get_field has_control
  get_field-prints key end h = refl
  get_field-prints key (field k w fs) h = ground (arith, get_field-prints key fs)

  show-prints : (v : Json) → has_control v ≡ false → any is_control (show library v) ≡ false
  unfolding show has_control
  show-prints null h = repr_prints null
  show-prints (boolean b) h = repr_prints (boolean b)
  show-prints (number z s) h = repr_prints (number z s)
  show-prints (text s) h = h
  show-prints (array vs) h = repr_prints (array vs)
  show-prints (object fs) h = repr_prints (object fs)

  marker_prints : any is_control (codes "stripped-ctrl") ≡ false
  unfolding is_control
  marker_prints = refl

  more_prints : any is_control (codes ";stripped-ctrl") ≡ false
  unfolding is_control
  more_prints = refl

  marked-prints : (v : Json) → has_control v ≡ false → any is_control (marked library v) ≡ false
  unfolding marked
  marked-prints v h = any-take is_control 64 _ (elim (Bool-cases (is_truthy v)) [
    | inl e ↦
        rw (e, any-append is_control (show library v) (codes ";stripped-ctrl"), show-prints v h)
          more_prints
    | inr e ↦ rw e marker_prints
  ])

  -- No text of a sanitised event, however deep and under whatever key, has a control character.
  pub sanitize_event-has_control :
      (payload : Fields) → fields_have_control (sanitize_event library payload) ≡ false
  unfolding sanitize_event has_control
  sanitize_event-has_control payload =
      let fs = (sanitize_fields library payload false).0 in
      let clean = sanitize_fields-prints payload false in
      let quality = get_field (codes "quality") fs in
      elim (Bool-cases (sanitize_fields library payload false).1) [
        | inr e ↦ rw e clean
        | inl e ↦ rw e (
            set_field-prints (codes "quality") (text (marked library quality)) fs
              (marked-prints quality (get_field-prints (codes "quality") fs clean)) clean)
      ]
