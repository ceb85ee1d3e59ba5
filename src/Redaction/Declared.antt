-- ===== src/Redaction/Declared.antt =====
-- What stands under a key of a sanitised event, and how a removal is declared.
use aegis_ecosystem.Prelude.{
  ◌≡◌, refl, sym, ◌∙◌, ap, Bool, true, false, not, ◌||◌, [], ◌∷◌, arith, Text, codes, any, filter,
  member, if◌then◌else◌, ◌==◌, ==_iff, eq_text, Bool-cases, inl, inr, contains, lower, replace_char,
  text_eq,
}
use aegis_ecosystem.Json.{
  Json, Items, Fields, null, boolean, number, text, array, object, nil, cons, end, field, get_field,
  set_field,
}
use aegis_ecosystem.Redaction.{
  passthrough_keys, is_secret, is_control, Library, strip_control_chars, redact_text, redact_value,
  sanitize_text, sanitize_value, sanitize_items, sanitize_fields, marked, sanitize_event,
}
use aegis_ecosystem.Redaction.Controls.{has_control, items_have_control, fields_have_control}

-- The characters that are no control characters.
abbrev pub printed : Text → Text
printed = filter (λ c. not (is_control c))

filter_all : (s : Text) → any is_control s ≡ false → printed s ≡ s
filter_all [] h = refl
filter_all (c ∷ s) h = ground (arith, filter_all s)

strip_control_chars-printed : (s : Text) (st : Bool) → (strip_control_chars s st).0 ≡ printed s
unfolding strip_control_chars
strip_control_chars-printed s st = elim (Bool-cases (any is_control s)) [
  | inl e ↦ rw e refl
  | inr e ↦ rw e (sym (filter_all s e))
]

strip_control_chars-any :
    (s : Text) (st : Bool) → (strip_control_chars s st).1 ≡ (st || any is_control s)
unfolding strip_control_chars
strip_control_chars-any s st = ground arith

get_field-set_field :
    (k j : Text) (v : Json) (fs : Fields)
    → get_field j (set_field k v fs) ≡ (if k == j then v else get_field j fs)
unfolding get_field set_field
get_field-set_field k j v end = refl
get_field-set_field k j v (field i w fs) =
    ground (arith, ==_iff i k, ==_iff i j, ==_iff k j, get_field-set_field k j v fs)

module _ (library : Library) where
  -- the note of a removal grows by what the value holds
  mutual
    unfolding sanitize_value has_control

    sanitize_value-flag :
        (key : Text) (v : Json) (st : Bool)
        → (sanitize_value library key v st).1 ≡ (st || has_control v)
    sanitize_value-flag key null st = ground arith
    sanitize_value-flag key (boolean b) st = ground arith
    sanitize_value-flag key (number z s) st = ground arith
    sanitize_value-flag key (text s) st = strip_control_chars-any s st
    sanitize_value-flag key (array vs) st = sanitize_items-flag key vs st
    sanitize_value-flag key (object fs) st = sanitize_fields-flag fs st

    sanitize_items-flag :
        (key : Text) (vs : Items) (st : Bool)
        → (sanitize_items library key vs st).1 ≡ (st || items_have_control vs)
    sanitize_items-flag key nil st = ground arith
    sanitize_items-flag key (cons v vs) st = ground (
      arith,
      sanitize_value-flag key v st,
      sanitize_items-flag key vs (sanitize_value library key v st).1,
    )

    sanitize_fields-flag :
        (fs : Fields) (st : Bool)
        → (sanitize_fields library fs st).1 ≡ (st || fields_have_control fs)
    sanitize_fields-flag end st = ground arith
    sanitize_fields-flag (field k v fs) st = ground (
      arith,
      sanitize_value-flag k v st,
      sanitize_fields-flag fs (sanitize_value library k v st).1,
    )

  -- the value does not depend on the note
  mutual
    unfolding sanitize_value

    sanitize_value-alike :
        (key : Text) (v : Json) (st st' : Bool)
        → (sanitize_value library key v st).0 ≡ (sanitize_value library key v st').0
    sanitize_value-alike key null st st' = refl
    sanitize_value-alike key (boolean b) st st' = refl
    sanitize_value-alike key (number z s) st st' = refl
    sanitize_value-alike key (text s) st st' =
        ap (λ x. text (sanitize_text library key x))
          (strip_control_chars-printed s st ∙ sym (strip_control_chars-printed s st'))
    sanitize_value-alike key (array vs) st st' = ap array (sanitize_items-alike key vs st st')
    sanitize_value-alike key (object fs) st st' = ap object (sanitize_fields-alike fs st st')

    sanitize_items-alike :
        (key : Text) (vs : Items) (st st' : Bool)
        → (sanitize_items library key vs st).0 ≡ (sanitize_items library key vs st').0
    sanitize_items-alike key nil st st' = refl
    sanitize_items-alike key (cons v vs) st st' =
        ap (λ x. cons x (sanitize_items library key vs (sanitize_value library key v st).1).0)
          (sanitize_value-alike key v st st')
        ∙ ap (cons (sanitize_value library key v st').0) (
            sanitize_items-alike key vs (sanitize_value library key v st).1
              (sanitize_value library key v st').1)

    sanitize_fields-alike :
        (fs : Fields) (st st' : Bool)
        → (sanitize_fields library fs st).0 ≡ (sanitize_fields library fs st').0
    sanitize_fields-alike end st st' = refl
    sanitize_fields-alike (field k v fs) st st' =
        ap (λ x. field k x (sanitize_fields library fs (sanitize_value library k v st).1).0)
          (sanitize_value-alike k v st st')
        ∙ ap (field k (sanitize_value library k v st').0) (
            sanitize_fields-alike fs (sanitize_value library k v st).1
              (sanitize_value library k v st').1)

  -- what the dictionary's comprehension puts under a key
  get_field-sanitize_fields :
      (key : Text) (fs : Fields) (st : Bool)
      → get_field key (sanitize_fields library fs st).0
        ≡ (sanitize_value library key (get_field key fs) false).0
  unfolding get_field sanitize_fields
  get_field-sanitize_fields key end st = refl
  get_field-sanitize_fields key (field k v fs) st = elim (Bool-cases (k == key)) [
    | inl e ↦ rw (e, (==_iff k key).0 e) (sanitize_value-alike key v st false)
    | inr e ↦ rw e (get_field-sanitize_fields key fs (sanitize_value library k v st).1)
  ]

  -- no other key than "quality" depends on the note
  get_field-sanitize_event :
      (key : Text) (payload : Fields)
      → (codes "quality" == key) ≡ false
      → get_field key (sanitize_event library payload)
        ≡ (sanitize_value library key (get_field key payload) false).0
  unfolding sanitize_event
  get_field-sanitize_event key payload ne =
      let fs = (sanitize_fields library payload false).0 in
      let here = get_field-sanitize_fields key payload false in
      elim (Bool-cases (sanitize_fields library payload false).1) [
        | inr e ↦ rw e here
        | inl e ↦
            rw
              (
                e,
                get_field-set_field (codes "quality") key
                    (text (marked library (get_field (codes "quality") fs))) fs,
                ne,
              )
              here
      ]

  -- a command line is no secret by its key
  command_line-is_secret :
      (key : Text)
      → (lower key == codes "command_line" || lower key == codes "commandline") ≡ true
      → is_secret key ≡ false
  unfolding is_secret contains replace_char
  command_line-is_secret key h = elim (Bool-cases (lower key == codes "command_line")) [
    | inl e ↦ rw ((==_iff (lower key) (codes "command_line")).0 e) refl
    | inr e ↦
        let same : (lower key == codes "commandline") ≡ true = rw e at h in
        rw ((==_iff (lower key) (codes "commandline")).0 same) refl
  ]

  -- Of a text under any key of the event but "quality": an identifier keeps it, less its control
  -- characters; a key that names a secret replaces it as a whole; every other key, the command line's
  -- included, has the patterns of secrets replaced in it.
  pub sanitize_event-get_field :
      (key s : Text) (payload : Fields)
      → (codes "quality" == key) ≡ false
      → get_field key payload ≡ text s
      → get_field key (sanitize_event library payload)
        ≡ text (
            if member key passthrough_keys
            then printed s
            else if is_secret key
            then codes "<redacted>"
            else redact_text library (printed s))
  unfolding sanitize_value sanitize_text redact_value
  sanitize_event-get_field key s payload ne found =
      get_field-sanitize_event key payload ne
      ∙ rw (found, strip_control_chars-printed s false)
          (let secret = command_line-is_secret key in ground arith)

  -- The event's "quality" is what was under it, sanitised, if no text of the event has a control
  -- character, and else that value with the note of the removal behind it, cut at 64 characters.
  pub sanitize_event-quality :
      (payload : Fields)
      → get_field (codes "quality") (sanitize_event library payload) ≡ (
          let quality =
            (sanitize_value library
              (codes "quality")
              (get_field (codes "quality") payload)
              false).0 in
          if fields_have_control payload then text (marked library quality) else quality)
  unfolding sanitize_event text_eq
  sanitize_event-quality payload =
      let fs = (sanitize_fields library payload false).0 in
      let here = get_field-sanitize_fields (codes "quality") payload false in
      let flag : (sanitize_fields library payload false).1 ≡ fields_have_control payload =
        sanitize_fields-flag payload false in
      rw flag (elim (Bool-cases (fields_have_control payload)) [
        | inr e ↦ rw e here
        | inl e ↦
            rw
              (
                e,
                get_field-set_field (codes "quality") (codes "quality")
                    (text (marked library (get_field (codes "quality") fs))) fs,
                here,
              )
              refl
      ])
