-- ===== src/Sigma/Fields/Absent.antt =====
-- What `has_field` and `get_values` of aegis-brain/app/rules/sigma/fields.py say of the same field.
use aegis_ecosystem.Prelude.{
  ◌≡◌, refl, true, false, not, some, List, [], ◌∷◌, ◌++◌, codes, lower, Text, any, Bool-cases, inl,
  inr, arith, eq_text,
}
use aegis_ecosystem.Prelude.Dict.{Dict, lookup}
use aegis_ecosystem.Sigma.Matcher.{Value}
use aegis_ecosystem.Sigma.Fields.{
  Attribute, null, empty_dict, value, UnifiedEvent, reads, is_null, is_blank, is_blank_text,
  read_or_null, dig, key_of, paths_of, is_direct, has_field, alias_values, first_candidate,
  candidate_or, candidates, extra_values, direct_values, get_values,
}

null-blank : (a : Attribute) → not (is_null a) ≡ false → is_blank a ≡ true
unfolding is_null is_blank
null-blank null h = refl
null-blank empty_dict h = refl
null-blank (value v) h = absurd (ground arith)

filled-present : (a : Attribute) → is_blank a ≡ false → not (is_null a) ≡ true
unfolding is_null is_blank
filled-present null h = absurd (ground arith)
filled-present empty_dict h = refl
filled-present (value v) h = refl

null_values :
    (event : UnifiedEvent) (paths : List Text)
    → any (λ path. not (is_null (dig event path))) paths ≡ false
    → alias_values event paths ≡ []
unfolding alias_values
null_values event [] h = refl
null_values event (path ∷ paths) h =
    ground (arith, null_values event paths, null-blank (dig event path))

filled_values :
    (event : UnifiedEvent) (paths : List Text) (v : Value) (vs : List Value)
    → alias_values event paths ≡ v ∷ vs
    → any (λ path. not (is_null (dig event path))) paths ≡ true
unfolding alias_values
filled_values event [] v vs h = absurd (ground arith)
filled_values event (path ∷ paths) v vs h = elim (Bool-cases (is_blank (dig event path))) [
  | inr p ↦ rw (filled-present (dig event path) p) refl
  | inl p ↦ let rest = filled_values event paths v vs (rw (p, alias_values) at h) in ground arith
]

-- Where an alias of a name has values that are not blank, `get_values` returns those of all its
-- aliases and nothing else, and `has_field` says that the event has the field.
pub get_values-alias_values :
    (event : UnifiedEvent) (name : Text) (v : Value) (vs : List Value)
    → alias_values event (paths_of (key_of name)) ≡ v ∷ vs
    → (get_values event name ≡ v ∷ vs) × (has_field event name ≡ true)
unfolding get_values has_field
get_values-alias_values event name v vs h =
    (rw (h, get_values) refl, rw (filled_values event (paths_of (key_of name)) v vs h) refl)

first_candidate_self :
    (name : Text) (names : List Text) (v : Attribute) (d : Dict Text Attribute)
    → lookup name d ≡ some v
    → is_blank_text v ≡ false
    → first_candidate (name ∷ names) d ≡ some v
first_candidate_self name names v d found text =
    unfold first_candidate in rw found (unfold candidate_or in rw text refl)

direct_values-extra :
    (event : UnifiedEvent) (name key : Text) (v : Attribute)
    → read_or_null key event.attributes ≡ null
    → lookup name event.extra ≡ some v
    → is_blank_text v ≡ false
    → direct_values event name key ≡ reads v ∷ []
unfolding direct_values extra_values is_blank candidates
direct_values-extra event name key v absent found text =
    let first =
      first_candidate_self name
        ((codes "win." ++ name) ∷ lower name ∷ (codes "win." ++ lower name) ∷ []) v event.extra
        found text in
    elim (Bool-cases (is_direct key)) [
      | inl p ↦ rw (p, absent, first, extra_values) refl
      | inr p ↦ rw (p, first, extra_values) refl
    ]

-- A field of the event model that is absent there, with every alias of it, but that `extra` holds
-- under its name with a text: `get_values` finds the value, and `has_field` says that the event does
-- not have the field.
pub has_field-get_values :
    (event : UnifiedEvent) (name : Text) (v : Attribute)
    → any (λ path. not (is_null (dig event path))) (paths_of (key_of name)) ≡ false
    → is_direct (key_of name) ≡ true
    → read_or_null (key_of name) event.attributes ≡ null
    → lookup name event.extra ≡ some v
    → is_blank_text v ≡ false
    → (get_values event name ≡ reads v ∷ []) × (has_field event name ≡ false)
unfolding has_field get_values is_null
has_field-get_values event name v aliases direct absent found text = (
  rw (null_values event (paths_of (key_of name)) aliases, get_values)
      (direct_values-extra event name (key_of name) v absent found text),
  rw (aliases, direct, absent) refl,
)
