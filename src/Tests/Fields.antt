-- ===== src/Tests/Fields.antt =====
-- Runs of the field names of events.
use aegis_ecosystem.Prelude.{
  ◌≡◌, refl, false, [], ◌∷◌, codes, text_eq, lower, lower_char, strip, lstrip, rstrip, is_space,
  member, starts_with, eq_text,
}
use aegis_ecosystem.Prelude.Dict.{lookup}
use aegis_ecosystem.Sigma.Matcher.{scalar}
use aegis_ecosystem.Sigma.Fields.{
  value, UnifiedEvent, reads, is_null, is_blank_text, read_or_null, dig, key_of, paths_of,
  is_direct, has_field, get_values,
}
use aegis_ecosystem.Sigma.Fields.Absent.{has_field-get_values}

abbrev named : UnifiedEvent
named = record { attributes = (codes "user", value (scalar (codes "bob"))) ∷ []; extra = [] }

abbrev unnamed : UnifiedEvent
unnamed = record { attributes = []; extra = (codes "user", value (scalar (codes "bob"))) ∷ [] }

has_field-get_values_example :
    (get_values unnamed (codes "user") ≡ reads (value (scalar (codes "bob"))) ∷ [])
    × (has_field unnamed (codes "user") ≡ false)
unfolding key_of paths_of is_direct dig read_or_null is_null is_blank_text lookup text_eq lower
    lower_char strip lstrip rstrip is_space starts_with member
has_field-get_values_example =
    has_field-get_values unnamed (codes "user") (value (scalar (codes "bob"))) refl refl refl refl
      refl
