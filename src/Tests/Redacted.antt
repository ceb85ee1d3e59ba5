-- ===== src/Tests/Redacted.antt =====
-- Runs of the redaction of events, with a library that substitutes nothing.
use aegis_ecosystem.Prelude.{
  ℕ, eq_nat, ◌≡◌, refl, true, false, ◌||◌, [], ◌∷◌, arith, Text, codes, any, member, text_eq,
  eq_text, contains, lower, replace_char,
}
use aegis_ecosystem.Json.{Fields, text, object, end, field, get_field}
use aegis_ecosystem.Redaction.{Library, is_control, is_secret, sanitize_event}
use aegis_ecosystem.Redaction.Controls.{fields_have_control, sanitize_event-has_control}
use aegis_ecosystem.Redaction.Declared.{sanitize_event-get_field}

zero_prints : any is_control (codes "0") ≡ false
unfolding is_control
zero_prints = refl

kept_chars : (s r : Text) (c : ℕ) → member c s ≡ true → (member c s || member c r) ≡ true
kept_chars s r c h = ground arith

abbrev library : Library
library = record {
  sub = λ pattern replacement s. s;
  sub_chars = λ pattern replacement s c m h. kept_chars s replacement c h;
  repr = λ v. codes "0";
  repr_prints = λ v. zero_prints;
}

-- {"process_name": "a\x00b", "details": {"token": "x"}, "api-key": "y"}
abbrev payload : Fields
payload = field (codes "process_name") (text (b'a' ∷ 0 ∷ b'b' ∷ [])) (
    field (codes "details") (object (field (codes "token") (text (codes "x")) end))
      (field (codes "api-key") (text (codes "y")) end))

sanitize_event-has_control_example : fields_have_control (sanitize_event library payload) ≡ false
sanitize_event-has_control_example = sanitize_event-has_control library payload

sanitize_event-get_field_example :
    get_field (codes "api-key") (sanitize_event library payload) ≡ text (codes "<redacted>")
unfolding text_eq member is_secret contains replace_char lower get_field
sanitize_event-get_field_example =
    sanitize_event-get_field library (codes "api-key") (codes "y") payload refl refl
