-- ===== src/Correlation/Keys.antt =====
-- The keys of the correlation engine: counters, fired flags and armed flags are never the same key.
use aegis_ecosystem.Prelude.{◌≡◌, refl, false, Text, ◌==◌, eq_text, text_eq}
use aegis_ecosystem.Correlation.Rules.{counter_key, fired_key, armed_key}

-- Whatever the rules, the groups and the indices.
pub counter-ne-fired :
    (a b c d e f : Text)
    → ((counter_key a b c == fired_key d e f) ≡ false)
      × ((armed_key a b c == fired_key d e f) ≡ false)
      × ((counter_key a b c == armed_key d e f) ≡ false)
unfolding counter_key fired_key armed_key text_eq
counter-ne-fired a b c d e f = (refl, refl, refl)
