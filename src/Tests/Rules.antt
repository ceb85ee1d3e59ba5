-- ===== src/Tests/Rules.antt =====
-- Runs of Sigma rules.
use aegis_ecosystem.Prelude.{
  ℕ, ◌≡◌, ◌≢◌, refl, true, false, ◌&&◌, none, some, List, [], ◌∷◌, Text, codes, text_eq, member,
  lower, leb, ltb, eq_text, lower_char, is_space, strip, lstrip, rstrip,
}
use aegis_ecosystem.Prelude.Dict.{Dict, lookup}
use aegis_ecosystem.Sigma.Matcher.{
  Library, scalar, one, compile_field_match, compile_known, unknown_modifiers,
}
use aegis_ecosystem.Sigma.Condition.{
  ok, value_error, index_error, out_of_fuel, Results, Condition, parse, compile_tokens,
  compile_condition, tokenize, quantifier_of, close, or_expr, or_rest, and_expr, and_rest, not_expr,
  primary, extend_first, finish, is_paren, peeks, quantified, quantifier_or_selection, selection,
  starts_word, tail, take_set, result_of,
}
use aegis_ecosystem.Sigma.Condition.Total.{compile_condition-terminates}
use aegis_ecosystem.Sigma.Condition.Grammar.{
  Disjunction, or_last, or_more, and_last, plain, negated, name, or_tokens, or_holds, OrValid,
}
use aegis_ecosystem.Sigma.Condition.Grammar.Parsing.{parse-holds}
use aegis_ecosystem.Sigma.Selection.{
  text, names_of, EventType, fields, Detection, Rule, compile_detection, executable, add_selection,
  build_field, build_fields, build_selection, build_selections, collect, compile_text,
  condition_text, finish_fields, is_null_field, split_field, with_condition,
}
use aegis_ecosystem.Sigma.Selection.Complete.{results, meant, compile_detection_complete}
use aegis_ecosystem.Sigma.Engine.{Origin, SigmaRule, fires, logsource_matches}
use aegis_ecosystem.Sigma.Engine.Firing.{fires-detection}

-- Floats that read no text, and networks that hold no address.
abbrev pub library : Library
library = record {
  Float = ℕ;
  parse_float = λ s. none;
  lt = ltb;
  le = leb;
  re_search = λ cased pattern target. false;
  in_network = λ target pattern. false;
}

-- Events as their fields.
abbrev type : EventType
type = record {
  Event = Dict Text Text;
  get_values = λ event field. elim (lookup field event) [ none ↦ [] | some v ↦ scalar v ∷ [] ];
  has_field = λ event field. elim (lookup field event) [ none ↦ false | some v ↦ true ];
  searchable_text = λ event. [];
  raw = λ event. [];
}

compile_condition-terminates_example :
    compile_condition (codes "((a or not") (codes "a" ∷ []) ≢ out_of_fuel
compile_condition-terminates_example =
    compile_condition-terminates (codes "((a or not") (codes "a" ∷ [])

-- a or not b
abbrev a_or_not_b : Disjunction
a_or_not_b =
    or_more (and_last (plain (name (codes "a"))))
      (or_last (and_last (negated (plain (name (codes "b"))))))

abbrev names : List Text
names = codes "a" ∷ codes "b" ∷ []

parse-holds_example :
    (c : Condition) × (parse names (or_tokens a_or_not_b) ≡ ok c)
    × ((s : Results) → c s ≡ or_holds names s a_or_not_b)
unfolding OrValid quantifier_of member text_eq lower
parse-holds_example = parse-holds names a_or_not_b ((refl, refl, refl), (refl, refl, refl))

abbrev bob : Detection library type
bob = record {
  selections = (codes "sel", fields ((codes "user", one (codes "bob")) ∷ [])) ∷ [];
  condition = text (codes "not sel");
}

abbrev bob_rule : Rule library type
bob_rule = elim (compile_detection library type bob) [
  | ok r ↦ r
  | value_error ↦ record { selections = []; condition = none; unsupported = [] }
  | index_error ↦ record { selections = []; condition = none; unsupported = [] }
  | out_of_fuel ↦ record { selections = []; condition = none; unsupported = [] }
]

bob-compiles : compile_detection library type bob ≡ ok bob_rule
unfolding close or_expr or_rest and_expr and_rest not_expr primary compile_tokens extend_first
    finish is_paren parse peeks quantified quantifier_of quantifier_or_selection selection
    starts_word tail take_set tokenize compile_condition result_of add_selection build_field
    build_fields build_selection build_selections collect compile_detection compile_text
    condition_text executable finish_fields is_null_field split_field with_condition
    compile_field_match compile_known unknown_modifiers member text_eq lower lower_char is_space
    strip lstrip rstrip
bob-compiles = refl

bob-executable : executable library type bob_rule ≡ true
unfolding close or_expr or_rest and_expr and_rest not_expr primary compile_tokens extend_first
    finish is_paren parse peeks quantified quantifier_of quantifier_or_selection selection
    starts_word tail take_set tokenize compile_condition result_of add_selection build_field
    build_fields build_selection build_selections collect compile_detection compile_text
    condition_text executable finish_fields is_null_field split_field with_condition
    compile_field_match compile_known unknown_modifiers member text_eq lower lower_char is_space
    strip lstrip rstrip
bob-executable = refl

compile_detection_complete_example :
    results library type bob_rule.selections ((codes "user", codes "bob") ∷ [])
    ≡ meant library type bob.selections ((codes "user", codes "bob") ∷ [])
compile_detection_complete_example =
    compile_detection_complete library type bob bob_rule bob-compiles bob-executable
      ((codes "user", codes "bob") ∷ [])

abbrev origin : Origin
origin = record {
  source_type = codes "syslog";
  source = [];
  event_type = [];
  channel = [];
  service = [];
  zeek_log = [];
}

abbrev not_bob : Disjunction
not_bob = or_last (and_last (negated (plain (name (codes "sel")))))

abbrev sigma_rule : SigmaRule library type
sigma_rule = record {
  id = codes "r";
  title = [];
  level = codes "high";
  description = [];
  tags = [];
  logsource = (codes "product", codes "linux") ∷ [];
  rule = bob_rule;
}

fires-detection_example : fires library type origin sigma_rule [] ≡ (
    logsource_matches sigma_rule.logsource origin
    && or_holds
        (names_of library type sigma_rule.rule.selections)
        (meant library type bob.selections [])
        not_bob)
unfolding close or_expr or_rest and_expr and_rest not_expr primary compile_tokens extend_first
    finish is_paren parse peeks quantified quantifier_of quantifier_or_selection selection
    starts_word tail take_set tokenize compile_condition result_of add_selection build_field
    build_fields build_selection build_selections collect compile_detection compile_text
    condition_text executable finish_fields is_null_field split_field with_condition
    compile_field_match compile_known unknown_modifiers member text_eq lower lower_char is_space
    strip lstrip rstrip or_tokens OrValid
fires-detection_example =
    fires-detection library type bob not_bob sigma_rule origin [] bob-compiles bob-executable refl
      (refl, refl, refl)
