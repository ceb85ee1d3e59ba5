-- ===== src/Tests/Documents.antt =====
-- Runs of the construction of correlation rules.
use aegis_ecosystem.Prelude.{
  ◌≤◌, ◌≡◌, refl, true, [], ◌∷◌, Text, codes, text_eq, lower, lower_char, strip, lstrip, rstrip,
  is_space, member, eq_text,
}
use aegis_ecosystem.Redis.Memory.{memory_redis}
use aegis_ecosystem.Sigma.Matcher.{
  Value, scalar, many, one, compile_field_match, compile_known, unknown_modifiers,
}
use aegis_ecosystem.Sigma.Selection.{EventType, split_field, collect}
use aegis_ecosystem.Correlation.{executable}
use aegis_ecosystem.Correlation.Rules.{CorrelationRule}
use aegis_ecosystem.Correlation.Build.{
  entries, Step, step_list, number, missing, RuleDoc, rule_of, build_rule, type_of, match_field,
  match_fields, finish_match, compile_match, matcher_or_never, step_matchers, sequence_matchers,
  matchers_of,
}
use aegis_ecosystem.Correlation.Build.Sound.{
  IsShaped, verdicts, meanings, blocks_of, build_rule-verdicts,
}
use aegis_ecosystem.Tests.Rules.{library}

-- Events are a user's name.
abbrev type : EventType
type = record {
  Event = Text;
  get_values = λ event field. scalar event ∷ [];
  has_field = λ event field. true;
  searchable_text = λ event. event;
  raw = λ event. [];
}

abbrev render : Value → Text
render v = elim v [ scalar s ↦ s | many ss ↦ [] ]

abbrev step : Step
step = record { match = entries ((codes "user", one (codes "bob")) ∷ []); count = 3 }

-- bob three times, then bob again.
abbrev doc : RuleDoc
doc = record {
  title = codes "bob";
  id = codes "b";
  type_name = codes "Sequence";
  group_by = [];
  threshold = missing;
  window_seconds = number 60;
  source_types = [];
  match = entries [];
  steps = step_list (step ∷ step ∷ []);
}

abbrev rule : CorrelationRule Text
rule = rule_of library type (λ s. s) doc

rule-executable : executable memory_redis type render rule ≡ true
unfolding executable rule_of matchers_of type_of sequence_matchers step_matchers compile_match
    match_fields match_field finish_match split_field collect compile_field_match compile_known
    unknown_modifiers member text_eq lower lower_char strip lstrip rstrip is_space matcher_or_never
rule-executable = refl

build_rule-verdicts_example :
    (1 ≤ rule.needed)
    × (1 ≤ rule.window_seconds)
    × IsShaped library type rule.rule_type rule.counts rule.matchers
    × ((event : Text)
        → verdicts library type rule.matchers event
          ≡ meanings library type (blocks_of library type rule.rule_type doc) event)
unfolding build_rule
build_rule-verdicts_example =
    build_rule-verdicts library type (λ s. s) doc memory_redis render rule refl rule-executable
