-- ===== src/Tests/Threats.antt =====
-- Runs of the heuristic engine, of the static rules' edit distance and of the alert policy.
use aegis_ecosystem.Prelude.{
  Text, leb, ◌≡◌, refl, true, ◌&&◌, not, none, some, [], ◌∷◌, any, codes, text_eq, eq_text, member,
  lower, strip, contains, starts_with, replace_char,
}
use aegis_ecosystem.Json.{Fields, text, array, object, nil, end, field, null, get_field}
use aegis_ecosystem.Heuristic.Conditions.{
  CustomRule, Library, text_value, items_of_conditions, is_or, get_or, has_key, text_or_none,
  evaluate_custom, check_whitelist, match_rule, match_conditions, all_conditions,
}
use aegis_ecosystem.Heuristic.Analysis.{
  RuleResult, StaticRule, analyze, allowlisted_and_safe, process_name_of, static_results,
  stamp_result, run_custom, conclude,
}
use aegis_ecosystem.Heuristic.Verdict.{FirstHeaviest, Speaks, matched, analyze-FirstHeaviest}
use aegis_ecosystem.Heuristic.Effects.{analyze-is_threat}
use aegis_ecosystem.StaticRules.{lev, rows, fill, range_from, last_entry}
use aegis_ecosystem.StaticRules.Distance.{edit_distance, lev-edit_distance}
use aegis_ecosystem.Sigma.Engine.{upper}
use aegis_ecosystem.Suppression.{
  triggered_rules, is_canary_rule, canary_rule_ids, split_commas, is_signed_verified,
}
use aegis_ecosystem.Suppression.Kept.{triggered_rules-filter}
use aegis_ecosystem.Heuristic.Regexes.{
  nested_quantifier, mark_of, unbounded, is_regex_safe, mark_complex,
}
use aegis_ecosystem.Heuristic.Nesting.{Regex, nothing, character, operator, group, plus}

-- Every regex is found in every text that holds it.
abbrev library : Library
library = record { search = λ pattern value. some (contains pattern value); str = text_or_none }

abbrev event : Fields
event = field (codes "process_name") (text (codes "updater.exe")) (
    field (codes "process_path") (text (codes "C:\\Temp\\updater.exe"))
      (field (codes "command_line") (text (codes "mimikatz")) end))

abbrev found : RuleResult
found = record {
  triggered = true;
  severity = codes "HIGH";
  description = codes "found";
  mitre_tactic_id = none;
  mitre_tactic = none;
  mitre_technique = none;
  mitre_technique_id = none;
  rule_id = codes "custom";
  version = codes "1.0";
  confidence = codes "medium";
}

abbrev always : StaticRule
always = record {
  fn = λ e. some found;
  rule_id = codes "S1";
  version = codes "1.0";
  confidence = codes "high";
}

abbrev broken : StaticRule
broken = record {
  fn = λ e. none;
  rule_id = codes "S2";
  version = codes "1.0";
  confidence = codes "high";
}

abbrev mimikatz : CustomRule
mimikatz = record {
  name = codes "m";
  target_field = codes "commandLine";
  pattern = codes "mimi";
  severity = codes "CRITICAL";
  mitre_tactic = none;
  mitre_technique = none;
  mitre_technique_id = none;
  conditions = null;
  whitelist = null;
  auto_remediation = [];
  trigger_count = 4;
}

analyze-FirstHeaviest_example :
    (worst : RuleResult) × FirstHeaviest worst
      (analyze library (λ r. true) (always ∷ []) event (some (mimikatz ∷ []))).0.triggered_rules
    × Speaks (analyze library (λ r. true) (always ∷ []) event (some (mimikatz ∷ []))).0 worst
unfolding analyze allowlisted_and_safe process_name_of text_or_none text_value get_field member
    text_eq lower strip starts_with static_results conclude run_custom replace_char
analyze-FirstHeaviest_example =
    analyze-FirstHeaviest library (λ r. true) (always ∷ []) event (some (mimikatz ∷ [])) refl

analyze-is_threat_example :
    (analyze library (λ r. true) [] event (some (mimikatz ∷ []))).0.is_threat
    ≡ (not (allowlisted_and_safe event) && any (matched library event) (mimikatz ∷ []))
analyze-is_threat_example = analyze-is_threat library (λ r. true) [] event (some (mimikatz ∷ []))

-- S004 on a signed program, and a rule that is not noisy.
abbrev signed : Fields
signed = field (codes "signature") (text (codes "Authenticode-Trusted")) event

abbrev path_rule : StaticRule
path_rule = record {
  fn = λ e. some found;
  rule_id = codes "AEGIS-S004";
  version = codes "1.0";
  confidence = codes "medium";
}

triggered_rules-filter_example :
    triggered_rules (codes "S7, S8") (path_rule ∷ always ∷ broken ∷ []) signed
    ≡ record found { rule_id = codes "S1"; confidence = codes "high" } ∷ []
unfolding static_results stamp_result is_canary_rule canary_rule_ids split_commas is_signed_verified
    text_or_none text_value get_field text_eq member lower strip upper
triggered_rules-filter_example =
    triggered_rules-filter (codes "S7, S8") (path_rule ∷ always ∷ broken ∷ []) signed

-- {"conditions": []}
abbrev everything : CustomRule
everything = record mimikatz { conditions = object (field (codes "conditions") (array nil) end) }

everything_matches : matched library event everything ≡ true
unfolding evaluate_custom check_whitelist match_rule match_conditions all_conditions
    items_of_conditions is_or get_or has_key get_field text_value text_eq
everything_matches = refl

abbrev impostor : Text
impostor = codes "svch0st"

lev-edit_distance_example :
    leb (lev impostor (codes "svchost")) 1 ≡ leb (edit_distance impostor (codes "svchost")) 1
lev-edit_distance_example = lev-edit_distance impostor (codes "svchost")

impostor_near : lev impostor (codes "svchost") ≡ 1
unfolding lev rows fill range_from last_entry text_eq
impostor_near = refl

-- (a+)+
abbrev nested : Regex
nested = group (character b'a' (operator plus nothing)) (operator plus nothing)

-- ((a+))+ is accepted, and (a|b) is refused.
wrapped : is_regex_safe (λ s. none) (codes "((a+))+") ≡ none
unfolding is_regex_safe mark_of unbounded mark_complex
wrapped = refl

harmless : is_regex_safe (λ s. none) (codes "(a|b)") ≡ some nested_quantifier
unfolding is_regex_safe mark_of unbounded mark_complex
harmless = refl
