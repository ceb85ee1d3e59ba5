-- ===== src/Heuristic/Analysis.antt =====
-- `HeuristicEngine.analyze` of aegis-brain/app/rules/heuristic_engine.py, with `stamp_result` of
-- aegis-brain/app/rules/rule_definitions.py. The static rules are an argument, as functions that
-- answer or raise (`none`), each with its entry of the registry; the custom rules are those that the
-- database holds as active, `none` where there is no database or the query raises.
use aegis_ecosystem.Prelude.{
  ℕ, suc, Bool, true, false, not, ◌&&◌, ◌||◌, Option, none, some, List, [], ◌∷◌, ◌++◌, Text, codes,
  lower, strip, replace_char, starts_with, member, any, length, ltb, if◌then◌else◌, is_nil, ◌==◌,
  eq_text,
}
use aegis_ecosystem.Prelude.Dict.{Dict, lookup}
use aegis_ecosystem.Json.{Fields, text, get_field}
use aegis_ecosystem.Heuristic.Conditions.{
  CustomRule, Library, get_or, text_or_none, evaluate_custom,
}

pub record RuleResult : Type 0 where
  pub triggered : Bool
  pub severity : Text
  pub description : Text
  pub mitre_tactic_id : Option Text
  pub mitre_tactic : Option Text
  pub mitre_technique : Option Text
  pub mitre_technique_id : Option Text
  pub rule_id : Text
  pub version : Text
  pub confidence : Text

pub record StaticRule : Type 0 where
  pub fn : Fields → Option RuleResult
  pub rule_id : Text
  pub version : Text
  pub confidence : Text

pub record AnalysisResult : Type 0 where
  pub is_threat : Bool
  pub severity : Text
  pub description : Text
  pub rule_count : ℕ
  pub mitre_tactic : Option Text
  pub mitre_technique : Option Text
  pub mitre_technique_id : Option Text
  pub triggered_rules : List RuleResult
  pub auto_remediation : Option Text

-- `AnalysisResult.__init__`
abbrev pub no_threat : AnalysisResult
no_threat = record {
  is_threat = false;
  severity = codes "LOW";
  description = [];
  rule_count = 0;
  mitre_tactic = none;
  mitre_technique = none;
  mitre_technique_id = none;
  triggered_rules = [];
  auto_remediation = none;
}

abbrev pub always_allow_process_names : List Text
always_allow_process_names =
    codes "updater.exe"
    ∷ codes "update.exe"
    ∷ codes "chrome_updater.exe"
    ∷ codes "firefox_updater.exe"
    ∷ codes "msedge_updater.exe"
    ∷ codes "brave_updater.exe"
    ∷ codes "opera_autoupdate.exe"
    ∷ codes "sophosupdate.exe"
    ∷ codes "sophosupdater.exe"
    ∷ []

abbrev pub allow_safe_path_prefixes : List Text
allow_safe_path_prefixes =
    codes "c:/program files/"
    ∷ codes "c:/program files (x86)/"
    ∷ codes "c:/windows/system32/"
    ∷ codes "c:/windows/syswow64/"
    ∷ codes "/usr/bin/"
    ∷ codes "/bin/"
    ∷ codes "/opt/"
    ∷ []

-- `getattr(event, "process_name", None) or getattr(event, "name", None) or ""`
unfoldable pub process_name_of : Fields → Text
unfolding text_or_none
process_name_of event = elim (text_or_none (get_field (codes "process_name") event)) [
  | [] ↦ text_or_none (get_field (codes "name") event)
  | c ∷ s ↦ c ∷ s
]

-- `_allowlisted_and_safe`
unfoldable pub allowlisted_and_safe : Fields → Bool
unfolding process_name_of
allowlisted_and_safe event =
    member (strip (lower (process_name_of event))) always_allow_process_names
    && (let path =
          lower (replace_char b'\\' b'/' (text_or_none (get_field (codes "process_path") event))) in
        any (λ prefix. starts_with prefix path) allow_safe_path_prefixes)

-- `SEVERITY_WEIGHT.get(r.severity, 0)`
abbrev pub severity_weight : Dict Text ℕ
severity_weight =
    (codes "LOW", 1) ∷ (codes "MEDIUM", 2) ∷ (codes "HIGH", 3) ∷ (codes "CRITICAL", 4) ∷ []

unfoldable pub weight : RuleResult → ℕ
weight r = elim (lookup r.severity severity_weight) [ none ↦ 0 | some n ↦ n ]

-- `stamp_result`
unfoldable pub stamp_result : StaticRule → RuleResult → RuleResult
stamp_result rule r =
    if is_nil r.rule_id || r.rule_id == codes "custom"
    then record r {
      rule_id = rule.rule_id;
      version = rule.version;
      confidence = if r.confidence == codes "medium" then rule.confidence else r.confidence;
    }
    else r

-- the loop over the static rules; a rule that raises is passed over
unfoldable pub static_results : List StaticRule → Fields → List RuleResult
unfolding stamp_result
static_results [] event = []
static_results (rule ∷ rules) event =
    let rest = static_results rules event in
    elim (rule.fn event) [
      | none ↦ rest
      | some r ↦ if r.triggered then stamp_result rule r ∷ rest else rest
    ]

-- `max(..., key=weight)`: the first of the heaviest
unfoldable pub worst_of : RuleResult → List RuleResult → RuleResult
unfolding weight
worst_of r [] = r
worst_of r (s ∷ rs) = if ltb (weight r) (weight s) then worst_of s rs else worst_of r rs

-- What the loop over the custom rules has made so far.
pub record Custom : Type 0 where
  pub triggered : List RuleResult
  pub rules : List CustomRule
  pub auto_remediation : Option Text

module _ (library : Library) where
  unfoldable pub custom_result : Fields → CustomRule → RuleResult
  unfolding get_or
  custom_result event rule = record {
    triggered = true;
    severity = rule.severity;
    description =
        codes "[CUSTOM RULE: "
        ++ (rule.name
            ++ (codes "] Match on "
                ++ (rule.target_field
                    ++ (codes "='"
                        ++ (library.str (get_or rule.target_field (text []) event)
                            ++ codes "'")))));
    mitre_tactic_id = none;
    mitre_tactic = rule.mitre_tactic;
    mitre_technique = rule.mitre_technique;
    mitre_technique_id = rule.mitre_technique_id;
    rule_id = codes "custom";
    version = codes "1.0";
    confidence = codes "medium";
  }

  -- `updates` says whether the update of the rule's counter succeeds; if not it raises
  module _ (updates : CustomRule → Bool) where
    unfoldable pub counted : Fields → CustomRule → CustomRule
    unfolding evaluate_custom
    counted event rule = elim (evaluate_custom library event rule) [
      | none ↦ rule
      | some false ↦ rule
      | some true ↦
          if updates rule then record rule { trigger_count = suc rule.trigger_count } else rule
    ]

    unfoldable pub remediation_after : Fields → CustomRule → Option Text → Option Text
    unfolding evaluate_custom
    remediation_after event rule so_far = elim (evaluate_custom library event rule) [
      | none ↦ so_far
      | some false ↦ so_far
      | some true ↦
          if updates rule && not (is_nil rule.auto_remediation)
          then some rule.auto_remediation
          else so_far
    ]

    -- the loop over the custom rules; a rule that raises is passed over
    unfoldable pub run_custom : Fields → List CustomRule → Option Text → Custom
    unfolding custom_result counted remediation_after
    run_custom event [] so_far = record { triggered = []; rules = []; auto_remediation = so_far }
    run_custom event (rule ∷ rules) so_far =
        let rest = run_custom event rules (remediation_after event rule so_far) in
        record rest {
          triggered = elim (evaluate_custom library event rule) [
            | none ↦ rest.triggered
            | some false ↦ rest.triggered
            | some true ↦ custom_result event rule ∷ rest.triggered
          ];
          rules = counted event rule ∷ rest.rules;
        }

    -- from `if not triggered_rules` on
    unfoldable pub conclude : List RuleResult → Option Text → AnalysisResult
    unfolding worst_of
    conclude [] auto_remediation = no_threat
    conclude (r ∷ rs) auto_remediation =
        let worst = worst_of r rs in
        record {
          is_threat = true;
          severity = worst.severity;
          description = worst.description;
          rule_count = length (r ∷ rs);
          mitre_tactic = worst.mitre_tactic;
          mitre_technique = worst.mitre_technique;
          mitre_technique_id = worst.mitre_technique_id;
          triggered_rules = r ∷ rs;
          auto_remediation = auto_remediation;
        }

    -- `analyze`, with the custom rules as it leaves them
    unfoldable pub analyze :
        List StaticRule
        → Fields
        → Option (List CustomRule)
        → AnalysisResult × Option (List CustomRule)
    unfolding conclude run_custom static_results allowlisted_and_safe
    analyze rules event db = if allowlisted_and_safe event then (no_threat, db) else elim db [
      | none ↦ (conclude (static_results rules event) none, none)
      | some custom ↦
          let ran = run_custom event custom none in
          (
            conclude (static_results rules event ++ ran.triggered) ran.auto_remediation,
            some ran.rules,
          )
    ]
