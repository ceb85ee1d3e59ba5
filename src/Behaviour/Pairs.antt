-- ===== src/Behaviour/Pairs.antt =====
-- Processes that should not start each other, SUSPICIOUS_PARENT_CHILD of
-- aegis-brain/app/rules/rule_definitions.py with the static rule S002, rule_suspicious_parent_child,
-- and the pairs of stems that aegis-brain/app/rules/correlation_engine.py makes of the table.
mod Table
pub use Table.*
use aegis_ecosystem.Prelude.{
  Bool, true, false, ◌&&◌, ◌||◌, Option, none, some, List, [], ◌∷◌, ◌++◌, Text, codes, lower, strip,
  replace_char, any, nat_eq, is_nil, if◌then◌else◌, ◌==◌, eq_text,
}
use aegis_ecosystem.Heuristic.Analysis.{RuleResult}
use aegis_ecosystem.Behaviour.{Event}

-- `n.rsplit("/", 1)[-1]`
unfoldable pub last_part : Text → Text
last_part [] = []
last_part (c ∷ s) =
    let rest = last_part s in
    if any (nat_eq b'/') s then rest else if nat_eq c b'/' then s else c ∷ s

-- `_base`
unfoldable pub base : Text → Text
unfolding last_part
base name = last_part (replace_char b'\\' b'/' (strip (lower name)))

-- the text without the ending, if it ends with it
unfoldable pub strip_suffix : Text → Text → Option Text
strip_suffix ending [] = if is_nil ending then some [] else none
strip_suffix ending (c ∷ s) =
    let rest = strip_suffix ending s in
    if (c ∷ s) == ending then some [] else elim rest [ none ↦ none | some t ↦ some (c ∷ t) ]

-- the loop over the extensions, which ends at the first that fits
unfoldable pub without_extension : List Text → Text → Text
unfolding strip_suffix
without_extension [] b = b
without_extension (ext ∷ exts) b =
    let rest = without_extension exts b in elim (strip_suffix ext b) [ none ↦ rest | some t ↦ t ]

abbrev pub programs : List Text
programs = codes ".exe" ∷ codes ".com" ∷ codes ".dll" ∷ []

abbrev pub scripts : List Text
scripts = codes ".bat" ∷ codes ".ps1" ∷ codes ".scr" ∷ []

-- `_stem` of the static rules
unfoldable pub rule_stem : Text → Text
unfolding without_extension base
rule_stem name = without_extension (programs ++ scripts) (base name)

-- `_stem` of the correlation
unfoldable pub stem : Text → Text
unfolding without_extension base
stem name = without_extension programs (base name)

-- `_proc_match`
unfoldable pub proc_match : Text → Text → Bool
unfolding rule_stem
proc_match name pattern = rule_stem name == rule_stem pattern

unfoldable pub triggered_by : Event → ParentChild → RuleResult
triggered_by event row = record {
  triggered = true;
  severity = row.severity;
  description =
      row.description
      ++ (codes "'"
          ++ (event.parent_process_name ++ (codes "' -> '" ++ (event.process_name ++ codes "'."))));
  mitre_tactic_id = some row.mitre_tactic_id;
  mitre_tactic = some row.mitre_tactic;
  mitre_technique = some row.mitre_technique;
  mitre_technique_id = some row.mitre_technique_id;
  rule_id = codes "custom";
  version = codes "1.0";
  confidence = codes "medium";
}

-- `RuleResult(triggered=False)`
abbrev pub not_triggered : RuleResult
not_triggered = record {
  triggered = false;
  severity = codes "LOW";
  description = [];
  mitre_tactic_id = none;
  mitre_tactic = none;
  mitre_technique = none;
  mitre_technique_id = none;
  rule_id = codes "custom";
  version = codes "1.0";
  confidence = codes "medium";
}

-- the loop over the table
unfoldable pub first_row : Event → List ParentChild → RuleResult
unfolding proc_match triggered_by
first_row event [] = not_triggered
first_row event (row ∷ rows) =
    let rest = first_row event rows in
    if any (proc_match event.parent_process_name) row.parents
      && any (proc_match event.process_name) row.children
    then triggered_by event row
    else rest

-- `rule_suspicious_parent_child`
unfoldable pub rule_suspicious_parent_child : Event → RuleResult
unfolding first_row
rule_suspicious_parent_child event =
    if is_nil event.parent_process_name || is_nil event.process_name
    then not_triggered
    else first_row event suspicious_parent_child

-- `(parent, child) in watched`
unfoldable pub is_watched : Text → Text → Bool
unfolding stem
is_watched parent child =
    any (λ row. any (λ p. stem p == parent) row.parents && any (λ c. stem c == child) row.children)
      suspicious_parent_child
