-- ===== src/Correlation/Rules.antt =====
-- The rules, matches and Redis keys of the correlation engine, `CorrelationRule` and
-- `CorrelationMatch` of aegis-brain/app/services/correlation.py with the keys that
-- `_eval_threshold` and `_eval_sequence` write out.
use aegis_ecosystem.Prelude.{ℕ, zero, suc, Bool, List, [], ◌∷◌, ◌++◌, Text, codes, decimal}
use aegis_ecosystem.Sigma.Matcher.{Problem}

pub data RuleType : Type 0 where
  threshold sequence unknown : RuleType

-- The fields that the evaluation reads; `counts` has `int(step.get("count", 1) or 1)` of each step.
pub record CorrelationRule (Event : Type 0) : Type 0 where
  pub id : Text
  pub rule_type : RuleType
  pub group_by : List Text
  pub needed : ℕ
  pub window_seconds : ℕ
  pub source_types : List Text
  pub counts : List ℕ
  pub matchers : List (Event → Bool)
  pub unsupported : List Problem

pub record CorrelationMatch : Type 0 where
  pub rule_id : Text
  pub group_key : Text
  pub observed : ℕ
  pub window_seconds : ℕ

-- f"corr:{rule.id}:{group_key}:{index}", f"corr-fired:…", f"corr-armed:…"
unfoldable pub counter_key : Text → Text → Text → Text
counter_key id group index = codes "corr:" ++ (id ++ (codes ":" ++ (group ++ (codes ":" ++ index))))

unfoldable pub fired_key : Text → Text → Text → Text
fired_key id group index =
    codes "corr-fired:" ++ (id ++ (codes ":" ++ (group ++ (codes ":" ++ index))))

unfoldable pub armed_key : Text → Text → Text → Text
armed_key id group index =
    codes "corr-armed:" ++ (id ++ (codes ":" ++ (group ++ (codes ":" ++ index))))

-- f"{index - 1}"
unfoldable pub previous : ℕ → Text
previous zero = codes "-1"
previous (suc n) = decimal n

-- `int(rule.steps[index].get("count", 1) or 1)`
unfoldable pub needed_at : List ℕ → ℕ → ℕ
needed_at [] i = 1
needed_at (zero ∷ cs) zero = 1
needed_at (suc c ∷ cs) zero = suc c
needed_at (c ∷ cs) (suc i) = needed_at cs i
