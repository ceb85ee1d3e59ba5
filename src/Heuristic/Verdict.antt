-- ===== src/Heuristic/Verdict.antt =====
-- What an analysis says, and what it counts.
use aegis_ecosystem.Prelude.{
  ◌≤◌, ◌<◌, ◌≡◌, refl, sym, ◌∙◌, ap, Bool, true, false, not, Option, none, some, List, [], ◌∷◌,
  ◌++◌, arith, Text, any, All, ltb, is_nil, Bool-cases, Option-cases, inl, inr,
}
use mathlib.Core.List.{append-nil, append_assoc}
use aegis_ecosystem.Json.{Fields}
use aegis_ecosystem.Heuristic.Conditions.{CustomRule, Library, evaluate_custom}
use aegis_ecosystem.Heuristic.Analysis.{
  RuleResult, StaticRule, AnalysisResult, allowlisted_and_safe, weight, static_results, worst_of,
  run_custom, conclude, analyze,
}

-- Whether a static rule contributes to the verdict.
abbrev pub fires : Fields → StaticRule → Bool
fires event rule = elim (rule.fn event) [ none ↦ false | some r ↦ r.triggered ]

pub static_results-any :
    (rules : List StaticRule) (event : Fields)
    → not (is_nil (static_results rules event)) ≡ any (fires event) rules
unfolding static_results
static_results-any [] event = refl
static_results-any (rule ∷ rules) event =
    elim (rule.fn event)
        as (λ o.
          rule.fn event ≡ o
          → not (is_nil (static_results (rule ∷ rules) event)) ≡ any (fires event) (rule ∷ rules)) [
            | none ↦ λ e. rw (e, static_results, fires) (static_results-any rules event)
            | some r ↦
                λ e. rw (e, static_results, fires) (ground (arith, static_results-any rules event))
          ]
      refl

-- The first of the heaviest results.
abbrev pub FirstHeaviest : RuleResult → List RuleResult → Type 0
FirstHeaviest worst results =
    (before : List RuleResult) × (after : List RuleResult) × (results ≡ before ++ worst ∷ after)
    × All (λ r. weight r < weight worst) before
    × All (λ r. weight r ≤ weight worst) after

module _ {A : Type 0} where
  All-append : (P : A → Type 0) (xs ys : List A) → All P xs → All P ys → All P (xs ++ ys)
  All-append P [] ys a b = b
  All-append P (x ∷ xs) ys a b = (a.0, All-append P xs ys a.1 b)

  All-map : (P Q : A → Type 0) (xs : List A) → ((x : A) → P x → Q x) → All P xs → All Q xs
  All-map P Q [] f a = tt
  All-map P Q (x ∷ xs) f a = (f x a.0, All-map P Q xs f a.1)

-- the search, with what it has passed over in front of and behind the heaviest so far
worst_of-FirstHeaviest :
    (before middle : List RuleResult) (r : RuleResult) (rs : List RuleResult)
    → All (λ x. weight x < weight r) before
    → All (λ x. weight x ≤ weight r) middle
    → FirstHeaviest (worst_of r rs) (before ++ (r ∷ (middle ++ rs)))
unfolding worst_of
worst_of-FirstHeaviest before middle r [] b m =
    (before, middle, ap (λ xs. before ++ (r ∷ xs)) (append-nil middle), b, m)
worst_of-FirstHeaviest before middle r (s ∷ rs) b m =
    elim (Bool-cases (ltb (weight r) (weight s))) [
      | inl heavier ↦
          let below : weight r < weight s = ground arith in
          let (x, y, e, p, q) =
            worst_of-FirstHeaviest (before ++ r ∷ middle) [] s rs
              (All-append (λ x. weight x < weight s) before (r ∷ middle)
                (All-map (λ x. weight x < weight r) (λ x. weight x < weight s) before
                  (λ x h. omega (arith, below)) b)
                (
                  below,
                  All-map (λ x. weight x ≤ weight r) (λ x. weight x < weight s) middle
                      (λ x h. omega (arith, below)) m,
                ))
              tt in
          rw (heavier, worst_of) (x, y, sym (append_assoc before (r ∷ middle) (s ∷ rs)) ∙ e, p, q)
      | inr lighter ↦
          let below : weight s ≤ weight r = ground arith in
          let (x, y, e, p, q) =
            worst_of-FirstHeaviest before (middle ++ s ∷ []) r rs b
              (All-append (λ x. weight x ≤ weight r) middle (s ∷ []) m (below, tt)) in
          rw (lighter, worst_of)
            (x, y, ap (λ xs. before ++ (r ∷ xs)) (sym (append_assoc middle (s ∷ []) rs)) ∙ e, p, q)
    ]

-- The result speaks of one of its triggered rules.
abbrev pub Speaks : AnalysisResult → RuleResult → Type 0
Speaks result worst =
    (result.severity ≡ worst.severity)
    × (result.description ≡ worst.description)
    × (result.mitre_tactic ≡ worst.mitre_tactic)
    × (result.mitre_technique ≡ worst.mitre_technique)
    × (result.mitre_technique_id ≡ worst.mitre_technique_id)

-- Whether a custom rule matched.
abbrev pub matched : Library → Fields → CustomRule → Bool
matched library event rule = elim (evaluate_custom library event rule) [ none ↦ false | some b ↦ b ]

-- The active rules of the database, if it answered.
abbrev pub active : Option (List CustomRule) → List CustomRule
active none = []
active (some custom) = custom

module _ (library : Library) (updates : CustomRule → Bool) where
  conclude-worst :
      (results : List RuleResult) (auto : Option Text)
      → (conclude library updates results auto).is_threat ≡ true
      → (worst : RuleResult) × FirstHeaviest worst results
        × Speaks (conclude library updates results auto) worst
  unfolding conclude
  conclude-worst [] auto h = absurd (ground arith)
  conclude-worst (r ∷ rs) auto h =
      (worst_of r rs, worst_of-FirstHeaviest [] [] r rs tt tt, (refl, refl, refl, refl, refl))

  conclude-triggered :
      (results : List RuleResult) (auto : Option Text)
      → (conclude library updates results auto).triggered_rules ≡ results
  unfolding conclude
  conclude-triggered [] auto = refl
  conclude-triggered (r ∷ rs) auto = refl

  pub conclude-is_threat :
      (results : List RuleResult) (auto : Option Text)
      → (conclude library updates results auto).is_threat ≡ not (is_nil results)
  unfolding conclude
  conclude-is_threat [] auto = refl
  conclude-is_threat (r ∷ rs) auto = refl

  conclude-Worst :
      (results : List RuleResult) (auto : Option Text)
      → (conclude library updates results auto).is_threat ≡ true
      → (worst : RuleResult) × FirstHeaviest worst
          (conclude library updates results auto).triggered_rules
        × Speaks (conclude library updates results auto) worst
  conclude-Worst results auto h =
      let (worst, first, speaks) = conclude-worst results auto h in
      (worst, rw (conclude-triggered results auto) first, speaks)

  -- A threat has the severity, the description and the technique of the first of its triggered rules
  -- that no other outweighs.
  pub analyze-FirstHeaviest :
      (rules : List StaticRule) (event : Fields) (db : Option (List CustomRule))
      → (analyze library updates rules event db).0.is_threat ≡ true
      → (worst : RuleResult) × FirstHeaviest worst
          (analyze library updates rules event db).0.triggered_rules
        × Speaks (analyze library updates rules event db).0 worst
  unfolding analyze
  analyze-FirstHeaviest rules event db h = elim (Bool-cases (allowlisted_and_safe event)) [
    | inl allowed ↦ absurd (let bad = rw (allowed, analyze) at h in ground arith)
    | inr checked ↦ elim (Option-cases db) [
      | inl e ↦
          rw (checked, e, analyze)
            (conclude-Worst (static_results rules event) none (rw (checked, e, analyze) at h))
      | inr (custom, e) ↦
          let ran = run_custom library updates event custom none in
          rw (checked, e, analyze)
            (conclude-Worst (static_results rules event ++ ran.triggered) ran.auto_remediation
              (rw (checked, e, analyze) at h))
    ]
  ]
