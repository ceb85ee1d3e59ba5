-- ===== src/Heuristic/Effects.antt =====
-- When an analysis finds a threat, which counters it moves, and a custom rule that matches all.
use aegis_ecosystem.Prelude.{
  suc, ◌≡◌, refl, ◌∙◌, ap, Bool, true, false, not, ◌&&◌, ◌||◌, Option, none, some, List, [], ◌∷◌,
  ◌++◌, map, arith, Text, codes, any, is_nil, if◌then◌else◌, Bool-cases, Option-cases, inl, inr,
}
use aegis_ecosystem.Json.{Json, Fields, object, nil, field, array, text, null, get_field}
use aegis_ecosystem.Heuristic.Conditions.{
  CustomRule, Library, get_or, items_of_conditions, is_or, all_conditions, match_conditions,
  match_rule, check_whitelist, text_or_none, evaluate_custom,
}
use aegis_ecosystem.Heuristic.Analysis.{
  StaticRule, allowlisted_and_safe, static_results, counted, remediation_after, run_custom, analyze,
}
use aegis_ecosystem.Heuristic.Verdict.{
  fires, matched, active, static_results-any, conclude-is_threat,
}

not_nil-append :
    {A : Type 0} (xs ys : List A) → not (is_nil (xs ++ ys)) ≡ (not (is_nil xs) || not (is_nil ys))
not_nil-append [] ys = refl
not_nil-append (x ∷ xs) ys = refl

module _ (library : Library) (updates : CustomRule → Bool) where
  run_custom-any :
      (event : Fields) (rules : List CustomRule) (so_far : Option Text)
      → not (is_nil (run_custom library updates event rules so_far).triggered)
        ≡ any (matched library event) rules
  unfolding run_custom
  run_custom-any event [] so_far = refl
  run_custom-any event (rule ∷ rules) so_far =
      let rest = run_custom-any event rules (remediation_after library updates event rule so_far) in
      elim (evaluate_custom library event rule)
          as (λ o.
            evaluate_custom library event rule ≡ o
            → not (is_nil (run_custom library updates event (rule ∷ rules) so_far).triggered)
              ≡ any (matched library event) (rule ∷ rules)) [
                | none ↦ λ e. rw (e, run_custom, matched) rest
                | some false ↦ λ e. rw (e, run_custom, matched) rest
                | some true ↦ λ e. rw (e, run_custom, matched) refl
              ]
        refl

  -- An event is a threat exactly when it is not allow-listed with a safe path and some static rule
  -- fires or some active custom rule matches; rules that raise do not count.
  pub analyze-is_threat :
      (rules : List StaticRule) (event : Fields) (db : Option (List CustomRule))
      → (analyze library updates rules event db).0.is_threat ≡ (
          not (allowlisted_and_safe event)
          && (any (fires event) rules || any (matched library event) (active db)))
  unfolding analyze
  analyze-is_threat rules event db = elim (Bool-cases (allowlisted_and_safe event)) [
    | inl allowed ↦ rw (allowed, analyze) refl
    | inr checked ↦ elim (Option-cases db) [
      | inl e ↦
          rw (checked, e, analyze)
            (ground (
              arith,
              conclude-is_threat library updates (static_results rules event) none,
              static_results-any rules event,
            ))
      | inr (custom, e) ↦
          let ran = run_custom library updates event custom none in
          rw (checked, e, analyze)
            (conclude-is_threat library updates (static_results rules event ++ ran.triggered)
                ran.auto_remediation
              ∙ (not_nil-append (static_results rules event) ran.triggered
                  ∙ rw (static_results-any rules event, run_custom-any event custom none) refl))
    ]
  ]

  -- A custom rule with its counter one further if it matched and its update succeeds.
  abbrev pub recounted : Fields → CustomRule → CustomRule
  recounted event rule =
      if matched library event rule && updates rule
      then record rule { trigger_count = suc rule.trigger_count }
      else rule

  counted-recounted :
      (event : Fields) (rule : CustomRule)
      → counted library updates event rule ≡ recounted event rule
  unfolding counted
  counted-recounted event rule =
      elim (evaluate_custom library event rule)
          as (λ o.
            evaluate_custom library event rule ≡ o
            → counted library updates event rule ≡ recounted event rule) [
              | none ↦ λ e. rw (e, counted, recounted, matched) refl
              | some false ↦ λ e. rw (e, counted, recounted, matched) refl
              | some true ↦ λ e. rw (e, counted, recounted, matched) refl
            ]
        refl

  run_custom-rules :
      (event : Fields) (rules : List CustomRule) (so_far : Option Text)
      → (run_custom library updates event rules so_far).rules ≡ map (recounted event) rules
  unfolding run_custom
  run_custom-rules event [] so_far = refl
  run_custom-rules event (rule ∷ rules) so_far =
      rw
        (
          counted-recounted event rule,
          run_custom-rules event rules (remediation_after library updates event rule so_far),
        )
        refl

  -- An analysis of an event that is not allow-listed leaves every active rule as it was, but that the
  -- counters of those that matched go up by one, where the update succeeds. A rule that raises, and
  -- the static rules, have no part in it.
  pub analyze-counts :
      (rules : List StaticRule) (event : Fields) (custom : List CustomRule)
      → (analyze library updates rules event (some custom)).1
        ≡ some (if allowlisted_and_safe event then custom else map (recounted event) custom)
  unfolding analyze
  analyze-counts rules event custom = elim (Bool-cases (allowlisted_and_safe event)) [
    | inl allowed ↦ rw (allowed, analyze) refl
    | inr checked ↦ rw (checked, analyze) (ap some (run_custom-rules event custom none))
  ]

module _ (library : Library) where
  -- A custom rule whose conditions hold no condition, that has no whitelist and asks for all of them,
  -- matches every event.
  pub matched_all :
      (rule : CustomRule) (k : Text) (v : Json) (fs : Fields) (event : Fields)
      → rule.whitelist ≡ null
      → rule.conditions ≡ object (field k v fs)
      → items_of_conditions (get_or (codes "conditions") (array nil) (field k v fs)) ≡ some nil
      → is_or (get_or (codes "logic") (text (codes "and")) (field k v fs)) ≡ false
      → matched library event rule ≡ true
  unfolding evaluate_custom check_whitelist match_rule match_conditions all_conditions
  matched_all rule k v fs event w c items logic =
      let hostname = text_or_none (get_field (codes "hostname") event) in
      let ip = text_or_none (get_field (codes "ip_address") event) in
      let open_to_all : check_whitelist rule.whitelist hostname ip ≡ some true =
        ap (λ x. check_whitelist x hostname ip) w in
      let every : match_conditions library event (field k v fs) ≡ some true =
        rw (items, match_conditions, logic) refl in
      let rule_matches : match_rule library event rule ≡ some true = rw (c, match_rule) every in
      rw (open_to_all, evaluate_custom, matched, rule_matches) refl
