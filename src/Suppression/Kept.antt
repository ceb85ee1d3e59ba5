-- ===== src/Suppression/Kept.antt =====
-- What the policy leaves of the results of the static rules.
use aegis_ecosystem.Prelude.{
  ◌≡◌, refl, ap, Bool, true, false, not, ◌&&◌, ◌||◌, none, some, List, [], ◌∷◌, filter, arith, Text,
  codes, member, if◌then◌else◌, ◌==◌, ==_iff, eq_text, text_eq, Bool-cases, inl, inr,
}
use aegis_ecosystem.Json.{Fields}
use aegis_ecosystem.Heuristic.Analysis.{RuleResult, StaticRule, stamp_result, static_results}
use aegis_ecosystem.Suppression.{
  trusted_suppress_rule_ids, is_signed_verified, should_skip_trusted_noisy_rule,
  should_skip_known_signed_app_path, is_canary_rule, weighed, is_suppressed, triggered_rules,
}

-- Whether the rule is noisy on signed programs, and the event is of one.
abbrev pub is_trusted_noise : Fields → RuleResult → Bool
is_trusted_noise event r = is_signed_verified event && member r.rule_id trusted_suppress_rule_ids

paths_are_noise :
    (rule_id : Text)
    → (rule_id == codes "AEGIS-S004" || rule_id == codes "AEGIS-S014") ≡ true
    → member rule_id trusted_suppress_rule_ids ≡ true
unfolding member text_eq
paths_are_noise rule_id h = elim (Bool-cases (rule_id == codes "AEGIS-S004")) [
  | inl e ↦ rw ((==_iff rule_id (codes "AEGIS-S004")).0 e) refl
  | inr e ↦
      let other : (rule_id == codes "AEGIS-S014") ≡ true = rw e at h in
      rw ((==_iff rule_id (codes "AEGIS-S014")).0 other) refl
]

noise-is_suppressed :
    (raw : Text) (event : Fields) (r : RuleResult)
    → is_trusted_noise event r ≡ true
    → is_suppressed raw event (weighed event r) ≡ true
unfolding is_suppressed weighed should_skip_trusted_noisy_rule text_eq
noise-is_suppressed raw event r h = rw (h, weighed) (ground arith)

other-is_suppressed :
    (raw : Text) (event : Fields) (r : RuleResult)
    → is_trusted_noise event r ≡ false
    → is_suppressed raw event r ≡ is_canary_rule raw r.rule_id
unfolding is_suppressed should_skip_trusted_noisy_rule should_skip_known_signed_app_path
other-is_suppressed raw event r h = let paths = paths_are_noise r.rule_id in ground arith

abbrev pub is_kept : Text → Fields → RuleResult → Bool
is_kept raw event r = not (is_canary_rule raw r.rule_id || is_trusted_noise event r)

other-weighed :
    (event : Fields) (r : RuleResult) → is_trusted_noise event r ≡ false → weighed event r ≡ r
unfolding weighed
other-weighed event r h = rw (h, weighed) refl

one-filter :
    (raw : Text) (event : Fields) (r : RuleResult) (kept all_results : List RuleResult)
    → kept ≡ filter (is_kept raw event) all_results
    → (if is_suppressed raw event (weighed event r) then kept else weighed event r ∷ kept)
      ≡ filter (is_kept raw event) (r ∷ all_results)
one-filter raw event r kept all_results h = elim (Bool-cases (is_trusted_noise event r)) [
  | inl noise ↦
      let dropped : is_kept raw event r ≡ false = ground arith in
      rw (noise-is_suppressed raw event r noise, dropped) h
  | inr other ↦
      rw (other-weighed event r other, other-is_suppressed raw event r other)
        (elim (Bool-cases (is_canary_rule raw r.rule_id)) [
          | inl canary ↦ rw canary h
          | inr live ↦ rw (live, other) (ap (λ xs. r ∷ xs) h)
        ])
]

by_case :
    (raw : Text) (event : Fields) (b : Bool) (judged kept all_results : List RuleResult)
    (r : RuleResult)
    → kept ≡ filter (is_kept raw event) all_results
    → judged ≡ filter (is_kept raw event) (r ∷ all_results)
    → (if b then judged else kept)
      ≡ filter (is_kept raw event) (if b then r ∷ all_results else all_results)
by_case raw event true judged kept all_results r h j = j
by_case raw event false judged kept all_results r h j = h

-- What contributes to an alert is what the static rules found, in its order and as the registry
-- stamped it, less the canary rules, and on a signed program less the noisy rules; their confidence,
-- and whether the program is a known one, make no difference.
pub triggered_rules-filter :
    (raw : Text) (rules : List StaticRule) (event : Fields)
    → triggered_rules raw rules event ≡ filter (is_kept raw event) (static_results rules event)
unfolding triggered_rules static_results
triggered_rules-filter raw [] event = refl
triggered_rules-filter raw (rule ∷ rules) event =
    let rest = triggered_rules-filter raw rules event in
    elim (rule.fn event)
        as (λ o.
          rule.fn event ≡ o
          → triggered_rules raw (rule ∷ rules) event
            ≡ filter (is_kept raw event) (static_results (rule ∷ rules) event)) [
              | none ↦ λ e. rw (e, triggered_rules, static_results) rest
              | some r ↦ λ e.
                  let kept = triggered_rules raw rules event in
                  let stamped = stamp_result rule r in
                  rw (e, triggered_rules, static_results)
                    (by_case raw event r.triggered
                      (if is_suppressed raw event (weighed event stamped)
                        then kept
                        else weighed event stamped ∷ kept)
                      kept (static_results rules event) stamped rest
                      (one-filter raw event stamped kept (static_results rules event) rest))
            ]
      refl
