-- ===== src/Correlation/Once.antt =====
-- One alert for a rule, a group and a window (aegis-brain/app/services/correlation.py).
pub mod Chains
pub mod Fires
use aegis_ecosystem.Prelude.{
  ℕ, ◌+◌, ◌*◌, ◌<◌, ◌≡◌, refl, true, false, none, some, List, arith, Text, codes, ltb, eq_text,
  Bool-cases, inl, inr,
}
use aegis_ecosystem.Redis.Laws.{Redis}
use aegis_ecosystem.Sigma.Matcher.{Value}
use aegis_ecosystem.Sigma.Selection.{EventType}
use aegis_ecosystem.Correlation.{
  fire_at, eval_threshold, evaluate, group_key, first_matches, count_in_window, threshold_in_group,
}
use aegis_ecosystem.Correlation.Rules.{CorrelationRule, counter_key, fired_key}
use aegis_ecosystem.Correlation.Keeps.Commands.{Held}
use aegis_ecosystem.Correlation.Keeps.Windows.{Keeps-count}
use aegis_ecosystem.Correlation.Once.Chains.{
  is_match, Ordered, Held-evaluate, Claims, Blocked, Claims-bind, Blocked-bind,
}
use aegis_ecosystem.Correlation.Once.Fires.{end_of_window, fire_once-Claims, fire_once-Blocked}

module _ (redis : Redis) (type : EventType) (render : Value → Text) where
  open redis use {Store, live}
  open type use {Event}

  module _ (t d : ℕ) (rule : CorrelationRule Event) where
    fire_at-Claims :
        (g : Text) (n : ℕ)
        → Claims redis type render
            (fired_key rule.id g (codes "0"))
            t
            (end_of_window redis type render t d rule)
            (fire_at redis type render t rule g n)
    unfolding is_match fire_at
    fire_at-Claims g n s h = elim (Bool-cases (ltb n rule.needed)) [
      | inl p ↦ absurd (let no = rw (p, fire_at) at h in ground arith)
      | inr p ↦
          rw (p, fire_at)
            (fire_once-Claims redis type render t d rule g (codes "0") n s (rw (p, fire_at) at h))
    ]

    fire_at-Blocked :
        (g : Text) (n : ℕ)
        → t < d
        → Blocked redis type render
            (fired_key rule.id g (codes "0"))
            t
            d
            (fire_at redis type render t rule g n)
    unfolding is_match fire_at
    fire_at-Blocked g n lt s h = elim (Bool-cases (ltb n rule.needed)) [
      | inl p ↦ rw (p, fire_at) refl
      | inr p ↦
          rw (p, fire_at) (fire_once-Blocked redis type render t d rule g (codes "0") n lt s h)
    ]

    threshold-Claims :
        (g : Text)
        → Claims redis type render
            (fired_key rule.id g (codes "0"))
            t
            (end_of_window redis type render t d rule)
            (threshold_in_group redis type render t rule g)
    unfolding threshold_in_group
    threshold-Claims g =
        Claims-bind redis type render (fired_key rule.id g (codes "0")) t
          (end_of_window redis type render t d rule)
          (count_in_window redis type render t (counter_key rule.id g (codes "0"))
            rule.window_seconds)
          (fire_at redis type render t rule g) (fire_at-Claims g)

    threshold-Blocked :
        (g : Text)
        → t < d
        → Blocked redis type render
            (fired_key rule.id g (codes "0"))
            t
            d
            (threshold_in_group redis type render t rule g)
    unfolding threshold_in_group
    threshold-Blocked g lt =
        Blocked-bind redis type render (fired_key rule.id g (codes "0")) t d
          (count_in_window redis type render t (counter_key rule.id g (codes "0"))
            rule.window_seconds)
          (fire_at redis type render t rule g)
          (Keeps-count redis type render rule.id g (codes "0") t d lt rule.id g (codes "0")
            rule.window_seconds)
          (λ n. fire_at-Blocked g n lt)

    eval_threshold-Claims :
        (event : Event) (g : Text)
        → group_key redis type render rule event ≡ some g
        → Claims redis type render
            (fired_key rule.id g (codes "0"))
            t
            (end_of_window redis type render t d rule)
            (eval_threshold redis type render t rule event)
    unfolding is_match eval_threshold
    eval_threshold-Claims event g e s =
        elim (first_matches redis type render rule event)
            as (λ f.
              first_matches redis type render rule event ≡ f
              → is_match (eval_threshold redis type render t rule event s).0 ≡ true
              → Held redis type render (fired_key rule.id g (codes "0")) t
                  (end_of_window redis type render t d rule)
                  (eval_threshold redis type render t rule event s).1) [
                    | none ↦ λ p h. absurd (let no = rw (p, eval_threshold) at h in ground arith)
                    | some false ↦
                        λ p h. absurd (let no = rw (p, eval_threshold) at h in ground arith)
                    | some true ↦ λ p h.
                        rw (p, e, eval_threshold)
                          (threshold-Claims g s (rw (p, e, eval_threshold) at h))
                  ]
          refl

    eval_threshold-Blocked :
        (event : Event) (g : Text)
        → t < d
        → group_key redis type render rule event ≡ some g
        → Blocked redis type render
            (fired_key rule.id g (codes "0"))
            t
            d
            (eval_threshold redis type render t rule event)
    unfolding is_match eval_threshold
    eval_threshold-Blocked event g lt e s h =
        elim (first_matches redis type render rule event)
            as (λ f.
              first_matches redis type render rule event ≡ f
              → is_match (eval_threshold redis type render t rule event s).0 ≡ false) [
                | none ↦ λ p. rw (p, eval_threshold) refl
                | some false ↦ λ p. rw (p, eval_threshold) refl
                | some true ↦ λ p. rw (p, e, eval_threshold) (threshold-Blocked g lt s h)
              ]
          refl

  -- After an event makes a threshold rule match in a group, whatever rules and events the engine
  -- evaluates next, at times that never go back, no event of the group makes the rule match again
  -- before its window is over. It holds of every server and with exceptions of its commands.
  pub eval_threshold-once :
      (rules : List (CorrelationRule Event)) (rule : CorrelationRule Event) (first second : Event)
      (group : Text) (t u : ℕ) (events : List (ℕ × Text × Event)) (s : Store)
      → group_key redis type render rule first ≡ some group
      → group_key redis type render rule second ≡ some group
      → is_match (eval_threshold redis type render t rule first s).0 ≡ true
      → Ordered redis type render t events u
      → u < t + 1000 * rule.window_seconds
      → is_match
          (eval_threshold redis type render u rule second
            (evaluate redis type render rules events
              (eval_threshold redis type render t rule first s).1).1).0
        ≡ false
  eval_threshold-once rules rule first second group t u events s g1 g2 h o lt =
      let after = (eval_threshold redis type render t rule first s).1 in
      eval_threshold-Blocked u (t + 1000 * rule.window_seconds) rule second group lt g2
        (evaluate redis type render rules events after).1
        (Held-evaluate redis type render rule.id group (codes "0") t u
          (t + 1000 * rule.window_seconds) rules events after lt o
          (eval_threshold-Claims t u rule first group g1 s h))
