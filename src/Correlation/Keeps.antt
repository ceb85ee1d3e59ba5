-- ===== src/Correlation/Keeps.antt =====
-- No command of an evaluation ends a live fired flag (aegis-brain/app/services/correlation.py).
pub mod Commands
pub mod Windows
use aegis_ecosystem.Prelude.{
  ℕ, suc, ◌<◌, ◌≡◌, refl, Bool, true, false, Option, none, some, List, [], ◌∷◌, Text, codes,
  decimal, length, leb, eq_text, Bool-cases, Option-cases, inl, inr,
}
use aegis_ecosystem.Redis.Laws.{Redis}
use aegis_ecosystem.Sigma.Matcher.{Value}
use aegis_ecosystem.Sigma.Selection.{EventType}
use aegis_ecosystem.Correlation.{
  M, m_get, fire_at, arm_at, fire_armed, eval_threshold, eval_sequence, eval_rule, eval_rules,
  group_key, first_matches, source_matches, add_match, count_in_window, threshold_in_group,
  last_step, earlier_step, run_steps,
}
use aegis_ecosystem.Correlation.Rules.{
  RuleType, threshold, sequence, unknown, CorrelationRule, CorrelationMatch, counter_key, fired_key,
  armed_key, previous, needed_at,
}
use aegis_ecosystem.Correlation.Keys.{counter-ne-fired}
use aegis_ecosystem.Correlation.Keeps.Commands.{
  Held, Keeps, Keeps-pure, Keeps-bind, Keeps-m_get, Keeps-m_set_ex,
}
use aegis_ecosystem.Correlation.Keeps.Windows.{Keeps-count, Keeps-fire_once, Keeps-fire_at}

module _ (redis : Redis) (type : EventType) (render : Value → Text) where
  open redis use {Store, live}
  open type use {Event}

  -- The actions of a rule on counters and armed flags end no fired flag, nor does a claim.
  module _ (id group index : Text) (t d : ℕ) (lt : t < d) where
    abbrev Kept : {A : Type 0} → M redis type render A → Type 0
    Kept m = Keeps redis type render (fired_key id group index) t d m

    abbrev fired : Text
    fired = fired_key id group index

    Keeps-threshold_in_group :
        (rule : CorrelationRule Event) (g : Text)
        → Kept (threshold_in_group redis type render t rule g)
    unfolding threshold_in_group
    Keeps-threshold_in_group rule g =
        Keeps-bind redis type render fired t d
          (count_in_window redis type render t (counter_key rule.id g (codes "0"))
            rule.window_seconds)
          (fire_at redis type render t rule g)
          (Keeps-count redis type render id group index t d lt rule.id g (codes "0")
            rule.window_seconds)
          (Keeps-fire_at redis type render id group index t d lt rule g)

    Keeps-eval_threshold :
        (rule : CorrelationRule Event) (event : Event)
        → Kept (eval_threshold redis type render t rule event)
    unfolding eval_threshold
    Keeps-eval_threshold rule event s h =
        elim (first_matches redis type render rule event)
            as (λ f.
              first_matches redis type render rule event ≡ f
              → Held redis type render fired t d
                  (eval_threshold redis type render t rule event s).1) [
                    | none ↦ λ e. rw (e, eval_threshold) h
                    | some false ↦ λ e. rw (e, eval_threshold) h
                    | some true ↦ λ e.
                        elim (Option-cases (group_key redis type render rule event)) [
                          | inl g ↦ rw (e, g, eval_threshold) h
                          | inr (x, g) ↦
                              rw (e, g, eval_threshold) (Keeps-threshold_in_group rule x s h)
                        ]
                  ]
          refl

    pub Keeps-fire_armed :
        (rule : CorrelationRule Event) (g : Text) (n : ℕ) (armed : Option ℕ)
        → Kept (fire_armed redis type render t rule g n armed)
    unfolding fire_armed
    Keeps-fire_armed rule g n none s h = h
    Keeps-fire_armed rule g n (some x) s h =
        Keeps-fire_once redis type render id group index t d lt rule g (codes "seq") n s h

    Keeps-arm_at :
        (rule : CorrelationRule Event) (g : Text) (i n : ℕ)
        → Kept (arm_at redis type render t rule g i n)
    unfolding arm_at
    Keeps-arm_at rule g i n = elim (Bool-cases (leb (needed_at rule.counts i) n)) [
      | inr p ↦ rw (p, arm_at) (Keeps-pure redis type render {A = Unit {0}} fired t d tt)
      | inl p ↦
          rw (p, arm_at)
            (Keeps-m_set_ex redis type render fired (armed_key rule.id g (decimal i)) t d
              rule.window_seconds (counter-ne-fired rule.id g (decimal i) id group index).1)
    ]

    pub Keeps-earlier_step :
        (rule : CorrelationRule Event) (g : Text) (i : ℕ)
        → Kept (earlier_step redis type render t rule g i)
    unfolding earlier_step
    Keeps-earlier_step rule g i =
        Keeps-bind redis type render fired t d
          (count_in_window redis type render t (counter_key rule.id g (decimal i))
            rule.window_seconds)
          (arm_at redis type render t rule g i)
          (Keeps-count redis type render id group index t d lt rule.id g (decimal i)
            rule.window_seconds)
          (Keeps-arm_at rule g i)

    pub Keeps-last_step :
        (rule : CorrelationRule Event) (g : Text) (i n : ℕ)
        → Kept (last_step redis type render t rule g i n)
    unfolding last_step
    Keeps-last_step rule g i n =
        Keeps-bind redis type render fired t d
          (m_get redis type render t (armed_key rule.id g (previous i)))
          (fire_armed redis type render t rule g n)
          (Keeps-m_get redis type render fired (armed_key rule.id g (previous i)) t d)
          (Keeps-fire_armed rule g n)

    Keeps-run_steps :
        (rule : CorrelationRule Event) (event : Event) (g : Text) (n i : ℕ)
        (ms : List (Event → Bool))
        → Kept (run_steps redis type render t rule event g n i ms)
    unfolding run_steps
    Keeps-run_steps rule event g n i [] =
        Keeps-pure redis type render {A = Option CorrelationMatch} fired t d none
    Keeps-run_steps rule event g n i (m ∷ []) = elim (Bool-cases (m event)) [
      | inl p ↦ rw (p, run_steps) (Keeps-last_step rule g i n)
      | inr p ↦
          rw (p, run_steps)
            (Keeps-pure redis type render {A = Option CorrelationMatch} fired t d none)
    ]
    Keeps-run_steps rule event g n i (m ∷ m' ∷ ms) =
        let rest : Kept (run_steps redis type render t rule event g n (suc i) (m' ∷ ms)) =
          Keeps-run_steps rule event g n (suc i) (m' ∷ ms) in
        elim (Bool-cases (m event)) [
          | inr p ↦ rw (p, run_steps) rest
          | inl p ↦
              rw (p, run_steps)
                (Keeps-bind redis type render fired t d (earlier_step redis type render t rule g i)
                  (λ _. run_steps redis type render t rule event g n (suc i) (m' ∷ ms))
                  (Keeps-earlier_step rule g i) (λ _. rest))
        ]

    Keeps-eval_sequence :
        (rule : CorrelationRule Event) (event : Event)
        → Kept (eval_sequence redis type render t rule event)
    unfolding eval_sequence
    Keeps-eval_sequence rule event s h =
        elim (Option-cases (group_key redis type render rule event)) [
          | inl g ↦ rw (g, eval_sequence) h
          | inr (x, g) ↦
              rw (g, eval_sequence)
                (Keeps-run_steps rule event x (length rule.matchers) 0 rule.matchers s h)
        ]

    Keeps-eval_type :
        (r : RuleType) (rule : CorrelationRule Event) (event : Event)
        → Kept (elim r [
          | threshold ↦ eval_threshold redis type render t rule event
          | sequence ↦ eval_sequence redis type render t rule event
          | unknown ↦ eval_sequence redis type render t rule event
        ])
    Keeps-eval_type threshold rule event = Keeps-eval_threshold rule event
    Keeps-eval_type sequence rule event = Keeps-eval_sequence rule event
    Keeps-eval_type unknown rule event = Keeps-eval_sequence rule event

    Keeps-eval_rule :
        (rule : CorrelationRule Event) (event : Event)
        → Kept (eval_rule redis type render t rule event)
    unfolding eval_rule
    Keeps-eval_rule rule event = Keeps-eval_type rule.rule_type rule event

    add_match-server :
        (r : Option (Option CorrelationMatch)) (x : List CorrelationMatch × Store)
        → (add_match redis type render r x).1 ≡ x.1
    unfolding add_match
    add_match-server none x = refl
    add_match-server (some none) x = refl
    add_match-server (some (some m)) x = refl

    pub Held-eval_rules :
        (source_type : Text) (event : Event) (rules : List (CorrelationRule Event)) (s : Store)
        → Held redis type render fired t d s
        → Held redis type render fired t d
            (eval_rules redis type render t source_type event rules s).1
    unfolding eval_rules
    Held-eval_rules source_type event [] s h = h
    Held-eval_rules source_type event (rule ∷ rules) s h =
        elim (Bool-cases (source_matches redis type render rule source_type)) [
          | inr p ↦ rw (p, eval_rules) (Held-eval_rules source_type event rules s h)
          | inl p ↦
              rw
                (
                  p,
                  eval_rules,
                  add_match-server (eval_rule redis type render t rule event s).0 (
                      eval_rules redis type render t source_type event rules
                        (eval_rule redis type render t rule event s).1),
                )
                (Held-eval_rules source_type event rules
                  (eval_rule redis type render t rule event s).1 (Keeps-eval_rule rule event s h))
        ]
