-- ===== src/Correlation/Keeps/Windows.antt =====
-- The counts of a window and the claim of its alert end no live fired flag
-- (aegis-brain/app/services/correlation.py).
use aegis_ecosystem.Prelude.{
  ℕ, ◌<◌, Bool, true, false, Option, none, Text, codes, ltb, nat_eq, eq_text, Bool-cases, inl, inr,
}
use aegis_ecosystem.Redis.Laws.{Redis}
use aegis_ecosystem.Sigma.Matcher.{Value}
use aegis_ecosystem.Sigma.Selection.{EventType}
use aegis_ecosystem.Correlation.{
  M, pure, m_incr, m_expire, start_window, answer, fire_at, m_claim, count_in_window, fire_once,
}
use aegis_ecosystem.Correlation.Rules.{CorrelationRule, CorrelationMatch, counter_key, fired_key}
use aegis_ecosystem.Correlation.Keys.{counter-ne-fired}
use aegis_ecosystem.Correlation.Keeps.Commands.{
  Keeps, Keeps-pure, Keeps-bind, Keeps-m_incr, Keeps-m_expire, Keeps-m_claim,
}

module _ (redis : Redis) (type : EventType) (render : Value → Text) where
  open redis use {Store, live}
  open type use {Event}

  -- The actions of a rule on counters and armed flags end no fired flag, nor does a claim.
  module _ (id group index : Text) (t d : ℕ) (lt : t < d) where
    abbrev Kept : {A : Type 0} → M redis type render A → Type 0
    Kept m = Keeps redis type render (fired_key id group index) t d m

    abbrev fired : Text
    fired = fired_key id group index

    Keeps-start_window :
        (a b c : Text) (ttl n : ℕ)
        → Kept (start_window redis type render t (counter_key a b c) ttl n)
    unfolding start_window
    Keeps-start_window a b c ttl n = elim (Bool-cases (nat_eq n 1)) [
      | inr p ↦ rw (p, start_window) (Keeps-pure redis type render fired t d n)
      | inl p ↦
          rw (p, start_window)
            (Keeps-bind redis type render fired t d
              (m_expire redis type render t (counter_key a b c) ttl) (λ _. pure redis type render n)
              (Keeps-m_expire redis type render fired (counter_key a b c) t d ttl
                (counter-ne-fired a b c id group index).0)
              (λ _. Keeps-pure redis type render fired t d n))
    ]

    pub Keeps-count :
        (a b c : Text) (ttl : ℕ)
        → Kept (count_in_window redis type render t (counter_key a b c) ttl)
    unfolding count_in_window
    Keeps-count a b c ttl =
        Keeps-bind redis type render fired t d (m_incr redis type render t (counter_key a b c))
          (start_window redis type render t (counter_key a b c) ttl)
          (Keeps-m_incr redis type render fired (counter_key a b c) t d
            (counter-ne-fired a b c id group index).0)
          (Keeps-start_window a b c ttl)

    pub Keeps-answer :
        (rule : CorrelationRule Event) (g : Text) (n : ℕ) (b : Bool)
        → Kept (answer redis type render rule g n b)
    unfolding answer
    Keeps-answer rule g n true s h = h
    Keeps-answer rule g n false s h = h

    pub Keeps-fire_once :
        (rule : CorrelationRule Event) (g i : Text) (n : ℕ)
        → Kept (fire_once redis type render t rule g i n)
    unfolding fire_once
    Keeps-fire_once rule g i n =
        Keeps-bind redis type render fired t d
          (m_claim redis type render t (fired_key rule.id g i) rule.window_seconds)
          (answer redis type render rule g n)
          (Keeps-m_claim redis type render fired (fired_key rule.id g i) t d rule.window_seconds lt)
          (Keeps-answer rule g n)

    pub Keeps-fire_at :
        (rule : CorrelationRule Event) (g : Text) (n : ℕ)
        → Kept (fire_at redis type render t rule g n)
    unfolding fire_at
    Keeps-fire_at rule g n = elim (Bool-cases (ltb n rule.needed)) [
      | inl p ↦
          rw (p, fire_at)
            (Keeps-pure redis type render {A = Option CorrelationMatch} fired t d none)
      | inr p ↦ rw (p, fire_at) (Keeps-fire_once rule g (codes "0") n)
    ]
