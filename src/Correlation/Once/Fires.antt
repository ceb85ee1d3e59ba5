-- ===== src/Correlation/Once/Fires.antt =====
-- The claim that an alert makes of its window, the end of `_eval_threshold` and `_eval_sequence` of
-- aegis-brain/app/services/correlation.py.
use aegis_ecosystem.Prelude.{
  ℕ, ◌+◌, ◌*◌, ◌<◌, ◌≡◌, refl, ap, true, none, some, arith, Text, ==_iff, eq_text, Option-cases,
  inl, inr,
}
use aegis_ecosystem.Redis.Laws.{Redis, SetReply, reply_true, reply_none, at_time, deadline_after}
use aegis_ecosystem.Sigma.Matcher.{Value}
use aegis_ecosystem.Sigma.Selection.{EventType}
use aegis_ecosystem.Correlation.{answer, m_claim, claims, fire_once}
use aegis_ecosystem.Correlation.Rules.{CorrelationRule, fired_key}
use aegis_ecosystem.Redis.Held.{is_live}
use aegis_ecosystem.Correlation.Once.Chains.{is_match, Claims, Blocked, continue}

module _ (redis : Redis) (type : EventType) (render : Value → Text) where
  open redis use {Store, live}
  open type use {Event}

  module _ (t d : ℕ) (rule : CorrelationRule Event) where
    abbrev pub end_of_window : ℕ
    end_of_window = t + 1000 * rule.window_seconds

    fresh-live :
        (t' : ℕ)
        → t' < end_of_window
        → is_live
            (at_time t' (record { value = 1; deadline = deadline_after t rule.window_seconds }))
          ≡ true
    unfolding at_time deadline_after
    fresh-live t' lt = ground arith

    m_claim-raised :
        (k : Text) (s : Store)
        → redis.set_nx s t k rule.window_seconds ≡ none
        → m_claim redis type render t k rule.window_seconds s ≡ (none, s)
    unfolding m_claim
    m_claim-raised k s e = rw (e, m_claim) refl

    m_claim-reply :
        (k : Text) (s s' : Store) (r : SetReply)
        → redis.set_nx s t k rule.window_seconds ≡ some (r, s')
        → m_claim redis type render t k rule.window_seconds s
          ≡ (some (claims redis type render r), s')
    unfolding m_claim
    m_claim-reply k s s' r e = rw (e, m_claim) refl

    fire_once-raised :
        (g i : Text) (n : ℕ) (s : Store)
        → redis.set_nx s t (fired_key rule.id g i) rule.window_seconds ≡ none
        → fire_once redis type render t rule g i n s ≡ (none, s)
    unfolding fire_once
    fire_once-raised g i n s e =
        ap (continue redis type render (answer redis type render rule g n))
          (m_claim-raised (fired_key rule.id g i) s e)

    pub fire_once-reply :
        (g i : Text) (n : ℕ) (s s' : Store) (r : SetReply)
        → redis.set_nx s t (fired_key rule.id g i) rule.window_seconds ≡ some (r, s')
        → fire_once redis type render t rule g i n s
          ≡ answer redis type render rule g n (claims redis type render r) s'
    unfolding fire_once
    fire_once-reply g i n s s' r e =
        ap (continue redis type render (answer redis type render rule g n))
          (m_claim-reply (fired_key rule.id g i) s s' r e)

    pub fire_once-Claims :
        (g i : Text) (n : ℕ)
        → Claims redis type render
            (fired_key rule.id g i)
            t
            end_of_window
            (fire_once redis type render t rule g i n)
    unfolding is_match answer claims
    fire_once-Claims g i n s h =
        let k = fired_key rule.id g i in
        elim (Option-cases (redis.set_nx s t k rule.window_seconds)) [
          | inl raised ↦ absurd (let no = rw (fire_once-raised g i n s raised) at h in ground arith)
          | inr ((r, s'), e) ↦ elim (Option-cases (live s t k)) [
            | inr (x, found) ↦
                let reply : r ≡ reply_none =
                  rw found at (redis.set_nx_reply s s' t k rule.window_seconds r e) in
                absurd (let no = rw (fire_once-reply g i n s s' r e, reply) at h in ground arith)
            | inl missing ↦
                let reply : r ≡ reply_true =
                  rw missing at (redis.set_nx_reply s s' t k rule.window_seconds r e) in
                rw (fire_once-reply g i n s s' r e, reply)
                  (λ t' le lt.
                    rw
                      (
                        redis.set_nx_writes s s' t t' k k rule.window_seconds r e le,
                        missing,
                        (==_iff k k).1 refl,
                      )
                      (fresh-live t' lt))
          ]
        ]

    pub fire_once-Blocked :
        (g i : Text) (n : ℕ)
        → t < d
        → Blocked redis type render
            (fired_key rule.id g i)
            t
            d
            (fire_once redis type render t rule g i n)
    unfolding is_match answer claims
    fire_once-Blocked g i n lt s h =
        let k = fired_key rule.id g i in
        elim (Option-cases (redis.set_nx s t k rule.window_seconds)) [
          | inl raised ↦ rw (fire_once-raised g i n s raised) refl
          | inr ((r, s'), e) ↦ elim (Option-cases (live s t k)) [
            | inl missing ↦ absurd (let no = rw missing at (h t (omega arith) lt) in ground arith)
            | inr (x, found) ↦
                let reply : r ≡ reply_none =
                  rw found at (redis.set_nx_reply s s' t k rule.window_seconds r e) in
                rw (fire_once-reply g i n s s' r e, reply) refl
          ]
        ]
