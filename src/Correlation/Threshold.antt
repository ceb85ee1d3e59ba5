-- ===== src/Correlation/Threshold.antt =====
-- When a threshold rule fires (aegis-brain/app/services/correlation.py, `_eval_threshold`).
use aegis_ecosystem.Prelude.{
  ℕ, ◌≡◌, refl, ap, ◌∙◌, sym, true, false, not, ◌&&◌, Option, none, some, arith, Text, codes, leb,
  ltb, nat_eq, eq_text, Bool-cases, Option-cases, inl, inr,
}
use aegis_ecosystem.Redis.Laws.{Redis, SetReply, reply_true, reply_none, bumped}
use aegis_ecosystem.Sigma.Matcher.{Value}
use aegis_ecosystem.Sigma.Selection.{EventType}
use aegis_ecosystem.Correlation.{
  m_incr, m_expire, start_window, count_in_window, claims, answer, fire_once, fire_at,
  threshold_in_group,
}
use aegis_ecosystem.Correlation.Rules.{CorrelationRule, counter_key, fired_key}
use aegis_ecosystem.Redis.Held.{is_live}
use aegis_ecosystem.Correlation.Once.Chains.{is_match, continue}
use aegis_ecosystem.Correlation.Once.Fires.{fire_once-reply}

module _ (redis : Redis) (type : EventType) (render : Value → Text) where
  open redis use {Store, live}
  open type use {Event}

  some-fst :
      {A : Type 0} (a b : A) (s s' : Store)
      → ◌≡◌ {A = Option A × Store} (some a, s) (some b, s')
      → b ≡ a
  some-fst a b s s' h = let e : some a ≡ some b = ap (λ x. x.0) h in ground arith

  none-fst :
      {A B : Type 0} (b : A) (s s' : Store) (x : Option A × Store)
      → x.0 ≡ none
      → x ≡ (some b, s')
      → B
  none-fst b s s' x e h = let no : x.0 ≡ some b = ap (λ y. y.0) h in absurd (ground arith)

  m_expire-raised :
      (t ttl : ℕ) (key : Text) (s : Store)
      → redis.expire s t key ttl ≡ none
      → m_expire redis type render t key ttl s ≡ (none, s)
  unfolding m_expire
  m_expire-raised t ttl key s e = rw (e, m_expire) refl

  m_expire-answers :
      (t ttl : ℕ) (key : Text) (s s' : Store)
      → redis.expire s t key ttl ≡ some s'
      → m_expire redis type render t key ttl s ≡ (some tt, s')
  unfolding m_expire
  m_expire-answers t ttl key s s' e = rw (e, m_expire) refl

  start_window-count :
      (t ttl n m : ℕ) (key : Text) (s s1 : Store)
      → start_window redis type render t key ttl n s ≡ (some m, s1)
      → m ≡ n
  unfolding start_window
  start_window-count t ttl n m key s s1 h = elim (Bool-cases (nat_eq n 1)) [
    | inr p ↦ some-fst n m s s1 (rw (p, start_window) at h)
    | inl p ↦
        let counted = rw (p, start_window) at h in
        elim (Option-cases (redis.expire s t key ttl)) [
          | inl e ↦
              none-fst m s s1 (none, s) refl
                (sym (
                    ap (continue redis type render (λ u. λ x. (some n, x)))
                      (m_expire-raised t ttl key s e))
                  ∙ counted)
          | inr (s', e) ↦ some-fst n m s' s1 (
              sym (
                ap (continue redis type render (λ u. λ x. (some n, x)))
                  (m_expire-answers t ttl key s s' e))
              ∙ counted)
        ]
  ]

  m_incr-raised :
      (t : ℕ) (key : Text) (s : Store)
      → redis.incr s t key ≡ none
      → m_incr redis type render t key s ≡ (none, s)
  unfolding m_incr
  m_incr-raised t key s e = rw (e, m_incr) refl

  m_incr-answers :
      (t n : ℕ) (key : Text) (s s' : Store)
      → redis.incr s t key ≡ some (n, s')
      → m_incr redis type render t key s ≡ (some n, s')
  unfolding m_incr
  m_incr-answers t n key s s' e = rw (e, m_incr) refl

  -- The count of a window is one more than the live counter's.
  count_in_window-count :
      (t ttl n : ℕ) (key : Text) (s s1 : Store)
      → count_in_window redis type render t key ttl s ≡ (some n, s1)
      → n ≡ (bumped (live s t key)).value
  unfolding count_in_window
  count_in_window-count t ttl n key s s1 h = elim (Option-cases (redis.incr s t key)) [
    | inl e ↦
        none-fst n s s1 (none, s) refl
          (sym (
              ap (continue redis type render (start_window redis type render t key ttl))
                (m_incr-raised t key s e))
            ∙ h)
    | inr ((m, s'), e) ↦
        start_window-count t ttl m n key s' s1 (
          sym (
            ap (continue redis type render (start_window redis type render t key ttl))
              (m_incr-answers t m key s s' e))
          ∙ h)
        ∙ redis.incr_reply s s' t key m e
  ]

  module _ (t : ℕ) (rule : CorrelationRule Event) (group : Text) where
    abbrev fired : Text
    fired = fired_key rule.id group (codes "0")

    fire_once-is_match :
        (n : ℕ) (s s' : Store) (r : SetReply)
        → redis.set_nx s t fired rule.window_seconds ≡ some (r, s')
        → is_match (fire_once redis type render t rule group (codes "0") n s).0
          ≡ not (is_live (live s t fired))
    unfolding is_match answer claims
    fire_once-is_match n s s' r h = elim (Option-cases (live s t fired)) [
      | inl missing ↦
          let reply : r ≡ reply_true =
            rw missing at (redis.set_nx_reply s s' t fired rule.window_seconds r h) in
          rw
            (
              fire_once-reply redis type render t t rule group (codes "0") n s s' r h,
              reply,
              missing,
            )
            refl
      | inr (x, found) ↦
          let reply : r ≡ reply_none =
            rw found at (redis.set_nx_reply s s' t fired rule.window_seconds r h) in
          rw (fire_once-reply redis type render t t rule group (codes "0") n s s' r h, reply, found)
            refl
    ]

    fire_at-is_match :
        (n : ℕ) (s s' : Store) (r : SetReply)
        → redis.set_nx s t fired rule.window_seconds ≡ some (r, s')
        → is_match (fire_at redis type render t rule group n s).0
          ≡ (leb rule.needed n && not (is_live (live s t fired)))
    unfolding fire_at is_match
    fire_at-is_match n s s' r h = elim (Bool-cases (ltb n rule.needed)) [
      | inl p ↦ let short : leb rule.needed n ≡ false = ground arith in rw (p, short, fire_at) refl
      | inr p ↦
          let enough : leb rule.needed n ≡ true = ground arith in
          rw (p, enough, fire_at) (fire_once-is_match n s s' r h)
    ]

    -- Where the server answers the count and the claim, a threshold rule fires in a group exactly when
    -- one more than the live counter of the group is at least its threshold and the group has no
    -- live fired flag after the count.
    pub threshold_in_group-is_match :
        (n : ℕ) (s s1 s2 : Store) (r : SetReply)
        → count_in_window redis type render t
            (counter_key rule.id group (codes "0"))
            rule.window_seconds
            s
          ≡ (some n, s1)
        → redis.set_nx s1 t fired rule.window_seconds ≡ some (r, s2)
        → is_match (threshold_in_group redis type render t rule group s).0 ≡ (
            leb rule.needed (bumped (live s t (counter_key rule.id group (codes "0")))).value
            && not (is_live (live s1 t fired)))
    unfolding threshold_in_group
    threshold_in_group-is_match n s s1 s2 r c h =
        let total =
          count_in_window-count t rule.window_seconds n (counter_key rule.id group (codes "0")) s s1
            c in
        rw (← total) (
          ap
            (λ x.
              is_match (continue redis type render (fire_at redis type render t rule group) x).0)
            c
          ∙ fire_at-is_match n s1 s2 r h)
