-- ===== src/Correlation/Keeps/Commands.antt =====
-- A key that is live from a time up to a deadline, and the commands of the correlation engine that keep
-- it so (aegis-brain/app/services/correlation.py).
use aegis_ecosystem.Prelude.{
  ℕ, ◌≤◌, ◌<◌, ◌≡◌, true, false, Option, none, some, arith, Text, ◌==◌, ==_iff, eq_text, Bool-cases,
  Option-cases, inl, inr,
}
use aegis_ecosystem.Redis.Laws.{Redis}
use aegis_ecosystem.Redis.Held.{is_live}
use aegis_ecosystem.Sigma.Matcher.{Value}
use aegis_ecosystem.Sigma.Selection.{EventType}
use aegis_ecosystem.Correlation.{M, ◌>>=◌, pure, m_get, m_incr, m_expire, m_set_ex, m_claim}

module _ (redis : Redis) (type : EventType) (render : Value → Text) where
  open redis use {Store, live}
  open type use {Event}

  -- A key that is live from a time on, up to a deadline.
  abbrev pub Held : Text → ℕ → ℕ → Store → Type 0
  Held k t deadline s = (t' : ℕ) → t ≤ t' → t' < deadline → is_live (live s t' k) ≡ true

  -- An action at time t that ends no live key.
  abbrev pub Keeps : {A : Type 0} → Text → ℕ → ℕ → M redis type render A → Type 0
  Keeps k t deadline m = (s : Store) → Held k t deadline s → Held k t deadline (m s).1

  pub Keeps-pure :
      {A : Type 0} (k : Text) (t d : ℕ) (a : A) → Keeps k t d (pure redis type render a)
  Keeps-pure k t d a s h = h

  pub Keeps-continue :
      {A B : Type 0} (k : Text) (t d : ℕ) (f : A → M redis type render B) (r : Option A) (s : Store)
      → ((a : A) → Keeps k t d (f a))
      → Held k t d s
      → Held k t d ((elim r as (λ _. Option B × Store) [ none ↦ (none, s) | some a ↦ f a s ]).1)
  Keeps-continue k t d f none s kf h = h
  Keeps-continue k t d f (some a) s kf h = kf a s h

  pub Keeps-bind :
      {A B : Type 0} (k : Text) (t d : ℕ) (m : M redis type render A)
      (f : A → M redis type render B)
      → Keeps k t d m
      → ((a : A) → Keeps k t d (f a))
      → Keeps k t d (◌>>=◌ redis type render m f)
  Keeps-bind k t d m f km kf s h = Keeps-continue k t d f (m s).0 (m s).1 kf (km s h)

  pub Keeps-m_get : (k j : Text) (t d : ℕ) → Keeps k t d (m_get redis type render t j)
  unfolding m_get
  Keeps-m_get k j t d s h = h

  -- `incr` never ends a key.
  pub Keeps-m_incr :
      (k j : Text) (t d : ℕ) → (j == k) ≡ false → Keeps k t d (m_incr redis type render t j)
  unfolding m_incr
  Keeps-m_incr k j t d ne s h = elim (Option-cases (redis.incr s t j)) [
    | inl e ↦ rw (e, m_incr) h
    | inr ((n, s'), e) ↦
        rw (e, m_incr) (λ t' le lt. rw (redis.incr_writes s s' t t' j k n e le, ne) (h t' le lt))
  ]

  pub Keeps-m_expire :
      (k j : Text) (t d ttl : ℕ)
      → (j == k) ≡ false
      → Keeps k t d (m_expire redis type render t j ttl)
  unfolding m_expire
  Keeps-m_expire k j t d ttl ne s h = elim (Option-cases (redis.expire s t j ttl)) [
    | inl e ↦ rw (e, m_expire) h
    | inr (s', e) ↦
        rw (e, m_expire)
          (λ t' le lt. elim (Option-cases (live s t j)) [
            | inl missing ↦ rw (redis.expire_misses s s' t t' j k ttl e missing le) (h t' le lt)
            | inr (x, found) ↦
                rw (redis.expire_writes s s' t t' j k ttl x e found le, ne) (h t' le lt)
          ])
  ]

  pub Keeps-m_set_ex :
      (k j : Text) (t d ttl : ℕ)
      → (j == k) ≡ false
      → Keeps k t d (m_set_ex redis type render t j ttl)
  unfolding m_set_ex
  Keeps-m_set_ex k j t d ttl ne s h = elim (Option-cases (redis.set_ex s t j ttl)) [
    | inl e ↦ rw (e, m_set_ex) h
    | inr (s', e) ↦
        rw (e, m_set_ex)
          (λ t' le lt. rw (redis.set_ex_writes s s' t t' j k ttl e le, ne) (h t' le lt))
  ]

  -- A claim of any key ends none: it writes only a key that is not live.
  pub Keeps-m_claim :
      (k j : Text) (t d ttl : ℕ) → t < d → Keeps k t d (m_claim redis type render t j ttl)
  unfolding m_claim
  Keeps-m_claim k j t d ttl lt s h = elim (Option-cases (redis.set_nx s t j ttl)) [
    | inl e ↦ rw (e, m_claim) h
    | inr ((r, s'), e) ↦
        rw (e, m_claim)
          (λ t' le lt'.
            rw (redis.set_nx_writes s s' t t' j k ttl r e le) (elim (Option-cases (live s t j)) [
              | inr (x, found) ↦ rw found (h t' le lt')
              | inl missing ↦ rw missing (elim (Bool-cases (j == k)) [
                | inr ne ↦ rw ne (h t' le lt')
                | inl same ↦
                    let there = h t (omega arith) lt in
                    let absent : live s t k ≡ none = rw ((==_iff j k).0 same) at missing in
                    absurd (ground arith)
              ])
            ]))
  ]
