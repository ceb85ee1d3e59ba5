-- ===== src/Redis/Held.antt =====
-- Keys that stay live: a key is held from a time on, up to a deadline, when every reader in between
-- finds it. Which commands leave a held key held, and which make one.
use aegis_ecosystem.Prelude.{
  ℕ, ◌+◌, ◌*◌, ◌≤◌, ◌<◌, ◌≡◌, refl, Bool, true, false, Option, none, some, arith, Text, ◌==◌,
  ==_iff, eq_text, Bool-cases, Option-cases, inl, inr,
}
use aegis_ecosystem.Redis.Laws.{
  Redis, Entry, SetReply, reply_true, reply_false, reply_none, at_time, deadline_after,
}

abbrev pub is_live : Option Entry → Bool
is_live none = false
is_live (some e) = true

-- whether `set(..., nx=True)` returned a true value
unfoldable pub is_claimed : SetReply → Bool
is_claimed reply_true = true
is_claimed reply_false = false
is_claimed reply_none = false

module _ (redis : Redis) where
  open redis use {Store, live}

  abbrev pub Held : Text → ℕ → ℕ → Store → Type 0
  Held k t deadline s = (t' : ℕ) → t ≤ t' → t' < deadline → is_live (live s t' k) ≡ true

  pub Held-later : (k : Text) (t u d : ℕ) (s : Store) → t ≤ u → Held k t d s → Held k u d s
  Held-later k t u d s le h t' later lt = h t' (omega arith) lt

  pub Held-set_ex :
      (k j : Text) (t d ttl : ℕ) (s s' : Store)
      → redis.set_ex s t j ttl ≡ some s'
      → (j == k) ≡ false
      → Held k t d s
      → Held k t d s'
  Held-set_ex k j t d ttl s s' e ne h t' le lt =
      rw (redis.set_ex_writes s s' t t' j k ttl e le, ne) (h t' le lt)

  -- A claim writes only a key that is not live, so it ends no held key, its own included.
  pub Held-set_nx :
      (k j : Text) (t d ttl : ℕ) (r : SetReply) (s s' : Store)
      → redis.set_nx s t j ttl ≡ some (r, s')
      → t < d
      → Held k t d s
      → Held k t d s'
  Held-set_nx k j t d ttl r s s' e before h t' le lt =
      rw (redis.set_nx_writes s s' t t' j k ttl r e le) (elim (Option-cases (live s t j)) [
        | inr (x, found) ↦ rw found (h t' le lt)
        | inl missing ↦ rw missing (elim (Bool-cases (j == k)) [
          | inr ne ↦ rw ne (h t' le lt)
          | inl same ↦
              let there = h t (omega arith) before in
              let absent : live s t k ≡ none = rw ((==_iff j k).0 same) at missing in
              absurd (ground arith)
        ])
      ])

  fresh-live :
      (t t' ttl : ℕ)
      → t' < t + 1000 * ttl
      → is_live (at_time t' (record { value = 1; deadline = deadline_after t ttl })) ≡ true
  unfolding at_time deadline_after
  fresh-live t t' ttl lt = ground arith

  -- A claim that succeeds holds its key until its time to live is over.
  pub Held-claimed :
      (k : Text) (t ttl : ℕ) (r : SetReply) (s s' : Store)
      → redis.set_nx s t k ttl ≡ some (r, s')
      → is_claimed r ≡ true
      → Held k t (t + 1000 * ttl) s'
  unfolding is_claimed
  Held-claimed k t ttl r s s' e c t' le lt = elim (Option-cases (live s t k)) [
    | inr (x, found) ↦
        let reply : r ≡ reply_none = rw found at (redis.set_nx_reply s s' t k ttl r e) in
        absurd (let no = rw reply at c in ground arith)
    | inl missing ↦
        rw (redis.set_nx_writes s s' t t' k k ttl r e le, missing, (==_iff k k).1 refl)
          (fresh-live t t' ttl lt)
  ]

  -- No claim of a held key succeeds.
  pub claim-Held :
      (k : Text) (t d ttl : ℕ) (r : SetReply) (s s' : Store)
      → redis.set_nx s t k ttl ≡ some (r, s')
      → t < d
      → Held k t d s
      → is_claimed r ≡ false
  unfolding is_claimed
  claim-Held k t d ttl r s s' e lt h = elim (Option-cases (live s t k)) [
    | inl missing ↦ absurd (let no = rw missing at (h t (omega arith) lt) in ground arith)
    | inr (x, found) ↦
        let reply : r ≡ reply_none = rw found at (redis.set_nx_reply s s' t k ttl r e) in
        rw reply refl
  ]

  -- `setex` holds its key until its time to live is over.
  pub Held-set_ex_self :
      (k : Text) (t ttl : ℕ) (s s' : Store)
      → redis.set_ex s t k ttl ≡ some s'
      → Held k t (t + 1000 * ttl) s'
  Held-set_ex_self k t ttl s s' e t' le lt =
      rw (redis.set_ex_writes s s' t t' k k ttl e le, (==_iff k k).1 refl) (fresh-live t t' ttl lt)

  -- A held key is there for a reader who gets an answer.
  pub get-Held :
      (k : Text) (t d : ℕ) (s : Store)
      → t < d
      → Held k t d s
      → redis.get s t k ≡ some none
      → {A : Type 0} → A
  get-Held k t d s lt h e = elim (Option-cases (live s t k)) [
    | inl missing ↦ absurd (let bad = rw missing at (h t (omega arith) lt) in ground arith)
    | inr (x, found) ↦ absurd (let bad = rw found at (redis.get_reads s t k none e) in ground arith)
  ]
