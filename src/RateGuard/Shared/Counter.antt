-- ===== src/RateGuard/Shared/Counter.antt =====
-- The counter of an agent in Redis, `_RATE_LUA` and the `incr` commands behind it in
-- `RateGuard.allow_async` of aegis-brain/app/core/rate_guard.py. `_RATE_LUA` is `incr`, with
-- `expire` on the first count, as one command.
use aegis_ecosystem.Prelude.{
  Option-cases, ==_iff, sym, max, inl, inr, ℕ, zero, suc, ◌+◌, ◌-◌, ◌≡◌, refl, Option, none, some,
  ◌++◌, arith, Text, codes, nat_eq, if◌then◌else◌, eq_text,
}
use aegis_ecosystem.Redis.Laws.{Redis, Entry, bumped, at_time, deadline_after, live-incr_self}

module _ (redis : Redis) where
  open redis use {Store, live, incr, expire}

  -- f"rg:ingest:{agent_id}"
  unfoldable pub rate_key : Text → Text
  rate_key agent = codes "rg:ingest:" ++ agent

  -- the `if` of the script
  unfoldable pub expire_first : Store → ℕ → Text → ℕ → Option (ℕ × Store)
  expire_first s t key current =
      let expired : Option (ℕ × Store) = elim (expire s t key 60) [
        | none ↦ none
        | some s' ↦ some (current, s')
      ] in
      if nat_eq current 1 then expired else some (current, s)

  -- `eval(_RATE_LUA, 1, key, 60)`
  unfoldable pub rate_lua : Store → ℕ → Text → Option (ℕ × Store)
  unfolding expire_first
  rate_lua s t key = elim (incr s t key) [
    | none ↦ none
    | some (current, s') ↦ expire_first s' t key current
  ]

  -- the loop `for _ in range(count - 1): current = await client.incr(key)`; what was counted
  -- before an exception stays counted
  unfoldable pub incr_more : ℕ → Store → ℕ → Text → ℕ → Option ℕ × Store
  incr_more zero s t key current = (some current, s)
  incr_more (suc n) s t key current = elim (incr s t key) [
    | none ↦ (none, s)
    | some (current', s') ↦ incr_more n s' t key current'
  ]

  unfoldable pub count_in_redis : Store → ℕ → Text → ℕ → Option ℕ × Store
  unfolding rate_lua incr_more
  count_in_redis s t key count = elim (rate_lua s t key) [
    | none ↦ (none, s)
    | some (current, s') ↦ incr_more (count - 1) s' t key current
  ]

  -- The counter of a live key.
  abbrev pub counted : Option Entry → ℕ
  counted none = 0
  counted (some e) = e.value

  pub counted-bumped : (o : Option Entry) → (bumped o).value ≡ counted o + 1
  unfolding bumped
  counted-bumped none = omega arith
  counted-bumped (some e) = refl

  -- A count at a time is one more than the count that was live.
  pub incr-counted :
      (s s' : Store) (t n : ℕ) (key : Text)
      → incr s t key ≡ some (n, s')
      → (n ≡ counted (live s t key) + 1) × (counted (live s' t key) ≡ n)
  incr-counted s s' t n key h =
      let reply = redis.incr_reply s s' t key n h in
      let one = counted-bumped (live s t key) in
      (omega arith, rw (live-incr_self redis s s' t key n h) (omega arith))

  -- A time to live does not change the count.
  pub expire-counted :
      (s s' : Store) (t : ℕ) (key : Text) (e : Entry)
      → expire s t key 60 ≡ some s'
      → live s t key ≡ some e
      → counted (live s' t key) ≡ e.value
  unfolding at_time deadline_after
  expire-counted s s' t key e h l =
      rw (redis.expire_writes s s' t t key key 60 e h l (omega arith), (==_iff key key).1 refl)
        (ground arith)

  pub expire_first-counted :
      (s s' : Store) (t current n : ℕ) (key : Text) (e : Entry)
      → live s t key ≡ some e
      → e.value ≡ current
      → expire_first s t key current ≡ some (n, s')
      → (n ≡ current) × (counted (live s' t key) ≡ n)
  unfolding expire_first
  expire_first-counted s s' t current n key e l v h = ground (arith, expire-counted s s' t key e)

  pub rate_lua-counted :
      (s s' : Store) (t n : ℕ) (key : Text)
      → rate_lua s t key ≡ some (n, s')
      → (n ≡ counted (live s t key) + 1) × (counted (live s' t key) ≡ n)
  unfolding rate_lua
  rate_lua-counted s s' t n key h = elim (Option-cases (incr s t key)) [
    | inl e ↦ absurd (ground arith)
    | inr ((m, s1), e) ↦
        let (reply, now) = incr-counted s s1 t m key e in
        let (same, final) =
          expire_first-counted s1 s' t m n key (bumped (live s t key))
            (live-incr_self redis s s1 t key m e) (sym (redis.incr_reply s s1 t key m e))
            (rw (e, rate_lua) at h) in
        (omega arith, final)
  ]

  pub incr_more-counted :
      (k : ℕ) (s : Store) (t current n : ℕ) (key : Text)
      → counted (live s t key) ≡ current
      → (incr_more k s t key current).0 ≡ some n
      → n ≡ current + k
  unfolding incr_more
  incr_more-counted zero s t current n key c h = ground arith
  incr_more-counted (suc k) s t current n key c h = elim (Option-cases (incr s t key)) [
    | inl e ↦ ground arith
    | inr ((m, s1), e) ↦
        let (reply, now) = incr-counted s s1 t m key e in
        let ih = incr_more-counted k s1 t m n key now (rw (e, incr_more) at h) in omega arith
  ]

  pub count_in_redis-counted :
      (s : Store) (t n count : ℕ) (key : Text)
      → (count_in_redis s t key count).0 ≡ some n
      → n ≡ counted (live s t key) + max 1 count
  unfolding count_in_redis
  count_in_redis-counted s t n count key h = elim (Option-cases (rate_lua s t key)) [
    | inl e ↦ absurd (ground arith)
    | inr ((m, s1), e) ↦
        let (first, now) = rate_lua-counted s s1 t m key e in
        let all = incr_more-counted (count - 1) s1 t m n key now (rw (e, count_in_redis) at h) in
        omega arith
  ]
