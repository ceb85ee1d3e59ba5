-- ===== src/RateGuard/Sync/Remaining.antt =====
-- The synchronous call against the asynchronous one and against `remaining`, of
-- aegis-brain/app/core/rate_guard.py.
use aegis_ecosystem.Prelude.{
  ℕ, ◌-◌, ◌≤◌, ◌<◌, ◌≡◌, refl, ◌∙◌, ap, Bool, true, false, Option, none, some, arith, Text, member,
  leb, if◌then◌else◌, eq_text, Bool-cases, Option-cases, inl, inr,
}
use aegis_ecosystem.Redis.Laws.{Redis}
use aegis_ecosystem.RateGuard.Shared.{
  Process, connect, decide, allow_connected, allow_async, allow_async-shared,
}
use aegis_ecosystem.RateGuard.Shared.Counter.{rate_key, count_in_redis, counted}
use aegis_ecosystem.RateGuard.Sync.{
  idle, look_up, conclude, run_commands, redis_allow, fall_back, allow, int_or_zero,
  remaining_in_redis, remaining_shared,
}

module _ (redis : Redis) where
  open redis use {Store, live, get}

  conclude_lem :
      (p : Process redis) (now : ℕ) (agent : Text) (count : ℕ) (r : Option ℕ × Store)
      → fall_back redis now agent count (conclude redis p now r) ≡ decide redis p now agent count r
  unfolding fall_back conclude decide
  conclude_lem p now agent count (none, s) = refl
  conclude_lem p now agent count (some n, s) = refl

  connected_lem :
      (p : Process redis) (now t : ℕ) (agent : Text) (count : ℕ)
      → p.use_redis ≡ true
      → fall_back redis now agent count
          (if p.has_client then run_commands redis p now t idle agent count else (p, none))
        ≡ allow_connected redis p now t agent count
  unfolding allow_connected fall_back run_commands
  connected_lem p now t agent count u = ground (
    arith,
    conclude_lem p now agent count (count_in_redis redis p.store t (rate_key redis agent) count),
  )

  look_up_lem :
      (p : Process redis) (now : ℕ) (connects : Bool)
      → p.down_until ≤ now
      → p.use_redis ≡ true
      → (look_up redis p connects ≡ connect redis p now connects)
        × ((look_up redis p connects).use_redis ≡ true)
  unfolding look_up connect
  look_up_lem p now connects over u = ground arith

  allow-redis_allow :
      (p : Process redis) (now t : ℕ) (connects : Bool) (agent : Text) (count : ℕ)
      → member agent p.guard.allowlist ≡ false
      → p.use_redis ≡ true
      → allow redis p now t connects idle agent count
        ≡ fall_back redis now agent count (redis_allow redis p now t connects idle agent count)
  unfolding allow
  allow-redis_allow p now t connects agent count a u = ground arith

  redis_allow-look_up :
      (p : Process redis) (now t : ℕ) (connects : Bool) (agent : Text) (count : ℕ)
      → p.down_until ≤ now
      → redis_allow redis p now t connects idle agent count ≡ (
          if (look_up redis p connects).has_client
          then run_commands redis (look_up redis p connects) now t idle agent count
          else (look_up redis p connects, none))
  unfolding redis_allow
  redis_allow-look_up p now t connects agent count over = ground arith

  allow_async-connect :
      (p : Process redis) (now t : ℕ) (connects : Bool) (agent : Text) (count : ℕ)
      → member agent p.guard.allowlist ≡ false
      → allow_connected redis (connect redis p now connects) now t agent count
        ≡ allow_async redis p now t connects agent count
  unfolding allow_async
  allow_async-connect p now t connects agent count a = ground arith

  -- Where no cooldown after a failure of Redis runs and the thread's loop can be run, the synchronous
  -- call has the verdict and the effects of the asynchronous one.
  pub allow-allow_async :
      (p : Process redis) (now t : ℕ) (connects : Bool) (agent : Text) (count : ℕ)
      → p.down_until ≤ now
      → allow redis p now t connects idle agent count
        ≡ allow_async redis p now t connects agent count
  unfolding allow allow_async allow_connected connect
  allow-allow_async p now t connects agent count over =
      elim (Bool-cases (member agent p.guard.allowlist)) [
        | inl a ↦ rw (a, allow, allow_async) refl
        | inr a ↦ elim (Bool-cases p.use_redis) [
          | inl u ↦
              let (same, shared) = look_up_lem p now connects over u in
              allow-redis_allow p now t connects agent count a u
              ∙ ap (fall_back redis now agent count)
                  (redis_allow-look_up p now t connects agent count over)
              ∙ connected_lem (look_up redis p connects) now t agent count shared
              ∙ ap (λ q. allow_connected redis q now t agent count) same
              ∙ allow_async-connect p now t connects agent count a
          | inr u ↦ ground arith
        ]
      ]

  module _ (p : Process redis) (now t : ℕ) (connects : Bool) (agent : Text) (u : p.use_redis ≡ true)
      (c : p.has_client ≡ true) where
    look_up_known : look_up redis p connects ≡ p
    unfolding look_up
    look_up_known = ground arith

    remaining-in_redis :
        remaining_shared redis p now t connects idle agent ≡ remaining_in_redis redis p now t agent
    unfolding remaining_shared
    remaining-in_redis =
        let known : (look_up redis p connects).has_client ≡ true = rw look_up_known c in
        let moved = ap (λ q. remaining_in_redis redis q now t agent) look_up_known in
        ground (arith, known, moved)

    remaining-counted :
        (r : Option ℕ)
        → get p.store t (rate_key redis agent) ≡ some r
        → (remaining_shared redis p now t connects idle agent).1
          ≡ p.guard.events_per_min - counted redis (live p.store t (rate_key redis agent))
    unfolding remaining_in_redis int_or_zero
    remaining-counted r h =
        let read = redis.get_reads p.store t (rate_key redis agent) r h in
        ap (λ x. x.1) remaining-in_redis
        ∙ elim (Option-cases (live p.store t (rate_key redis agent))) [
          | inl e ↦
              let none_read : r ≡ none = rw e at read in
              rw (h, remaining_in_redis, none_read, e) refl
          | inr (x, e) ↦
              let value_read : r ≡ some x.value = rw e at read in
              rw (h, remaining_in_redis, value_read, e) refl
        ]

    -- While the guard has its client, no cooldown runs and Redis answers: a synchronous call for n > 0
    -- events of an agent that is not allow-listed, in a thread whose loop can be run, is let through
    -- exactly when n is at most what `remaining` reports at that time.
    pub allow-remaining_shared :
        (count n : ℕ) (r : Option ℕ)
        → p.down_until ≤ now
        → member agent p.guard.allowlist ≡ false
        → get p.store t (rate_key redis agent) ≡ some r
        → (count_in_redis redis p.store t (rate_key redis agent) count).0 ≡ some n
        → 0 < count
        → (allow redis p now t connects idle agent count).1
          ≡ leb count (remaining_shared redis p now t connects idle agent).1
    allow-remaining_shared count n r over a h counts pos =
        let shared = allow_async-shared redis p now t connects agent count n a u c counts in
        ap (λ x. x.1) (allow-allow_async p now t connects agent count over)
        ∙ shared.0
        ∙ rw (remaining-counted r h) (ground arith)
