-- ===== src/RateGuard/Shared.antt =====
-- The shared budget, `RateGuard.allow_async` of aegis-brain/app/core/rate_guard.py: the counter in
-- Redis first (Shared/Counter), the windows in memory where Redis does not answer.
pub mod Counter
use aegis_ecosystem.Prelude.{
  Option-cases, ==_iff, sym, max, ◌<◌, inl, inr, ℕ, zero, suc, ◌+◌, ◌-◌, ◌*◌, ◌≡◌, refl, Bool, true,
  false, not, ◌&&◌, Option, none, some, ◌++◌, arith, Text, codes, member, leb, nat_eq,
  if◌then◌else◌, eq_text,
}
use aegis_ecosystem.Redis.Laws.{Redis, Entry, bumped, at_time, deadline_after, live-incr_self}
use aegis_ecosystem.RateGuard.{second, RateGuard, local_allow}
use aegis_ecosystem.RateGuard.Shared.Counter.{
  rate_key, count_in_redis, counted, count_in_redis-counted,
}

module _ (redis : Redis) where
  open redis use {Store, live, incr, expire}

  -- The process: the server's store, the guard with its client, and `_REDIS_DOWN_UNTIL`.
  pub record Process : Type 0 where
    pub store : Store
    pub guard : RateGuard
    pub use_redis : Bool
    pub has_client : Bool
    pub redis_warned : Bool
    pub down_until : ℕ

  -- the `except` branch
  unfoldable pub redis_failed : Process → ℕ → Process
  redis_failed p now = record p {
    down_until = now + 60 * second;
    redis_warned = true;
    has_client = false;
  }

  unfoldable pub allow_locally : Process → ℕ → Text → ℕ → Process × Bool
  allow_locally p now agent count =
      let (g, verdict) = local_allow p.guard now agent count in (record p { guard = g }, verdict)

  -- `connects` says whether `_redis_client()` returns a client; `t` is the server's clock.
  unfoldable pub connect : Process → ℕ → Bool → Process
  connect p now connects =
      if p.use_redis && (not p.has_client && leb p.down_until now)
      then record p { has_client = connects }
      else p

  unfoldable pub decide : Process → ℕ → Text → ℕ → Option ℕ × Store → Process × Bool
  unfolding redis_failed allow_locally
  decide p now agent count (some current, s) =
      (record p { store = s }, leb current p.guard.events_per_min)
  decide p now agent count (none, s) =
      allow_locally (redis_failed (record p { store = s }) now) now agent count

  -- the call after the client was looked for
  unfoldable pub allow_connected : Process → ℕ → ℕ → Text → ℕ → Process × Bool
  allow_connected p now t agent count =
      if p.use_redis && p.has_client
      then decide p now agent count (count_in_redis redis p.store t (rate_key redis agent) count)
      else allow_locally p now agent count

  unfoldable pub allow_async : Process → ℕ → ℕ → Bool → Text → ℕ → Process × Bool
  allow_async p now t connects agent count =
      if member agent p.guard.allowlist
      then (p, true)
      else allow_connected (connect p now connects) now t agent count

  decide-counted :
      (p : Process) (now : ℕ) (agent : Text) (count n : ℕ) (r : Option ℕ × Store)
      → r.0 ≡ some n
      → ((decide p now agent count r).1 ≡ leb n p.guard.events_per_min)
        × ((decide p now agent count r).0.guard ≡ p.guard)
  unfolding decide
  decide-counted p now agent count n (none, s) h = absurd (ground arith)
  decide-counted p now agent count n (some m, s) h = (ground arith, refl)

  decide-failed :
      (p : Process) (now : ℕ) (agent : Text) (count : ℕ) (r : Option ℕ × Store)
      → r.0 ≡ none
      → ((decide p now agent count r).1 ≡ (local_allow p.guard now agent count).1)
        × ((decide p now agent count r).0.has_client ≡ false)
        × ((decide p now agent count r).0.down_until ≡ now + 60 * second)
  unfolding decide
  decide-failed p now agent count (none, s) h = (refl, refl, refl)
  decide-failed p now agent count (some m, s) h = absurd (ground arith)

  -- A guard that waits after a failure does not reach Redis.
  store-allow_async :
      (p : Process) (now t : ℕ) (connects : Bool) (agent : Text) (count : ℕ)
      → p.has_client ≡ false
      → now < p.down_until
      → (allow_async p now t connects agent count).0.store ≡ p.store
  unfolding allow_async allow_connected connect allow_locally
  store-allow_async p now t connects agent count c late = ground arith

  module _ (p : Process) (now t : ℕ) (connects : Bool) (agent : Text) (count : ℕ) where
    reached :
        member agent p.guard.allowlist ≡ false
        → p.use_redis ≡ true
        → p.has_client ≡ true
        → allow_async p now t connects agent count
          ≡ decide p now agent count (count_in_redis redis p.store t (rate_key redis agent) count)
    unfolding allow_async allow_connected
    reached a u c =
        let same : connect p now connects ≡ p = unfold connect in ground arith in rw (a, same, u, c)

    -- While the guard has its client and Redis answers every command of the call, an agent that is
    -- not allow-listed is let through exactly when the counter that was live for it, plus the
    -- call's events (a call for no event counts as one), is within the budget; the guard's windows
    -- stay as they were.
    pub allow_async-shared :
        (n : ℕ)
        → member agent p.guard.allowlist ≡ false
        → p.use_redis ≡ true
        → p.has_client ≡ true
        → (count_in_redis redis p.store t (rate_key redis agent) count).0 ≡ some n
        → ((allow_async p now t connects agent count).1
            ≡ leb
                (counted redis (live p.store t (rate_key redis agent)) + max 1 count)
                p.guard.events_per_min)
          × ((allow_async p now t connects agent count).0.guard ≡ p.guard)
    allow_async-shared n a u c h =
        let total = count_in_redis-counted redis p.store t n count (rate_key redis agent) h in
        rw (reached a u c, ← total)
          (decide-counted p now agent count n
            (count_in_redis redis p.store t (rate_key redis agent) count) h)

    -- While the guard has its client, if a command of the call for an agent that is not allow-listed
    -- fails, the verdict is that of the windows in memory, and a next call within 60 s leaves the
    -- server as it was.
    pub allow_async-fallback :
        (now' t' : ℕ) (connects' : Bool) (agent' : Text) (count' : ℕ)
        → member agent p.guard.allowlist ≡ false
        → p.use_redis ≡ true
        → p.has_client ≡ true
        → (count_in_redis redis p.store t (rate_key redis agent) count).0 ≡ none
        → now' < now + 60 * second
        → let failed = allow_async p now t connects agent count in
          (failed.1 ≡ (local_allow p.guard now agent count).1)
          × ((allow_async failed.0 now' t' connects' agent' count').0.store ≡ failed.0.store)
    allow_async-fallback now' t' connects' agent' count' a u c h late =
        let (verdict, client, down) =
          decide-failed p now agent count
            (count_in_redis redis p.store t (rate_key redis agent) count) h in
        rw (reached a u c) (
          verdict,
          store-allow_async
              (decide p now agent count
                (count_in_redis redis p.store t (rate_key redis agent) count)).0
              now' t' connects' agent' count' client (rw down late),
        )
