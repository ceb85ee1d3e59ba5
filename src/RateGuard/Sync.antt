-- ===== src/RateGuard/Sync.antt =====
-- The synchronous calls, `RateGuard.allow` with `_redis_allow`, and `remaining` with the counter in
-- Redis, of aegis-brain/app/core/rate_guard.py: what they do depends on the event loop of the thread.
pub mod Remaining
use aegis_ecosystem.Prelude.{
  ℕ, ◌-◌, Bool, true, Option, none, some, Text, member, leb, if◌then◌else◌, eq_text,
}
use aegis_ecosystem.Redis.Laws.{Redis}
use aegis_ecosystem.RateGuard.{remaining}
use aegis_ecosystem.RateGuard.Shared.{Process, redis_failed, allow_locally}
use aegis_ecosystem.RateGuard.Shared.Counter.{rate_key, count_in_redis}

-- The thread's event loop: it runs, it can be run, or there is none and `get_event_loop` raises.
pub data EventLoop : Type 0 where
  running idle absent : EventLoop

module _ (redis : Redis) where
  open redis use {Store, live, get}

  -- `if self._client is None: self._client = _redis_client()`
  unfoldable pub look_up : Process redis → Bool → Process redis
  look_up p connects = if p.has_client then p else record p { has_client = connects }

  -- what the commands of a call gave
  unfoldable pub conclude : Process redis → ℕ → Option ℕ × Store → Process redis × Option Bool
  unfolding redis_failed
  conclude p now (some current, s) =
      (record p { store = s }, some (leb current p.guard.events_per_min))
  conclude p now (none, s) = (redis_failed redis (record p { store = s }) now, none)

  -- with a client
  unfoldable pub run_commands :
      Process redis → ℕ → ℕ → EventLoop → Text → ℕ → Process redis × Option Bool
  unfolding conclude
  run_commands p now t running agent count = (p, none)
  run_commands p now t absent agent count = (redis_failed redis p now, none)
  run_commands p now t idle agent count =
      conclude p now (count_in_redis redis p.store t (rate_key redis agent) count)

  -- `_redis_allow`
  unfoldable pub redis_allow :
      Process redis → ℕ → ℕ → Bool → EventLoop → Text → ℕ → Process redis × Option Bool
  redis_allow p now t connects loop agent count =
      if leb p.down_until now
      then (let q = look_up p connects in
          if q.has_client then run_commands q now t loop agent count else (q, none))
      else (p, none)

  -- `if decided is not None: return decided`
  unfoldable pub fall_back : ℕ → Text → ℕ → Process redis × Option Bool → Process redis × Bool
  unfolding allow_locally
  fall_back now agent count (p, some verdict) = (p, verdict)
  fall_back now agent count (p, none) = allow_locally redis p now agent count

  unfoldable pub allow : Process redis → ℕ → ℕ → Bool → EventLoop → Text → ℕ → Process redis × Bool
  allow p now t connects loop agent count =
      if member agent p.guard.allowlist
      then (p, true)
      else if p.use_redis
      then fall_back now agent count (redis_allow p now t connects loop agent count)
      else allow_locally redis p now agent count

  unfoldable pub remaining_locally : Process redis → ℕ → Text → Process redis × ℕ
  remaining_locally p now agent =
      let (g, n) = remaining p.guard now agent in (record p { guard = g }, n)

  -- `int(val or 0)`
  unfoldable pub int_or_zero : Option ℕ → ℕ
  int_or_zero none = 0
  int_or_zero (some n) = n

  -- the `get` of the counter, or what follows its exception
  unfoldable pub remaining_in_redis : Process redis → ℕ → ℕ → Text → Process redis × ℕ
  unfolding remaining_locally int_or_zero
  remaining_in_redis p now t agent = elim (get p.store t (rate_key redis agent)) [
    | none ↦ remaining_locally p now agent
    | some count ↦ (p, p.guard.events_per_min - int_or_zero count)
  ]

  -- `remaining` of a thread without a running loop, once the client was looked for
  unfoldable pub remaining_idle : Process redis → ℕ → ℕ → EventLoop → Text → Process redis × ℕ
  unfolding remaining_in_redis
  remaining_idle p now t idle agent =
      if p.has_client then remaining_in_redis p now t agent else remaining_locally p now agent
  remaining_idle p now t absent agent = remaining_locally p now agent
  remaining_idle p now t running agent = remaining_locally p now agent

  unfoldable pub remaining_shared :
      Process redis → ℕ → ℕ → Bool → EventLoop → Text → Process redis × ℕ
  unfolding remaining_idle look_up
  remaining_shared p now t connects running agent = remaining_locally p now agent
  remaining_shared p now t connects idle agent =
      if p.use_redis
      then remaining_idle (look_up p connects) now t idle agent
      else remaining_locally p now agent
  remaining_shared p now t connects absent agent =
      if p.use_redis
      then remaining_idle (look_up p connects) now t absent agent
      else remaining_locally p now agent
