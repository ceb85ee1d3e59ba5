-- ===== src/Consumer.antt =====
-- The consumer of the Redis queue of events, aegis-brain/app/services/redis_consumer.py: `_process_raw`,
-- the body of the loop of `start`, `_to_dlq` and the recovery `_requeue_processing`. Each Redis command
-- may raise. The handlers of an event work on the session's database and are parameters; a session
-- that is left by an exception is rolled back, so that an event has all its effects or none.
pub mod Files
pub mod Ledger
pub mod Recovery
pub mod Security
use aegis_ecosystem.Prelude.{
  ℕ, zero, suc, Bool, true, false, Option, none, some, [], ◌∷◌, Text, codes, if◌then◌else◌, ◌==◌,
  eq_text,
}
use aegis_ecosystem.Redis.Queues.{RedisQueues}

abbrev pub events_list : Text
events_list = codes "aegis:events"

abbrev pub processing_list : Text
processing_list = codes "aegis:events:processing"

abbrev pub dlq_list : Text
dlq_list = codes "aegis:events:dlq"

abbrev pub requeue_max : ℕ
requeue_max = 5000

-- What the consumer does with an event, over the event's type and the database's. `none` is an
-- exception, and of `validate` a text that is no valid event.
pub record Handlers : Type 1 where
  pub Event : Type 0
  pub Db : Type 0
  pub validate : Text → Option Event
  pub event_type : Event → Text
  pub update_agent : Db → Event → Option Db
  pub process_security_event : Db → Event → Option Db
  pub process_file_event : Db → Event → Option Db
  pub process_telemetry : Db → Event → Option Db
  pub correlate : Db → Event → Option Db
  pub commit : Db → Option Db

abbrev pub and_then : {A B : Type 0} → Option A → (A → Option B) → Option B
and_then none f = none
and_then (some a) f = f a

module _ (handlers : Handlers) where
  open handlers use {
    Event, Db, validate, event_type, update_agent, process_security_event, process_file_event,
    process_telemetry, correlate, commit,
  }

  -- 2. Process by Type
  unfoldable pub process_by_type : Db → Event → Option Db
  process_by_type db event =
      let type : Text = event_type event in
      if type == codes "PROCESS_CREATED"
      then process_security_event db event
      else if type == codes "FILE_MODIFIED"
      then process_file_event db event
      else if type == codes "YARA_MATCH"
      then process_file_event db event
      else if type == codes "METRICS_REPORT"
      then process_telemetry db event
      else if type == codes "AGENT_HEARTBEAT"
      then process_telemetry db event
      else some db

  -- the session of one event, up to its commit
  unfoldable pub session : Db → Event → Option Db
  unfolding process_by_type
  session db event = and_then (update_agent db event) λ db1.
      and_then (process_by_type db1 event) λ db2. and_then (correlate db2 event) λ db3. commit db3

  -- a text as an event, and its session
  unfoldable pub committed : Db → Text → Option Db
  unfolding session
  committed db raw = and_then (validate raw) λ event. session db event

module _ (queues : RedisQueues) (handlers : Handlers) where
  open queues use {Store, rpoplpush, brpoplpush, lpush, lrem, ltrim, llen}
  open handlers use {Db}

  pub record World : Type 0 where
    pub store : Store
    pub db : Db

  -- `_process_raw`: the length of the queue is read when the session is committed
  unfoldable pub process_raw : Store → Db → Text → Bool × Db
  unfolding committed
  process_raw s db raw = elim (committed handlers db raw) [
    | none ↦ (false, db)
    | some db' ↦ elim (llen s events_list) [ none ↦ (false, db') | some depth ↦ (true, db') ]
  ]

  -- `_to_dlq`
  unfoldable pub to_dlq : Store → Text → Store
  to_dlq s raw = elim (lpush s dlq_list raw) [
    | none ↦ s
    | some s1 ↦ elim (ltrim s1 dlq_list 9999) [ none ↦ s1 | some s2 ↦ s2 ]
  ]

  -- what follows the verdict of `_process_raw`
  unfoldable pub settle : Store → Text → Bool → Store
  unfolding to_dlq
  settle s raw true = elim (lrem s processing_list raw) [ none ↦ s | some s' ↦ s' ]
  settle s raw false = to_dlq s raw

  -- `if raw_json: ...`
  unfoldable pub handle_raw : Store → Db → Text → World
  unfolding process_raw settle
  handle_raw s db [] = record { store = s; db = db }
  handle_raw s db (c ∷ r) =
      let (ok, db') = process_raw s db (c ∷ r) in record { store = settle s (c ∷ r) ok; db = db' }

  -- the body of the loop
  unfoldable pub iterate : World → World
  unfolding handle_raw
  iterate w = elim (brpoplpush w.store events_list processing_list) [
    | none ↦ w
    | some (none, s) ↦ record w { store = s }
    | some (some raw, s) ↦ handle_raw s w.db raw
  ]

  -- `_requeue_processing`, with the rounds that are left: the number of events moved
  unfoldable pub requeue : ℕ → Store → Store × ℕ
  requeue zero s = (s, 0)
  requeue (suc left) s = elim (rpoplpush s processing_list events_list) [
    | none ↦ (s, 0)
    | some (none, s') ↦ (s', 0)
    | some (some raw, s') ↦ let (s'', moved) = requeue left s' in (s'', suc moved)
  ]

  -- the start of the consumer, up to its loop
  unfoldable pub recover : World → World
  unfolding requeue
  recover w = record w { store = (requeue requeue_max w.store).0 }
