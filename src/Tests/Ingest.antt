-- ===== src/Tests/Ingest.antt =====
-- Runs of deduplication, gap counting and the ingestion budget.
use aegis_ecosystem.Prelude.{
  ◌+◌, ◌≤◌, ◌≡◌, refl, true, false, Option, none, some, List, [], ◌∷◌, arith, Text, text_eq, leb,
  member, eq_text, eq_pair, ◌⊎◌,
}
use aegis_ecosystem.Prelude.Dict.{lookup, insert}
use aegis_ecosystem.Redis.Laws.{reply_none, at_time, bumped}
use aegis_ecosystem.Redis.Memory.{get, memory_redis, live, incr, expire, set_nx}
use aegis_ecosystem.Redis.Offline.{offline_redis}
use aegis_ecosystem.Dedup
use aegis_ecosystem.Dedup.{check}
use aegis_ecosystem.Dedup.History.{check_all, keys_of, recent, verdict-check_all}
use aegis_ecosystem.Dedup.Shared.{Worker, dedup_key, is_duplicate, verdict-is_duplicate}
use aegis_ecosystem.Sequence
use aegis_ecosystem.Sequence.Accounting.{observe_all, maximum, observe_all-gap_events}
use aegis_ecosystem.RateGuard.{RateGuard}
use aegis_ecosystem.RateGuard.Budget.{Call, admitted, admitted-le-budget}
use aegis_ecosystem.RateGuard.Sync.{idle, allow, remaining_shared}
use aegis_ecosystem.RateGuard.Sync.Remaining.{allow-remaining_shared}
use aegis_ecosystem.RateGuard.Shared.{Process}
use aegis_ecosystem.RateGuard.Shared.Counter.{
  rate_key, count_in_redis, rate_lua, incr_more, expire_first,
}

abbrev agent : Text
agent = b'a' ∷ []

abbrev calls : List (Text × Option Text)
calls =
    (agent, some (1 ∷ [])) ∷ (agent, none) ∷ (agent, some (2 ∷ [])) ∷ (agent, some (1 ∷ [])) ∷ []

verdict-check_all_example :
    (check (check_all (Dedup.init 2) calls) agent (some (2 ∷ []))).1
    ≡ member (agent, 2 ∷ []) (recent 2 (keys_of calls))
verdict-check_all_example = verdict-check_all 2 calls agent (some (2 ∷ []))

abbrev seen_before : memory_redis.Store
seen_before =
    (dedup_key memory_redis agent (5 ∷ []), record { value = 1; deadline = some 90_000 }) ∷ []

abbrev worker : Worker memory_redis
worker = record { store = seen_before; dedup = Dedup.init 2 }

verdict-is_duplicate_example :
    (is_duplicate memory_redis 1_000 60 true worker agent (some (5 ∷ []))).0 ≡ false
unfolding check live member lookup Dedup.init text_eq dedup_key set_nx at_time
verdict-is_duplicate_example =
    verdict-is_duplicate memory_redis 1_000 60 worker agent 5 [] reply_none seen_before refl

observe_all-gap_events_example :
    (lookup (agent, agent) (observe_all agent agent Sequence.init (3 ∷ 4 ∷ 9 ∷ 5 ∷ [])).last
      ≡ some (maximum agent agent 3 (4 ∷ 9 ∷ 5 ∷ [])))
    × ((observe_all agent agent Sequence.init (3 ∷ 4 ∷ 9 ∷ 5 ∷ [])).gap_events
          + (observe_all agent agent Sequence.init (3 ∷ 4 ∷ 9 ∷ 5 ∷ [])).tracked
          + 3
          + Sequence.init.late
        ≡ (observe_all agent agent Sequence.init (3 ∷ 4 ∷ 9 ∷ 5 ∷ [])).late
          + maximum agent agent 3 (4 ∷ 9 ∷ 5 ∷ [])
          + 1
          + Sequence.init.gap_events
          + Sequence.init.tracked)
unfolding lookup
observe_all-gap_events_example =
    observe_all-gap_events agent agent Sequence.init 3 (4 ∷ 9 ∷ 5 ∷ [])
      (unfold Sequence.init in refl)

abbrev guard : RateGuard
guard = record {
  events_per_min = 10;
  windows = (agent, record { count = 7; start = 0 }) ∷ [];
  allowlist = [];
}

abbrev traffic : List Call
traffic =
    record { now = 5; agent = agent; count = 2 }
    ∷ record { now = 6; agent = []; count = 9 }
    ∷ record { now = 7; agent = agent; count = 4 }
    ∷ []

admitted-le-budget_example :
    (admitted agent guard traffic ≡ 0) ⊎ (7 + admitted agent guard traffic ≤ 10)
unfolding lookup text_eq member
admitted-le-budget_example =
    admitted-le-budget traffic guard agent (record { count = 7; start = 0 }) (refl, tt) refl
      (omega arith, (omega arith, (omega arith, tt)))

abbrev process : Process memory_redis
process = record {
  store = [];
  guard = guard;
  use_redis = true;
  has_client = true;
  redis_warned = false;
  down_until = 0;
}

allow-remaining_shared_example :
    (allow memory_redis process 5 1_000 true idle agent 3).1
    ≡ leb 3 (remaining_shared memory_redis process 5 1_000 true idle agent).1
unfolding member rate_key count_in_redis rate_lua incr_more expire_first lookup text_eq incr expire
    live bumped at_time insert get
allow-remaining_shared_example =
    allow-remaining_shared memory_redis process 5 1_000 true agent refl refl 3 3 none (omega arith)
      refl refl refl (omega arith)

abbrev cut_off : Process offline_redis
cut_off = record {
  store = tt;
  guard = guard;
  use_redis = true;
  has_client = true;
  redis_warned = false;
  down_until = 0;
}
