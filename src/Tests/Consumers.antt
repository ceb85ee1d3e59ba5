-- ===== src/Tests/Consumers.antt =====
-- Runs of the consumer of events.
use aegis_ecosystem.Prelude.{
  ◌≡◌, refl, ◌+◌, none, some, List, [], ◌∷◌, ◌++◌, arith, Text, codes, count, text_eq, eq_text,
  if◌then◌else◌, ◌==◌,
}
use aegis_ecosystem.Prelude.Dict.{insert, lookup}
use aegis_ecosystem.Redis.Lists.{items_of}
use aegis_ecosystem.Redis.Queues.Memory.{
  memory_queues, memory_queues-IsAnswering, move_last, remove_one, push_left, trim_left,
}
use aegis_ecosystem.Consumer.{Handlers, World, iterate, recover, events_list, processing_list}
use aegis_ecosystem.Consumer.Ledger.{Runs, held, confirmed, held-Runs}
use aegis_ecosystem.Consumer.Recovery.{outcome, iterations, iterations-recover}

-- A database is the texts processed; the text "?" is no event.
abbrev handlers : Handlers
handlers = record {
  Event = Text;
  Db = List Text;
  validate = λ raw. if raw == codes "?" then none else some raw;
  event_type = λ event. codes "PROCESS_CREATED";
  update_agent = λ db event. some db;
  process_security_event = λ db event. some (event ∷ db);
  process_file_event = λ db event. some db;
  process_telemetry = λ db event. some db;
  correlate = λ db event. some db;
  commit = λ db. some db;
}

-- "a" was left in processing; "?" and "b" wait, "b" for longer.
abbrev start : World memory_queues handlers
start = record {
  store = (processing_list, codes "a" ∷ []) ∷ (events_list, codes "?" ∷ codes "b" ∷ []) ∷ [];
  db = [];
}

taken : (iterate memory_queues handlers start).db ≡ codes "b" ∷ []
unfolding iterate move_last lookup insert text_eq
taken = refl

failed_stays :
    items_of
      (iterations memory_queues handlers 3 (recover memory_queues handlers start)).store
      processing_list
    ≡ codes "?" ∷ []
unfolding recover iterations move_last remove_one push_left trim_left lookup insert text_eq
failed_stays = refl

held-Runs_example :
    let v = iterate memory_queues handlers start in
    held memory_queues handlers v.store (codes "b")
      + count (codes "b") (confirmed memory_queues handlers start ++ [])
    ≡ held memory_queues handlers start.store (codes "b") + count (codes "b") []
held-Runs_example =
    held-Runs memory_queues handlers start (iterate memory_queues handlers start) []
      (confirmed memory_queues handlers start ++ []) (codes "b") (Runs.iterates Runs.here)

iterations-recover_example :
    let v = iterations memory_queues handlers 3 (recover memory_queues handlers start) in
    (items_of v.store events_list ≡ [])
    × ((v.db, items_of v.store processing_list)
        ≡ outcome handlers [] (codes "b" ∷ codes "?" ∷ codes "a" ∷ []) [])
unfolding items_of lookup text_eq
iterations-recover_example =
    iterations-recover memory_queues handlers memory_queues-IsAnswering start (omega arith)
