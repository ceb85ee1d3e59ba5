-- ===== src/Tests/Pipelines.antt =====
-- Runs of the parsing and the pipeline of logs.
use aegis_ecosystem.Prelude.{
  ◌≡◌, refl, ◌+◌, true, false, Option, none, some, List, [], ◌∷◌, ◌++◌, arith, Text, codes, length,
  take, drop, text_eq, starts_with, strip, lower, member, contains, ℕ,
}
use aegis_ecosystem.Prelude.Dict.{Dict, insert, lookup}
use aegis_ecosystem.Redis.Laws.{Entry, reply_true, reply_none, at_time, deadline_after}
use aegis_ecosystem.Redis.Memory.{memory_redis, live, set_nx}
use aegis_ecosystem.Ingest.Texts.{splitlines}
use aegis_ecosystem.Ingest.Registry.{
  Parser, Registry, text, parsed, parser_error, register, empty_registry, get, detect,
}
use aegis_ecosystem.Ingest.Parse.{parse, max_auto_lines, with_source}
use aegis_ecosystem.Ingest.Parse.Lines.{all_events, unparsed_of, parse-all_events}
use aegis_ecosystem.Ingest.Stages.{Stages, event_key, claim_all}
use aegis_ecosystem.Ingest.Pipeline.{World, process_events, store}
use aegis_ecosystem.Ingest.Payload.{Sources, Settings, Reply, ingest_payload}
use aegis_ecosystem.Ingest.Pipeline.Retry.{Claims, process_events-retry}

-- A parser of the lines that start with a word.
abbrev word_parser : Text → Text → Parser Text
word_parser name word = record {
  name = name;
  source_type = name;
  can_parse = λ payload meta. elim payload [ text s ↦ some (starts_with word s) | _ ↦ none ];
  parse = λ payload meta. elim payload [ text s ↦ parsed (s ∷ []) | _ ↦ parser_error [] ];
}

abbrev registry : Registry Text
registry =
    register (register empty_registry (word_parser (codes "zeek") (codes "conn")) [] false)
      (word_parser (codes "squid") (codes "GET")) (codes "proxy" ∷ []) false

abbrev payload : Text
payload = codes " conn 1\n\nwhat\nGET /\n"

parse_payload :
    (parse (λ s. s) (λ s. s) registry (codes "relay") (text payload) []).events
    ≡ codes "conn 1" ∷ codes "GET /" ∷ []
unfolding parse register lookup insert text_eq starts_with strip lower member contains
parse_payload = refl

parse-all_events_example :
    let r = parse (λ s. s) (λ s. s) registry (codes "relay") (text payload) [] in
    let meta = with_source (codes "relay") [] in
    let first = take max_auto_lines (splitlines payload) in
    (r.events ≡ all_events registry meta first)
    × (r.unparsed
        ≡ unparsed_of registry meta first + length (drop max_auto_lines (splitlines payload)))
unfolding get detect register with_source lookup insert text_eq starts_with strip lower member
    contains
parse-all_events_example =
    parse-all_events (λ s. s) (λ s. s) registry (codes "relay") payload [] refl refl refl

-- Events are their ids. A database is its rows; one that is full takes no more.
record Table : Type 0 where
  full : Option Text
  table : List Text

same_rows : (db db' : Table) → some db ≡ some db' → db'.table ≡ db.table
same_rows db db' h = ground arith

same_rows_beside :
    {B : Type 0} (db db' : Table) (a b : B)
    → ◌≡◌ {A = Option (B × Table)} (some (a, db)) (some (b, db'))
    → db'.table ≡ db.table
same_rows_beside db db' a b h = ground arith

no_rows : (db db' : Table) → none ≡ some db' → db'.table ≡ db.table
no_rows db db' h = cc

append_rows : Table → List Text → Option Table
append_rows db events = elim db.full [
  | none ↦ some (record db { table = db.table ++ events })
  | some why ↦ none
]

append_rows_lem :
    (db db' : Table) (events : List Text)
    → append_rows db events ≡ some db'
    → db'.table ≡ db.table ++ events
unfolding append_rows
append_rows_lem db db' events h = ground arith

abbrev stages : Stages Text
stages = record {
  event_id = λ event. event;
  Db = Table;
  rows = λ db. db.table;
  ensure_monthly_partitions = λ db. some db;
  insert_rows = append_rows;
  commit = λ db. some db;
  SigmaMatch = Text;
  CorrelationMatch = Text;
  Alert = Text;
  Agent = Text;
  sigma_evaluate = λ event. event ∷ [];
  correlation_evaluate = λ events. none;
  sigma_title = λ m. m;
  correlation_title = λ m. m;
  sorted_set = λ titles. titles;
  get_or_create_source_agent = λ db. some (codes "agent", db);
  alert_from_sigma = λ event m agent. m;
  alert_from_correlation = λ m agent. m;
  flush_alerts = λ db alerts. some (length alerts ∷ [], db);
  alerts_by_id = λ db ids. some (codes "alert" ∷ []);
  check_and_execute_playbooks = λ db alert. none;
  notify_alert = λ db alert. none;
  partitions_rows = same_rows;
  insert_rows_appends = append_rows_lem;
  commit_rows = same_rows;
  agent_rows = λ db db' a h. same_rows_beside db db' (codes "agent") a h;
  flush_rows = λ db db' new ids h. same_rows_beside db db' (length new ∷ []) ids h;
  playbooks_rows = λ db db' a h. no_rows db db' h;
  notify_rows = λ db db' a h. no_rows db db' h;
}

abbrev empty_world : Option Text → World memory_redis stages 60
empty_world full = record { store = []; db = record { full = full; table = [] } }

abbrev request : ℕ → List (ℕ × Text)
request t = (t, codes "e1") ∷ (t, codes "e2") ∷ []

twice :
    (process_events memory_redis stages 60 (empty_world none) (request 5 ++ request 6)).0.stored ≡ 2
unfolding process_events append_rows live set_nx lookup insert text_eq deadline_after at_time
twice = refl

abbrev claimed_until : ℕ → Entry
claimed_until deadline = record { value = 1; deadline = some deadline }

-- the server behind the claim of "e1", and behind both claims
abbrev claimed_one : Dict Text Entry
claimed_one = (event_key (codes "e1"), claimed_until 60005) ∷ []

abbrev claimed_both : Dict Text Entry
claimed_both = claimed_one ++ (event_key (codes "e2"), claimed_until 60005) ∷ []

first_claims : Claims memory_redis (λ event. event) 60 5 60005 5 [] (request 5) claimed_both
unfolding set_nx live lookup insert text_eq deadline_after at_time
first_claims =
    Claims.claim 5 (codes "e1") b'e' (codes "1") reply_true claimed_one (omega arith) (omega arith)
      refl refl
      (Claims.claim 5 (codes "e2") b'e' (codes "2") reply_true claimed_both (omega arith)
        (omega arith) refl refl (Claims.done (omega arith)))

second_claims :
    Claims memory_redis (λ event. event) 60 6 60005 5 claimed_both (request 6) claimed_both
unfolding set_nx live lookup insert text_eq deadline_after at_time
second_claims =
    Claims.claim 6 (codes "e1") b'e' (codes "1") reply_none claimed_both (omega arith) (omega arith)
      refl refl
      (Claims.claim 6 (codes "e2") b'e' (codes "2") reply_none claimed_both (omega arith)
        (omega arith) refl refl (Claims.done (omega arith)))

process_events-retry_example :
    let w = empty_world (some (codes "disk full")) in
    let r1 = process_events memory_redis stages 60 w (request 5) in
    let r2 = process_events memory_redis stages 60 r1.1 (request 6) in
    (r1.0.error ≡ some (codes "store failed"))
    × (r2.0.duplicates ≡ 2)
    × (r2.0.stored ≡ 0)
    × (r2.1.db ≡ w.db)
unfolding append_rows claim_all store set_nx live lookup insert text_eq deadline_after at_time
process_events-retry_example =
    process_events-retry memory_redis stages 60 (empty_world (some (codes "disk full")))
      (5, codes "e1") ((5, codes "e2") ∷ []) (request 6) 5 5 6 60005 claimed_both claimed_both
      (omega arith) (omega arith) first_claims second_claims refl refl refl

abbrev sources : Sources stages
sources = record {
  source_type_of = λ event. codes "log";
  upsert_source = λ db name kind parser description. some db;
  record_source_result = λ db name accepted invalid error. db;
  upsert_rows = λ db db' name kind parser description h. same_rows db db' h;
  record_rows = λ db name accepted invalid error. refl;
}

abbrev settings : Settings
settings = record { enabled = true; max_events = 1; received_at = codes "now" }

abbrev ingested : Reply × World memory_redis stages 60
ingested =
    ingest_payload memory_redis stages sources 60 settings (λ s. s) (λ s. s) registry (λ n. n)
      (empty_world none) (codes "relay") (text payload) [] none

-- of the two events of the payload, the limit of a request lets one through
limited : ingested.1.db.table ≡ codes "conn 1" ∷ []
unfolding ingest_payload register append_rows live set_nx lookup insert text_eq deadline_after
    at_time starts_with strip lower member contains
limited = refl
