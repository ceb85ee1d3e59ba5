-- ===== src/Ingest/Payload.antt =====
-- The ingestion of one payload, `ingest_payload` of aegis-brain/app/services/siem_pipeline.py: parsed
-- by the registry, cut to the limit of a request, processed, and noted with its source. The register of
-- sources of aegis-brain/app/services/siem_store.py is the interface `Sources`.

pub mod Stored
use aegis_ecosystem.Prelude.{
  ℕ, suc, ◌≡◌, Bool, Option, none, some, List, [], ◌∷◌, ◌++◌, Text, codes, take, max, eq_text,
  if◌then◌else◌,
}
use aegis_ecosystem.Prelude.Dict.{lookup, insert}
use aegis_ecosystem.Json.{Json}
use aegis_ecosystem.Redis.Laws.{Redis}
use aegis_ecosystem.Ingest.Registry.{Payload, Meta, Registry, ParseResult, DetectedBy}
use aegis_ecosystem.Ingest.Parse.{parse, with_source}
use aegis_ecosystem.Ingest.Stages.{Stages, no_detection}
use aegis_ecosystem.Ingest.Pipeline.{Outcome, World, process_events, commit_or_rollback}

-- `record_source_result` never raises.
pub record Sources {A : Type 0} (stages : Stages A) : Type 0 where
  pub source_type_of : A → Text
  -- a source's name, its type, its parser and its description
  pub upsert_source : stages.Db → Text → Json → Text → Option Json → Option stages.Db
  -- a source's name, how many events were accepted and how many invalid, and the error
  pub record_source_result : stages.Db → Text → ℕ → ℕ → Option Text → stages.Db
  pub upsert_rows :
      (db db' : stages.Db) (name : Text) (kind : Json) (parser : Text) (description : Option Json)
      → upsert_source db name kind parser description ≡ some db'
      → stages.rows db' ≡ stages.rows db
  pub record_rows :
      (db : stages.Db) (name : Text) (accepted invalid : ℕ) (error : Option Text)
      → stages.rows (record_source_result db name accepted invalid error) ≡ stages.rows db

-- `settings`, and the received time as a text
pub record Settings : Type 0 where
  pub enabled : Bool
  pub max_events : ℕ
  pub received_at : Text

pub data Reply : Type 0 where
  disabled : Reply
  report : Option Text → DetectedBy → ℕ → List Text → Outcome → Reply

-- `"; ".join(errors[:2])`
unfoldable pub two_errors : List Text → Text
two_errors [] = []
two_errors (e ∷ []) = e
two_errors (e ∷ f ∷ rest) = e ++ (codes "; " ++ f)

-- `parser or source_name`
unfoldable pub name_or : Option Text → Text → Text
name_or none name = name
name_or (some []) name = name
name_or (some (c ∷ parser)) name = c ∷ parser

abbrev pub nothing_accepted : Outcome
nothing_accepted = record {
  accepted = 0;
  duplicates = 0;
  stored = 0;
  detection = no_detection;
  error = none;
}

-- `meta.setdefault("received_at", ...)` behind `meta.setdefault("source", ...)`
unfoldable pub received : Text → Text → Meta → Meta
unfolding with_source
received name at meta =
    let m = with_source name meta in
    elim (lookup (codes "received_at") m) [
      | none ↦ insert (codes "received_at") (Json.text at) m
      | some v ↦ m
    ]

module _ {A : Type 0} where
  -- the events of a request with the times of their claims
  unfoldable pub timed : (ℕ → ℕ) → ℕ → List A → List (ℕ × A)
  timed clock n [] = []
  timed clock n (event ∷ events) = (clock n, event) ∷ timed clock (suc n) events

  unfoldable pub type_of_request : (A → Text) → List A → Meta → Json
  type_of_request source_type_of [] meta = elim (lookup (codes "source_type") meta) [
    | none ↦ Json.text (codes "unknown")
    | some v ↦ v
  ]
  type_of_request source_type_of (event ∷ events) meta = Json.text (source_type_of event)

module _ {A : Type 0} (redis : Redis) (stages : Stages A) (sources : Sources stages) (ttl : ℕ) where
  open stages use {Db}
  open sources use {source_type_of, upsert_source, record_source_result}

  -- the source is registered, or the session rolled back
  unfoldable pub register_source : Db → Text → Json → Text → Option Json → Db
  unfolding commit_or_rollback
  register_source db name kind parser description =
      elim (upsert_source db name kind parser description) [
        | none ↦ db
        | some db' ↦ commit_or_rollback stages db db'
      ]

  -- the events of a parsed payload, processed and noted with the source
  unfoldable pub ingest_events :
      World redis stages ttl
      → Text
      → (ℕ → ℕ)
      → ParseResult A
      → List A
      → Outcome × World redis stages ttl
  unfolding two_errors timed process_events commit_or_rollback
  ingest_events w name clock result [] =
      let error : Text = elim (two_errors result.errors) [
        | [] ↦ codes "no parser matched"
        | c ∷ s ↦ c ∷ s
      ] in
      (
        nothing_accepted,
        record w {
          db =
              commit_or_rollback stages w.db
                (record_source_result w.db name 0 (max 1 result.unparsed) (some error));
        },
      )
  ingest_events w name clock result (event ∷ events) =
      let (outcome, w') = process_events redis stages ttl w (timed clock 0 (event ∷ events)) in
      let error : Option Text = elim result.errors [
        | [] ↦ none
        | e ∷ es ↦ some (two_errors (e ∷ es))
      ] in
      (
        outcome,
        record w' {
          db =
              commit_or_rollback stages w'.db
                (record_source_result w'.db name outcome.stored result.unparsed error);
        },
      )

  -- `ingest_payload`
  unfoldable pub ingest_payload :
      Settings
      → (Text → Text)
      → (Text → Text)
      → Registry A
      → (ℕ → ℕ)
      → World redis stages ttl
      → Text
      → Payload
      → Meta
      → Option Text
      → Reply × World redis stages ttl
  unfolding name_or received type_of_request register_source ingest_events parse
  ingest_payload settings repr decode registry clock w name payload meta parser =
      let meta' = received name settings.received_at meta in
      let result = parse repr decode registry (name_or parser name) payload meta' in
      let events = take settings.max_events result.events in
      let parser_name = name_or result.parser (name_or parser (codes "auto")) in
      let db =
        register_source w.db name (type_of_request source_type_of events meta') parser_name
          (lookup (codes "description") meta') in
      let (outcome, w') = ingest_events (record w { db = db }) name clock result events in
      if settings.enabled
      then (
        report result.parser result.detected_by result.unparsed (take 5 result.errors) outcome,
        w',
      )
      else (disabled, w)
