-- ===== src/Ingest/Payload/Stored.antt =====
-- What one payload adds to the table of events, `ingest_payload` of
-- aegis-brain/app/services/siem_pipeline.py, from the text that is parsed to the rows.
use mathlib.Core.List.{Sublistᴰ}
use aegis_ecosystem.Prelude.{ℕ, ◌≡◌, List, ◌++◌, length, eq_text}
use aegis_ecosystem.Redis.Laws.{Redis}
use aegis_ecosystem.Json.{Json}
use aegis_ecosystem.Ingest.Registry.{Payload, Registry}
use aegis_ecosystem.Ingest.Stages.{Stages}
use aegis_ecosystem.Ingest.Payload.{Sources, Reply, disabled, report}

-- the number that a reply reports as stored
abbrev pub stored_of : Reply → ℕ
stored_of disabled = 0
stored_of (report parser by unparsed errors outcome) = outcome.stored

module _ {A : Type 0} (redis : Redis) (stages : Stages A) (sources : Sources stages) (ttl : ℕ) where
  open stages use {Db, rows}

  -- rows that were added, out of some events, and their number
  abbrev pub Added : List A → ℕ → Db → Db → Type 0
  Added events n db db' =
      (xs : List A) × Sublistᴰ xs events × (rows db' ≡ rows db ++ xs) × (n ≡ length xs)
