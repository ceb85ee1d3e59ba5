-- ===== src/Ingest/Stages.antt =====
-- What the pipeline of aegis-brain/app/services/siem_pipeline.py calls, with the claims of events,
-- `claim_event` of aegis-brain/app/services/siem_store.py. The database session, the two detection
-- engines, the alerts that matches make, a playbook pass and the notifier are the fields of
-- `Stages`; what raises is `none`. The correlation keeps its counters to itself, and the notifier only
-- reads the session.
use aegis_ecosystem.Prelude.{
  ℕ, ◌+◌, ◌≡◌, Bool, true, Option, none, some, List, [], ◌∷◌, ◌++◌, Text, codes, if◌then◌else◌,
}
use aegis_ecosystem.Redis.Laws.{Redis}
use aegis_ecosystem.Redis.Held.{is_claimed}

-- what `_detect_and_alert` reports
pub record Detection : Type 0 where
  pub sigma : ℕ
  pub correlation : ℕ
  pub alerts : ℕ
  pub alert_ids : List ℕ
  pub sigma_rules : List Text
  pub correlation_rules : List Text

abbrev pub no_detection : Detection
no_detection = record {
  sigma = 0;
  correlation = 0;
  alerts = 0;
  alert_ids = [];
  sigma_rules = [];
  correlation_rules = [];
}

-- What the pipeline calls. `rows` are the events stored in a session, `id_of` a row's alert.
pub record Stages (A : Type 0) : Type 1 where
  pub event_id : A → Text
  pub Db : Type 0
  pub rows : Db → List A
  pub ensure_monthly_partitions : Db → Option Db
  pub insert_rows : Db → List A → Option Db
  pub commit : Db → Option Db
  pub SigmaMatch : Type 0
  pub CorrelationMatch : Type 0
  pub Alert : Type 0
  pub Agent : Type 0
  pub sigma_evaluate : A → List SigmaMatch
  pub correlation_evaluate : List A → Option (List CorrelationMatch)
  pub sigma_title : SigmaMatch → Text
  pub correlation_title : CorrelationMatch → Text
  -- `sorted` of the set of some titles
  pub sorted_set : List Text → List Text
  pub get_or_create_source_agent : Db → Option (Agent × Db)
  pub alert_from_sigma : A → SigmaMatch → Agent → Alert
  pub alert_from_correlation : CorrelationMatch → Agent → Alert
  -- `db.add` of each alert and `flush`, which gives them their ids
  pub flush_alerts : Db → List Alert → Option (List ℕ × Db)
  -- the alerts with some ids, and a pass of the playbooks over one of them
  pub alerts_by_id : Db → List ℕ → Option (List Alert)
  pub check_and_execute_playbooks : Db → Alert → Option Db
  pub notify_alert : Db → Alert → Option Db
  pub partitions_rows : (db db' : Db) → ensure_monthly_partitions db ≡ some db' → rows db' ≡ rows db
  pub insert_rows_appends :
      (db db' : Db) (events : List A)
      → insert_rows db events ≡ some db'
      → rows db' ≡ rows db ++ events
  pub commit_rows : (db db' : Db) → commit db ≡ some db' → rows db' ≡ rows db
  pub agent_rows :
      (db db' : Db) (a : Agent) → get_or_create_source_agent db ≡ some (a, db') → rows db' ≡ rows db
  pub flush_rows :
      (db db' : Db) (new : List Alert) (ids : List ℕ)
      → flush_alerts db new ≡ some (ids, db')
      → rows db' ≡ rows db
  pub playbooks_rows :
      (db db' : Db) (a : Alert) → check_and_execute_playbooks db a ≡ some db' → rows db' ≡ rows db
  pub notify_rows : (db db' : Db) (a : Alert) → notify_alert db a ≡ some db' → rows db' ≡ rows db

abbrev pub bind : {A B : Type 0} → Option A → (A → Option B) → Option B
bind none f = none
bind (some a) f = f a

abbrev pub event_key : Text → Text
event_key id = codes "siem:evt:" ++ id

-- the events that were claimed, how many were not, and the server behind the claims
pub record Claimed (A Store : Type 0) : Type 0 where
  pub fresh : List A
  pub duplicates : ℕ
  pub store : Store

module _ (redis : Redis) where
  open redis use {Store}

  -- `claim_event`: an event without an id and one whose claim raises count as new
  unfoldable pub claim_event : Store → ℕ → ℕ → Text → Bool × Store
  unfolding is_claimed
  claim_event s t ttl [] = (true, s)
  claim_event s t ttl (c ∷ id) = elim (redis.set_nx s t (event_key (c ∷ id)) ttl) [
    | none ↦ (true, s)
    | some (reply, s') ↦ (is_claimed reply, s')
  ]

module _ {A : Type 0} (redis : Redis) (event_id : A → Text) (ttl : ℕ) where
  open redis use {Store}

  -- the claims of some events, each at its time
  unfoldable pub claim_all : Store → List (ℕ × A) → Claimed A Store
  unfolding claim_event
  claim_all s [] = record { fresh = []; duplicates = 0; store = s }
  claim_all s ((t, event) ∷ events) =
      let (is_new, s') = claim_event redis s t ttl (event_id event) in
      let rest = claim_all s' events in
      if is_new
      then record rest { fresh = event ∷ rest.fresh }
      else record rest { duplicates = rest.duplicates + 1 }
