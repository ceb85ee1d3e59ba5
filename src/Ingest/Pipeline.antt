-- ===== src/Ingest/Pipeline.antt =====
-- The pipeline from parsed events to stored rows and alerts, `process_events`, `_detect_and_alert` and
-- `run_playbooks_for_alerts` of aegis-brain/app/services/siem_pipeline.py, with `store_events` of
-- aegis-brain/app/services/siem_store.py. A session that raises is rolled back to its last commit.
pub mod Rows
pub mod Retry
use aegis_ecosystem.Prelude.{
  ℕ, Option, none, some, List, [], ◌∷◌, ◌++◌, map, Text, codes, take, length, is_nil, if◌then◌else◌,
  ◌&&◌,
}
use aegis_ecosystem.Redis.Laws.{Redis}
use aegis_ecosystem.Ingest.Stages.{Stages, Detection, no_detection, bind, claim_all}

module _ {A : Type 0} (stages : Stages A) where
  open stages use {
    Db, ensure_monthly_partitions, insert_rows, commit, SigmaMatch, CorrelationMatch, Alert, Agent,
    sigma_evaluate, correlation_evaluate, sigma_title, correlation_title, sorted_set,
    get_or_create_source_agent, alert_from_sigma, alert_from_correlation, flush_alerts,
    alerts_by_id, check_and_execute_playbooks, notify_alert,
  }

  -- `store_events`
  unfoldable pub store_events : Db → List A → Option (ℕ × Db)
  store_events db [] = some (0, db)
  store_events db (event ∷ events) =
      bind (ensure_monthly_partitions db)
        λ db1. bind (insert_rows db1 (event ∷ events)) λ db2. some (length (event ∷ events), db2)

  unfoldable pub sigma_matches : List A → List (A × SigmaMatch)
  sigma_matches [] = []
  sigma_matches (event ∷ events) =
      map (λ match. (event, match)) (sigma_evaluate event) ++ sigma_matches events

  -- an exception of the correlation is logged
  unfoldable pub correlation_matches : List A → List CorrelationMatch
  correlation_matches events = elim (correlation_evaluate events) [ none ↦ [] | some ms ↦ ms ]

  unfoldable pub new_alerts : Agent → List (A × SigmaMatch) → List CorrelationMatch → List Alert
  new_alerts agent sigma correlation =
      map (λ m. alert_from_sigma m.0 m.1 agent) sigma
      ++ map (λ m. alert_from_correlation m agent) correlation

  unfoldable pub alert_matches :
      Db → List (A × SigmaMatch) → List CorrelationMatch → Option (Detection × Db)
  unfolding new_alerts
  alert_matches db sigma correlation =
      if is_nil sigma && is_nil correlation
      then some (no_detection, db)
      else bind (get_or_create_source_agent db) λ p.
        bind (flush_alerts p.1 (new_alerts p.0 sigma correlation)) λ q. some (
          record {
            sigma = length sigma;
            correlation = length correlation;
            alerts = length (new_alerts p.0 sigma correlation);
            alert_ids = q.0;
            sigma_rules = sorted_set (map (λ m. sigma_title m.1) sigma);
            correlation_rules = sorted_set (map (λ m. correlation_title m) correlation);
          },
          q.1,
        )

  -- `_detect_and_alert`
  unfoldable pub detect_and_alert : Db → List A → Option (Detection × Db)
  unfolding sigma_matches correlation_matches alert_matches
  detect_and_alert db events = alert_matches db (sigma_matches events) (correlation_matches events)

  -- the passes of `run_playbooks_for_alerts`; one that raises is logged
  unfoldable pub run_playbooks : Db → List Alert → Db
  run_playbooks db [] = db
  run_playbooks db (alert ∷ alerts) =
      run_playbooks (elim (check_and_execute_playbooks db alert) [ none ↦ db | some db' ↦ db' ])
        alerts

  -- `run_playbooks_for_alerts` of the first 200 alerts
  unfoldable pub run_playbooks_for_alerts : Db → List ℕ → Db
  unfolding run_playbooks
  run_playbooks_for_alerts db ids = elim (alerts_by_id db (take 200 ids)) [
    | none ↦ db
    | some alerts ↦ run_playbooks db alerts
  ]

  -- the notifications, up to the first that raises
  unfoldable pub notify_all : Db → List Alert → Db
  notify_all db [] = db
  notify_all db (alert ∷ alerts) = elim (notify_alert db alert) [
    | none ↦ db
    | some db' ↦ notify_all db' alerts
  ]

  -- the detection in a transaction of its own
  unfoldable pub detect : Db → List A → Option (Detection × Db)
  unfolding detect_and_alert
  detect db events = bind (detect_and_alert db events) λ p. bind (commit p.1) λ db'. some (p.0, db')

  -- the store of some events, committed before any detection
  unfoldable pub store : Db → List A → Option (ℕ × Db)
  unfolding store_events
  store db events = bind (store_events db events) λ p. bind (commit p.1) λ db'. some (p.0, db')

  -- a session committed, or rolled back to what it was before
  unfoldable pub commit_or_rollback : Db → Db → Db
  commit_or_rollback before after = elim (commit after) [ none ↦ before | some db ↦ db ]

  -- the playbooks and the notifications of the new alerts
  unfoldable pub react : Db → List ℕ → Db
  unfolding run_playbooks_for_alerts notify_all commit_or_rollback
  react db [] = db
  react db (id ∷ ids) =
      let db' = commit_or_rollback db (run_playbooks_for_alerts db (id ∷ ids)) in
      elim (alerts_by_id db' (take 200 (id ∷ ids))) [
        | none ↦ db'
        | some alerts ↦ notify_all db' alerts
      ]

  -- what follows the store: the report, an error of the detection, and the database
  unfoldable pub detect_and_react : Db → List A → (Detection × Option Text) × Db
  unfolding detect react
  detect_and_react db events = elim (detect db events) [
    | none ↦ ((no_detection, some (codes "detection failed")), db)
    | some (detection, db') ↦ ((detection, none), react db' detection.alert_ids)
  ]

-- the counts that `process_events` returns
pub record Outcome : Type 0 where
  pub accepted : ℕ
  pub duplicates : ℕ
  pub stored : ℕ
  pub detection : Detection
  pub error : Option Text

module _ {A : Type 0} (redis : Redis) (stages : Stages A) (ttl : ℕ) where
  pub record World : Type 0 where
    pub store : redis.Store
    pub db : stages.Db

  -- what follows the claims
  unfoldable pub process_fresh : stages.Db → ℕ → ℕ → List A → Outcome × stages.Db
  unfolding store detect_and_react
  process_fresh db accepted duplicates [] = (
    record {
      accepted = accepted;
      duplicates = duplicates;
      stored = 0;
      detection = no_detection;
      error = none;
    },
    db,
  )
  process_fresh db accepted duplicates (event ∷ events) = elim (store stages db (event ∷ events)) [
    | none ↦ (
      record {
        accepted = accepted;
        duplicates = duplicates;
        stored = 0;
        detection = no_detection;
        error = some (codes "store failed");
      },
      db,
    )
    | some (stored, db1) ↦
        let ((detection, error), db2) = detect_and_react stages db1 (event ∷ events) in
        (
          record {
            accepted = accepted;
            duplicates = duplicates;
            stored = stored;
            detection = detection;
            error = error;
          },
          db2,
        )
  ]

  -- `process_events`, of events with the times of their claims
  unfoldable pub process_events : World → List (ℕ × A) → Outcome × World
  unfolding claim_all process_fresh
  process_events w events =
      let claimed = claim_all redis stages.event_id ttl w.store events in
      let (outcome, db) = process_fresh w.db (length events) claimed.duplicates claimed.fresh in
      (outcome, record { store = claimed.store; db = db })
