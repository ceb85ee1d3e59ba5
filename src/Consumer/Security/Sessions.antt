-- ===== src/Consumer/Security/Sessions.antt =====
-- The handlers that reach the queues of commands, `_process_security_event` and
-- `_execute_auto_remediation` of aegis-brain/app/services/redis_consumer.py, with
-- `send_command_to_agent` of aegis-brain/app/services/telemetry_service.py, and the session of
-- `_process_raw`. A command that was pushed stays in its queue, whatever becomes of the session.
use aegis_ecosystem.Prelude.{
  ℕ, Bool, true, false, ◌&&◌, Option, none, some, [], ◌∷◌, ◌++◌, Text, codes, if◌then◌else◌, ◌==◌,
  eq_text,
}
use aegis_ecosystem.Json.{Fields, is_truthy, get_field}
use aegis_ecosystem.Redis.Lists.{RedisLists}
use aegis_ecosystem.Heuristic.Analysis.{AnalysisResult, analyze}
use aegis_ecosystem.Consumer.{Handlers}
use aegis_ecosystem.Consumer.Security.Metrics.{process_telemetry}
use aegis_ecosystem.Consumer.Security.{
  RemediationStatus, executed, failed, Db, KillCommand, Services, agent_id_of, event_type_of,
  update_agent, alert_of, kill_command, remediation_row,
}

-- f"aegis:commands:{str(agent_id)}"
unfoldable pub command_queue : Text → Text
command_queue agent_id = codes "aegis:commands:" ++ agent_id

module _ (services : Services) (lists : RedisLists KillCommand) where
  open services use {library, updates, rules, flush, handle_file_event, correlate, commits}
  open lists use {Store, rpush, ltrim}

  -- whether `send_command_to_agent` returned; after an exception of `ltrim` the command is pushed
  unfoldable pub send_command_to_agent : Store → Text → KillCommand → Bool × Store
  unfolding command_queue
  send_command_to_agent s agent_id command = elim (rpush s (command_queue agent_id) command) [
    | none ↦ (false, s)
    | some s1 ↦ elim (ltrim s1 (command_queue agent_id) 99) [
      | none ↦ (false, s1)
      | some s2 ↦ (true, s2)
    ]
  ]

  -- `if action == 'kill_process' and event.pid: ...`, with the status that it leaves
  unfoldable pub queue_kill : Store → ℕ → Text → Fields → RemediationStatus × Store
  unfolding send_command_to_agent agent_id_of kill_command
  queue_kill s alert_id action event =
      if (action == codes "kill_process") && is_truthy (get_field (codes "pid") event)
      then (let (sent, s') =
            send_command_to_agent s (agent_id_of event) (kill_command services alert_id event) in
          (if sent then executed else failed, s'))
      else (executed, s)

  unfoldable pub execute_auto_remediation : ℕ → Db → Store → ℕ → Text → Fields → Db × Store
  unfolding queue_kill remediation_row
  execute_auto_remediation now db s alert_id action event =
      let (status, s') = queue_kill s alert_id action event in
      (
        record db {
          remediations =
              db.remediations ++ remediation_row services now alert_id action event status ∷ [];
        },
        s',
      )

  -- `if analysis.auto_remediation: ...`
  unfoldable pub remediate : ℕ → Db → Store → ℕ → Option Text → Fields → Db × Store
  unfolding execute_auto_remediation
  remediate now db s alert_id none event = (db, s)
  remediate now db s alert_id (some []) event = (db, s)
  remediate now db s alert_id (some (c ∷ action)) event =
      execute_auto_remediation now db s alert_id (c ∷ action) event

  -- what follows the flush, with the id that it gave
  unfoldable pub after_flush :
      ℕ → Db → Store → Fields → AnalysisResult → Option ℕ → Option Db × Store
  unfolding remediate
  after_flush now db s event analysis none = (none, s)
  after_flush now db s event analysis (some alert_id) =
      let (db', s') = remediate now db s alert_id analysis.auto_remediation event in (some db', s')

  -- `if analysis.is_threat: ...`
  unfoldable pub raise_alert : ℕ → Db → Store → Fields → AnalysisResult → Option Db × Store
  unfolding after_flush alert_of
  raise_alert now db s event analysis =
      let db1 = record db { alerts = db.alerts ++ alert_of services event analysis ∷ [] } in
      after_flush now db1 s event analysis (flush now db1)

  unfoldable pub process_security_event : ℕ → Db → Store → Fields → Option Db × Store
  unfolding raise_alert
  process_security_event now db s event =
      let (analysis, custom) = analyze library updates rules event db.active_rules in
      let db1 = record db { active_rules = custom } in
      if analysis.is_threat then raise_alert now db1 s event analysis else (some db1, s)

  -- 2. Process by Type
  unfoldable pub run_by_type : ℕ → Db → Store → Fields → Option Db × Store
  unfolding process_security_event process_telemetry event_type_of
  run_by_type now db s event =
      let type : Text = event_type_of event in
      if type == codes "PROCESS_CREATED"
      then process_security_event now db s event
      else if type == codes "FILE_MODIFIED"
      then (handle_file_event db event, s)
      else if type == codes "YARA_MATCH"
      then (handle_file_event db event, s)
      else if type == codes "METRICS_REPORT"
      then (process_telemetry services db event, s)
      else if type == codes "AGENT_HEARTBEAT"
      then (process_telemetry services db event, s)
      else (some db, s)

  -- 3. Process Correlation, and the commit
  unfoldable pub correlate_and_commit : Fields → Option Db → Option Db
  correlate_and_commit event none = none
  correlate_and_commit event (some db) = elim (correlate db event) [
    | none ↦ none
    | some db' ↦ if commits db' then some db' else none
  ]

  -- the session of an event: what it commits, `none` where it is rolled back, and the queues
  unfoldable pub run_session : ℕ → Db → Store → Fields → Option Db × Store
  unfolding update_agent run_by_type correlate_and_commit
  run_session now db s event = elim (update_agent services now db event) [
    | none ↦ (none, s)
    | some db1 ↦ let (r, s') = run_by_type now db1 s event in (correlate_and_commit event r, s')
  ]

  -- the database and the queues behind a session
  unfoldable pub after_session : ℕ → Db × Store → Fields → Db × Store
  unfolding run_session
  after_session now (db, s) event =
      let (r, s') = run_session now db s event in (elim r [ none ↦ db | some db' ↦ db' ], s')

  -- The handlers of a consumer, at a time and with the queues as they are.
  abbrev pub handlers_at : (Text → Option Fields) → ℕ → Store → Handlers
  handlers_at validate now s = record {
    Event = Fields;
    Db = Db;
    validate = validate;
    event_type = event_type_of;
    update_agent = update_agent services now;
    process_security_event = λ db event. (process_security_event now db s event).0;
    process_file_event = handle_file_event;
    process_telemetry = process_telemetry services;
    correlate = correlate;
    commit = λ db. if commits db then some db else none;
  }
