-- ===== src/Consumer/Security/Retries.antt =====
-- An event that is processed again, as the consumer does after a restart with what stayed in
-- processing, aegis-brain/app/services/redis_consumer.py.
use aegis_ecosystem.Prelude.{
  ℕ, ◌+◌, ◌≤◌, ◌≡◌, refl, sym, ap, ◌∙◌, true, none, some, List, [], ◌∷◌, ◌++◌, map, arith, Text,
  codes, length, ltb, ==_iff, eq_text, text_eq,
}
use mathlib.Core.List.{append-nil, append_assoc}
use aegis_ecosystem.Json.{Fields, is_truthy, get_field}
use aegis_ecosystem.Redis.Lists.{RedisLists, Answers}
use aegis_ecosystem.Redis.Lists.Room.{length-append_one}
use aegis_ecosystem.Consumer.Security.{
  Db, KillCommand, Services, agent_id_of, event_type_of, get_agent_uuid, update_first, update_agent,
  kill_command,
}
use aegis_ecosystem.Consumer.Security.Alerts.{verdict, with_alert}
use aegis_ecosystem.Consumer.Security.Commands.{send-queued_on, killed, killed_lem}
use aegis_ecosystem.Consumer.Security.Sessions.{
  command_queue, send_command_to_agent, process_security_event, run_by_type, correlate_and_commit,
  run_session, after_session,
}

module _ (services : Services) (lists : RedisLists KillCommand) where
  open lists use {Store, items}

  -- one session of the event at each of the times
  abbrev pub sessions : List ℕ → Db × Store → Fields → Db × Store
  sessions [] w event = w
  sessions (now ∷ times) w event = sessions times (after_session services lists now w event) event

  sent_lem :
      Answers lists
      → (s : Store) (agent_id : Text) (command : KillCommand)
      → (s' : Store) × (send_command_to_agent services lists s agent_id command ≡ (true, s'))
  unfolding send_command_to_agent
  sent_lem (pushes, cuts) s agent_id command =
      let (s1, e) = pushes s (command_queue agent_id) command in
      let (s2, f) = cuts s1 (command_queue agent_id) 99 in
      (s2, rw (e, f, send_command_to_agent) refl)

  -- the rows that `_update_agent` leaves
  abbrev seen_at : ℕ → Db → Fields → Db
  seen_at now db event = record db {
    agents =
        update_first services now (get_agent_uuid services (agent_id_of event)) event db.agents;
  }

  created_lem :
      (now : ℕ) (db : Db) (s : Store) (event : Fields)
      → event_type_of event ≡ codes "PROCESS_CREATED"
      → run_by_type services lists now db s event
        ≡ process_security_event services lists now db s event
  unfolding run_by_type text_eq
  created_lem now db s event created = rw (created, run_by_type) refl

  module _ (event : Fields) (id : ℕ → ℕ) (answers : Answers lists)
      (created : event_type_of event ≡ codes "PROCESS_CREATED")
      (pid : is_truthy (get_field (codes "pid") event) ≡ true)
      (flushes : (now : ℕ) (db : Db) → services.flush now db ≡ some (id now))
      (fails : (db : Db) → correlate_and_commit services lists event (some db) ≡ none) where
    session_lem :
        (now : ℕ) (db : Db) (s : Store)
        → services.query_answers db ≡ true
        → (verdict services db event).is_threat ≡ true
        → (verdict services db event).auto_remediation ≡ some (codes "kill_process")
        → length (items s (command_queue (agent_id_of event))) + 1 ≤ 100
        → (s' : Store) × (after_session services lists now (db, s) event ≡ (db, s'))
          × (items s' (command_queue (agent_id_of event))
              ≡ items s (command_queue (agent_id_of event))
                ++ kill_command services (id now) event ∷ [])
    unfolding after_session run_session update_agent
    session_lem now db s q_answers threat kills room =
        let agent_id = agent_id_of event in
        let kill = kill_command services (id now) event in
        let db1 = seen_at now db event in
        let (s', sent) = sent_lem answers s agent_id kill in
        let processed =
          killed_lem services lists now db1 s event (id now)
            (flushes now (with_alert services db1 event)) threat kills pid in
        let committed = (killed services lists now db1 s event (id now) (true, s')).0 in
        let ran : run_by_type services lists now db1 s event ≡ (some committed, s') =
          created_lem now db1 s event created
          ∙ (processed
              ∙ ap (λ r. (some (killed services lists now db1 s event (id now) r).0, r.1)) sent) in
        let q = command_queue agent_id in
        let fits : ltb (length (items s q)) 100 ≡ true = ground arith in
        (
          s',
          rw (q_answers, after_session, run_session) (rw (ran, fails committed) refl),
          rw ((==_iff q q).1 refl, fits) at
              (send-queued_on services lists s s' agent_id kill q (omega arith) sent),
        )

    -- An event of a created process that the analysis finds a threat to kill, with a process id, whose
    -- session ends in an exception of the correlation or of the commit: processed at any times one
    -- after the other it leaves the database as it was, without the alert and the remediation, and for
    -- each time one more command to kill the process in the queue of its agent, if that has room.
    pub items-sessions :
        (times : List ℕ) (db : Db) (s : Store)
        → services.query_answers db ≡ true
        → (verdict services db event).is_threat ≡ true
        → (verdict services db event).auto_remediation ≡ some (codes "kill_process")
        → length (items s (command_queue (agent_id_of event))) + length times ≤ 100
        → ((sessions times (db, s) event).0 ≡ db)
          × (items (sessions times (db, s) event).1 (command_queue (agent_id_of event))
              ≡ items s (command_queue (agent_id_of event))
                ++ map (λ now. kill_command services (id now) event) times)
    items-sessions [] db s q threat kills room =
        (refl, sym (append-nil (items s (command_queue (agent_id_of event)))))
    items-sessions (now ∷ times) db s q threat kills room =
        let queue = command_queue (agent_id_of event) in
        let kill = kill_command services (id now) event in
        let rest = map (λ t. kill_command services (id t) event) times in
        let (s', step, more) = session_lem now db s q threat kills (omega arith) in
        let (same, all) =
          items-sessions times db s' q threat kills
            (rw more (omega (arith, length-append_one (items s queue) kill))) in
        rw (step, sessions) (same, all ∙ rw more (append_assoc (items s queue) (kill ∷ []) rest))
