-- ===== src/Consumer/Security/Commands.antt =====
-- What the sessions of the consumer leave in the queues of commands and in the database,
-- aegis-brain/app/services/redis_consumer.py.
use aegis_ecosystem.Prelude.{
  ℕ, ◌≤◌, ◌≡◌, refl, sym, ap, ◌∙◌, Bool, true, some, List, [], ◌∷◌, ◌++◌, arith, Text, codes,
  length, if◌then◌else◌, ◌==◌, eq_text, text_eq, Bool-cases, Option-cases, inl, inr,
}
use aegis_ecosystem.Json.{Fields, is_truthy, get_field}
use aegis_ecosystem.Redis.Lists.{RedisLists}
use aegis_ecosystem.Redis.Lists.Room.{queued_on, push_trim-queued_on}
use aegis_ecosystem.Consumer.Security.{
  executed, failed, Db, KillCommand, Services, agent_id_of, kill_command, remediation_row,
}
use aegis_ecosystem.Consumer.Security.Alerts.{verdict, with_alert, threat-rows}
use aegis_ecosystem.Consumer.Security.Sessions.{
  command_queue, send_command_to_agent, queue_kill, execute_auto_remediation, remediate,
  process_security_event,
}

module _ (services : Services) (lists : RedisLists KillCommand) where
  open lists use {Store, items}

  -- A kill that is reported as sent stands in the queue of the event's agent, if it had room.
  pub send-queued_on :
      (s s' : Store) (agent_id : Text) (command : KillCommand) (j : Text)
      → length (items s (command_queue agent_id)) ≤ 100
      → send_command_to_agent services lists s agent_id command ≡ (true, s')
      → items s' j ≡ (
          if command_queue agent_id == j
          then queued_on (items s (command_queue agent_id)) command
          else items s j)
  unfolding send_command_to_agent
  send-queued_on s s' agent_id command j le h =
      let q = command_queue agent_id in
      elim (Option-cases (lists.rpush s q command)) [
        | inl e ↦ absurd (let no = rw (e, send_command_to_agent) at h in ground arith)
        | inr (s1, e) ↦ elim (Option-cases (lists.ltrim s1 q 99)) [
          | inl e2 ↦ absurd (let no = rw (e, e2, send_command_to_agent) at h in ground arith)
          | inr (s2, e2) ↦
              let same : s2 ≡ s' = ap (λ r. r.1) (rw (e, e2, send_command_to_agent) at h) in
              rw (← same) (push_trim-queued_on lists s s1 s2 q j command le e e2)
        ]
      ]

  -- what a threat whose analysis says to kill a process makes of the rows and the queues
  abbrev pub killed : ℕ → Db → Store → Fields → ℕ → Bool × Store → Db × Store
  killed now db s event alert_id (sent, s') = (
    record (with_alert services db event) {
      remediations =
          db.remediations
          ++ remediation_row services now alert_id (codes "kill_process") event
              (if sent then executed else failed)
            ∷ [];
    },
    s',
  )

append_cancel : {A : Type 0} (xs : List A) (a b : A) → xs ++ a ∷ [] ≡ xs ++ b ∷ [] → a ≡ b
append_cancel [] a b e = ground arith
append_cancel (x ∷ xs) a b e = append_cancel xs a b (ground arith)

module _ (services : Services) (lists : RedisLists KillCommand) where
  open lists use {Store, items}

  module _ (now : ℕ) (db : Db) (s : Store) (event : Fields) (alert_id : ℕ)
      (flushed : services.flush now (with_alert services db event) ≡ some alert_id)
      (threat : (verdict services db event).is_threat ≡ true)
      (kills : (verdict services db event).auto_remediation ≡ some (codes "kill_process"))
      (pid : is_truthy (get_field (codes "pid") event) ≡ true) where
    abbrev kill : KillCommand
    kill = kill_command services alert_id event

    pub killed_lem :
        let r =
          killed services lists now db s event alert_id
            (send_command_to_agent services lists s (agent_id_of event) kill) in
        process_security_event services lists now db s event ≡ (some r.0, r.1)
    unfolding remediate execute_auto_remediation queue_kill text_eq
    killed_lem =
        threat-rows services lists now db s event alert_id flushed threat
        ∙ rw (kills, pid, eq_text) refl

    -- An alert whose analysis says to kill a process with a process id: where the remediation is
    -- recorded as executed, the command stands in the queue of the event's agent, behind the others
    -- if these are fewer than 100, and is lost if they are 100; no other queue changes.
    pub executed-queued_on :
        (db' : Db) (s' : Store) (j : Text)
        → length (items s (command_queue (agent_id_of event))) ≤ 100
        → process_security_event services lists now db s event ≡ (some db', s')
        → db'.remediations
          ≡ db.remediations
            ++ remediation_row services now alert_id (codes "kill_process") event executed ∷ []
        → items s' j ≡ (
            if command_queue (agent_id_of event) == j
            then queued_on (items s (command_queue (agent_id_of event))) kill
            else items s j)
    unfolding remediation_row
    executed-queued_on db' s' j le e rows =
        let r = send_command_to_agent services lists s (agent_id_of event) kill in
        let found = sym killed_lem ∙ e in
        let queues : r.1 ≡ s' = ap (λ x. x.1) found in
        elim (Bool-cases r.0) [
          | inl sent ↦
              send-queued_on services lists s s' (agent_id_of event) kill j le
                (λ i. (sent i, queues i))
          | inr lost ↦
              let row =
                remediation_row services now alert_id (codes "kill_process") event
                  (if r.0 then executed else failed) in
              let same : some (killed services lists now db s event alert_id r).0 ≡ some db' =
                ap (λ x. x.0) found in
              let stored : (killed services lists now db s event alert_id r).0 ≡ db' =
                ground arith in
              let equal =
                append_cancel db.remediations row
                  (remediation_row services now alert_id (codes "kill_process") event executed)
                  (ap (λ d. d.remediations) stored ∙ rows) in
              let status = rw lost at (ap (λ x. x.status) equal) in absurd (ground arith)
        ]
