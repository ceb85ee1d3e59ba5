-- ===== src/Playbook/Queue.antt =====
-- What `_send_agent_command` and the eradication chain leave in an agent's queue.
use aegis_ecosystem.Prelude.{
  ◌≤◌, ◌≡◌, List, map, arith, Text, length, if◌then◌else◌, ◌==◌, eq_text, Option-cases, inl, inr,
}
use aegis_ecosystem.Redis.Lists.{RedisLists}
use aegis_ecosystem.Redis.Lists.Room.{queued_on, push_trim-queued_on}
use aegis_ecosystem.Playbook.{
  Alert, Order, Command, completed, queue_name, queue_unavailable, command_queued,
  send_agent_command,
}

abbrev pub commands_of : Alert → List Order → List Command
commands_of alert = map (λ order. record { order = order; alert_id = alert.id })

module _ (lists : RedisLists Command) where
  open lists use {Store, items}

  -- Of a queue of at most 100 commands: a command that is reported as queued stands behind all that
  -- were there if they were fewer than 100, and else is lost, and the queue keeps what it had. No
  -- other queue changes.
  pub send_agent_command-items :
      (s : Store) (agent_id : Text) (command : Command) (j : Text)
      → length (items s (queue_name agent_id)) ≤ 100
      → (send_agent_command lists s agent_id command).0.0 ≡ completed
      → items (send_agent_command lists s agent_id command).1 j ≡ (
          if queue_name agent_id == j
          then queued_on (items s (queue_name agent_id)) command
          else items s j)
  unfolding send_agent_command queue_unavailable command_queued
  send_agent_command-items s agent_id command j le h =
      let q = queue_name agent_id in
      elim (Option-cases (lists.rpush s q command)) [
        | inl e ↦ absurd (let no = rw (e, send_agent_command) at h in ground arith)
        | inr (s1, e) ↦ elim (Option-cases (lists.ltrim s1 q 99)) [
          | inl e2 ↦ absurd (let no = rw (e, e2, send_agent_command) at h in ground arith)
          | inr (s2, e2) ↦
              rw (e, e2, send_agent_command) (push_trim-queued_on lists s s1 s2 q j command le e e2)
        ]
      ]
