-- ===== src/Tests/Playbooks.antt =====
-- Runs of the playbook engine.
use aegis_ecosystem.Prelude.{
  ◌≤◌, ◌≡◌, refl, true, false, none, List, [], ◌∷◌, arith, codes, text_eq, eq_text,
}
use aegis_ecosystem.Prelude.Dict.{lookup, insert}
use aegis_ecosystem.Redis.Memory.{memory_redis}
use aegis_ecosystem.Redis.Offline.{offline_redis}
use aegis_ecosystem.Redis.Lists.{memory_lists, items_of, push, trim}
use aegis_ecosystem.Playbook.{
  Alert, Playbook, Command, absent, isolate_host, deisolate_host, queue_name, send_agent_command,
  command_queued,
}
use aegis_ecosystem.Playbook.Actions.{Services, answered, exited}
use aegis_ecosystem.Playbook.Queue.{send_agent_command-items}
use aegis_ecosystem.Playbook.Runs.{World}
use aegis_ecosystem.Playbook.Once.Steps.{Pass, acted}
use aegis_ecosystem.Playbook.Once.{passes, acted-passes}

abbrev services : Services
services = record {
  post = λ target alert params. answered true 200;
  run = λ target timeout. exited true [] [];
  script_enabled = false;
  public_base_url = codes "https://brain";
  published = λ name. none;
  sign_artifact = λ digest. digest;
}

abbrev alert : Alert
alert = record {
  id = codes "7";
  agent_id = codes "a1";
  severity = codes "HIGH";
  event_type = codes "process";
  process_name = codes "x";
  pid = 9;
}

abbrev isolate : Playbook
isolate = record {
  id = codes "3";
  is_active = true;
  trigger_severity = codes "high";
  trigger_event_type = [];
  trigger_process_name = [];
  actions =
      record {
        action_type = codes "isolate_host";
        target = [];
        params = record { duration_seconds = absent; timeout = absent; version = codes "latest" };
      }
      ∷ [];
}

abbrev queue : (memory_lists Command).Store
queue = (codes "aegis:commands:a1", record { order = isolate_host; alert_id = codes "6" } ∷ []) ∷ []

abbrev deisolate : Command
deisolate = record { order = deisolate_host; alert_id = codes "7" }

send_agent_command-items_example :
    items_of
      (send_agent_command (memory_lists Command) queue (codes "a1") deisolate).1
      (codes "aegis:commands:a1")
    ≡ record { order = isolate_host; alert_id = codes "6" } ∷ deisolate ∷ []
unfolding send_agent_command push trim items_of queue_name command_queued text_eq lookup insert
send_agent_command-items_example =
    send_agent_command-items (memory_lists Command) queue (codes "a1") deisolate
      (codes "aegis:commands:a1") (omega arith) refl

abbrev world : World memory_redis (memory_lists Command) services
world = record { keys = []; queues = queue; executions = []; remediations = [] }

abbrev two_passes : List Pass
two_passes =
    record { at = 1_000; dry = false; alert = alert; playbooks = isolate ∷ [] }
    ∷ record { at = 90_000; dry = false; alert = alert; playbooks = isolate ∷ [] }
    ∷ []

acted-passes_example :
    acted
      (codes "3")
      (codes "7")
      (passes memory_redis (memory_lists Command) services 86_400 two_passes world).executions
    ≤ 1
acted-passes_example =
    acted-passes memory_redis (memory_lists Command) services (codes "3") (codes "7") 1_000 86_400
      two_passes world (omega arith, omega arith, (omega arith, omega arith, tt))

abbrev cut_off : World offline_redis (memory_lists Command) services
cut_off = record { keys = tt; queues = queue; executions = []; remediations = [] }
