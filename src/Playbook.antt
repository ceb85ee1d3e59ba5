-- ===== src/Playbook.antt =====
-- Automatic response, aegis-brain/app/services/playbook_engine.py: what the engine reads of a
-- playbook and of an alert, when a playbook applies to an alert, and the orders that agents take from
-- their queue. An absent text is the empty text, an absent process id is 0, as the code tests them.
pub mod Risk
pub mod Actions
pub mod Queue
pub mod Runs
pub mod Once
pub mod Safe
use aegis_ecosystem.Prelude.{
  ℕ, Bool, ◌&&◌, ◌||◌, none, some, List, [], ◌++◌, Text, codes, lower, contains, is_nil, ◌==◌,
  eq_text,
}
use aegis_ecosystem.Redis.Lists.{RedisLists}
use aegis_ecosystem.Sigma.Engine.{upper}

pub record Alert : Type 0 where
  pub id : Text
  pub agent_id : Text
  pub severity : Text
  pub event_type : Text
  pub process_name : Text
  pub pid : ℕ

-- What `int` makes of a parameter: nothing is there, an exception with its text, or an integer.
pub data Seconds : Type 0 where
  seconds below_zero : ℕ → Seconds

pub data Number : Type 0 where
  absent : Number
  invalid : Text → Number
  given : Seconds → Number

pub record Params : Type 0 where
  pub duration_seconds : Number
  pub timeout : Number
  -- `str(params.get("version", "latest"))`
  pub version : Text

pub record PlaybookAction : Type 0 where
  pub action_type : Text
  pub target : Text
  pub params : Params

-- A playbook with its actions in their order.
pub record Playbook : Type 0 where
  pub id : Text
  pub is_active : Bool
  pub trigger_severity : Text
  pub trigger_event_type : Text
  pub trigger_process_name : Text
  pub actions : List PlaybookAction

-- `_matches_trigger`
unfoldable pub matches_trigger : Playbook → Alert → Bool
unfolding upper
matches_trigger p alert =
    (is_nil p.trigger_severity || upper p.trigger_severity == upper alert.severity)
    && ((is_nil p.trigger_event_type || p.trigger_event_type == alert.event_type)
        && (is_nil p.trigger_process_name
            || contains (lower p.trigger_process_name) (lower alert.process_name)))

pub record Update : Type 0 where
  pub agent_type : Text
  pub version : Text
  pub url : Text
  pub sha256 : Text
  pub signature : Text

-- What an agent is told to do.
pub data Order : Type 0 where
  block_ip dns_sinkhole remove_persistence : Text → Order
  block_ip_temporal : Text → Seconds → Order
  kill_process kill_process_tree quarantine_binary collect_ioc : ℕ → Text → Order
  verify : ℕ → Order
  isolate_host deisolate_host : Order
  update_agent : Update → Order

-- `command["command"]`
unfoldable pub order_name : Order → Text
order_name (block_ip ip) = codes "BLOCK_IP"
order_name (dns_sinkhole domain) = codes "DNS_SINKHOLE"
order_name (remove_persistence name) = codes "REMOVE_PERSISTENCE"
order_name (block_ip_temporal ip duration) = codes "BLOCK_IP_TEMPORAL"
order_name (kill_process pid name) = codes "KILL_PROCESS"
order_name (kill_process_tree pid name) = codes "KILL_PROCESS_TREE"
order_name (quarantine_binary pid name) = codes "QUARANTINE_BINARY"
order_name (collect_ioc pid name) = codes "COLLECT_IOC"
order_name (verify pid) = codes "VERIFY"
order_name isolate_host = codes "ISOLATE_HOST"
order_name deisolate_host = codes "DEISOLATE_HOST"
order_name (update_agent update) = codes "UPDATE_AGENT"

pub record Command : Type 0 where
  pub order : Order
  pub alert_id : Text

pub data Status : Type 0 where
  completed failed blocked : Status

pub record ActionResult : Type 0 where
  pub status : Status
  pub output : Text
  pub chain : List (Status × Text)

abbrev pub result : Status → Text → ActionResult
result status output = record { status = status; output = output; chain = [] }

-- f"aegis:commands:{agent_id}"
unfoldable pub queue_name : Text → Text
queue_name agent_id = codes "aegis:commands:" ++ agent_id

module _ (lists : RedisLists Command) where
  open lists use {Store, rpush, ltrim}

  unfoldable pub queue_unavailable : Order → Status × Text
  unfolding order_name
  queue_unavailable order = (failed, codes "Queue unavailable: " ++ order_name order)

  unfoldable pub command_queued : Order → Status × Text
  unfolding order_name
  command_queued order = (completed, codes "Command queued: " ++ order_name order)

  -- `_send_agent_command`: an exception of `ltrim` leaves the command pushed
  unfoldable pub send_agent_command : Store → Text → Command → (Status × Text) × Store
  unfolding queue_name queue_unavailable command_queued
  send_agent_command s agent_id command = elim (rpush s (queue_name agent_id) command) [
    | none ↦ (queue_unavailable command.order, s)
    | some s1 ↦ elim (ltrim s1 (queue_name agent_id) 99) [
      | none ↦ (queue_unavailable command.order, s1)
      | some s2 ↦ (command_queued command.order, s2)
    ]
  ]
