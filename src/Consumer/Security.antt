-- ===== src/Consumer/Security.antt =====
-- What the consumer does with an event, of aegis-brain/app/services/redis_consumer.py: the rows that
-- the handlers make, `_get_agent_uuid` and `_update_agent`. Sessions has the handlers of a created
-- process and the session around them, Metrics `_process_telemetry`. An event is the dictionary of
-- its attributes. The session's rows go with it when it is rolled back; the queues of commands, which
-- are in Redis, do not. An exception of a handler is `none`.
pub mod Alerts
pub mod Commands
pub mod Metrics
pub mod Retries
pub mod Sessions
use aegis_ecosystem.Prelude.{
  ℕ, Bool, Option, none, some, List, [], ◌∷◌, Text, codes, if◌then◌else◌, ◌==◌, eq_text,
}
use aegis_ecosystem.Json.{Json, Fields, text, is_truthy, get_field}
use aegis_ecosystem.Heuristic.Conditions.{CustomRule, Library, text_or_none}
use aegis_ecosystem.Heuristic.Analysis.{StaticRule, AnalysisResult}

-- The rows that the handlers read or write; a missing value is `null`.
pub record Agent : Type 0 where
  pub agent_id : Text
  pub last_seen : ℕ
  pub hostname : Json
  pub ip_address : Json

pub record Alert : Type 0 where
  pub agent_id : Text
  pub severity : Text
  pub pid : Json
  pub parent_pid : Json
  pub parent_process_name : Json
  pub process_name : Json
  pub process_path : Json
  pub event_type : Text
  pub description : Text
  pub mitre_tactic_name : Option Text
  pub mitre_technique_name : Option Text
  pub mitre_technique_id : Option Text

pub data RemediationStatus : Type 0 where
  executed failed : RemediationStatus

pub record RemediationAction : Type 0 where
  pub alert_id : ℕ
  pub agent_id : Text
  pub action : Text
  pub target : Json
  pub status : RemediationStatus
  pub executed_at : ℕ

pub record Telemetry : Type 0 where
  pub device_id : Text
  pub cpu_usage : Json
  pub ram_usage : Json
  pub disk_free : Json
  pub disk_total : Json
  pub network_sent : Json
  pub network_received : Json
  pub processes : Json

-- The database as the session sees it; `active_rules` is `none` where their query raises.
pub record Db : Type 0 where
  pub agents : List Agent
  pub alerts : List Alert
  pub remediations : List RemediationAction
  pub telemetry : List Telemetry
  pub active_rules : Option (List CustomRule)

-- `value` and `z_score` as the description shows them
pub record Anomaly : Type 0 where
  pub severity : Text
  pub metric : Text
  pub value : Text
  pub z_score : Text

-- `{"command": "KILL_PROCESS", ...}`
pub record KillCommand : Type 0 where
  pub pid : Json
  pub process_name : Json
  pub alert_id : ℕ

-- What the handlers call: the rules and what the analysis needs; `str(uuid.UUID(text))`, `none` for a
-- ValueError, and `uuid5`; whether a query answers; the id that a flush gives at a time, or its
-- exception; the statistics of the metrics; the other handlers, and whether the commit succeeds.
pub record Services : Type 0 where
  pub library : Library
  pub updates : CustomRule → Bool
  pub rules : List StaticRule
  pub uuid : Text → Option Text
  pub uuid5 : Text → Text
  pub query_answers : Db → Bool
  pub flush : ℕ → Db → Option ℕ
  pub anomalies : Text → List (Text × Json) → Option (List Anomaly)
  pub handle_file_event : Db → Fields → Option Db
  pub correlate : Db → Fields → Option Db
  pub commits : Db → Bool

unfoldable pub agent_id_of : Fields → Text
unfolding text_or_none
agent_id_of event = text_or_none (get_field (codes "agent_id") event)

unfoldable pub event_type_of : Fields → Text
unfolding text_or_none
event_type_of event = text_or_none (get_field (codes "event_type") event)

-- `value or default`
unfoldable pub value_or : Json → Json → Json
value_or value default = if is_truthy value then value else default

module _ (services : Services) where
  open services use {
    library, updates, rules, uuid, uuid5, query_answers, flush, anomalies, handle_file_event,
    correlate, commits,
  }

  unfoldable pub get_agent_uuid : Text → Text
  get_agent_uuid id = elim (uuid id) [ none ↦ uuid5 id | some u ↦ u ]

  -- the agent's row as an event leaves it
  unfoldable pub refreshed : ℕ → Fields → Agent → Agent
  unfolding value_or
  refreshed now event agent = record agent {
    last_seen = now;
    hostname = value_or (get_field (codes "hostname") event) agent.hostname;
    ip_address = value_or (get_field (codes "ip_address") event) agent.ip_address;
  }

  -- the first row with the id
  unfoldable pub update_first : ℕ → Text → Fields → List Agent → List Agent
  unfolding refreshed
  update_first now id event [] = []
  update_first now id event (agent ∷ agents) =
      let rest = update_first now id event agents in
      if agent.agent_id == id then refreshed now event agent ∷ agents else agent ∷ rest

  unfoldable pub update_agent : ℕ → Db → Fields → Option Db
  unfolding get_agent_uuid update_first agent_id_of
  update_agent now db event =
      if query_answers db
      then some (record db {
        agents = update_first now (get_agent_uuid (agent_id_of event)) event db.agents;
      })
      else none

  unfoldable pub alert_of : Fields → AnalysisResult → Alert
  unfolding get_agent_uuid value_or agent_id_of event_type_of
  alert_of event analysis = record {
    agent_id = get_agent_uuid (agent_id_of event);
    severity = analysis.severity;
    pid = get_field (codes "pid") event;
    parent_pid = get_field (codes "parent_pid") event;
    parent_process_name = get_field (codes "parent_process_name") event;
    process_name = value_or (get_field (codes "process_name") event) (text (codes "unknown"));
    process_path = get_field (codes "process_path") event;
    event_type = event_type_of event;
    description = analysis.description;
    mitre_tactic_name = analysis.mitre_tactic;
    mitre_technique_name = analysis.mitre_technique;
    mitre_technique_id = analysis.mitre_technique_id;
  }

  unfoldable pub kill_command : ℕ → Fields → KillCommand
  kill_command alert_id event = record {
    pid = get_field (codes "pid") event;
    process_name = get_field (codes "process_name") event;
    alert_id = alert_id;
  }

  unfoldable pub remediation_row : ℕ → ℕ → Text → Fields → RemediationStatus → RemediationAction
  unfolding get_agent_uuid value_or agent_id_of
  remediation_row now alert_id action event status = record {
    alert_id = alert_id;
    agent_id = get_agent_uuid (agent_id_of event);
    action = action;
    target =
        value_or (get_field (codes "process_name") event)
          (value_or (get_field (codes "ip_address") event) (text (codes "unknown")));
    status = status;
    executed_at = now;
  }
