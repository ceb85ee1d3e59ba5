-- ===== src/Tests/Responses.antt =====
-- Runs of the consumer's handlers on a created process that a custom rule says to kill.
use aegis_ecosystem.Prelude.{
  ◌≡◌, refl, ◌+◌, true, false, none, some, [], ◌∷◌, ◌++◌, map, arith, Text, codes, text_eq, eq_text,
  contains, lower, strip, member, starts_with, replace_char, if◌then◌else◌,
}
use aegis_ecosystem.Prelude.Dict.{lookup}
use aegis_ecosystem.Json.{Fields, text, number, null, end, field, get_field, is_truthy}
use aegis_ecosystem.Redis.Lists.{memory_lists, memory_lists-Answers, items_of, push, trim}
use aegis_ecosystem.Heuristic.Conditions.{
  CustomRule, text_or_none, text_value, evaluate_custom, check_whitelist, match_rule,
}
use aegis_ecosystem.Heuristic.Analysis.{
  analyze, allowlisted_and_safe, process_name_of, static_results, run_custom, conclude,
}
use aegis_ecosystem.Consumer.Security.{
  Db, KillCommand, Services, agent_id_of, event_type_of, alert_of, kill_command,
}
use aegis_ecosystem.Consumer.Security.Alerts.{
  is_threat, verdict, remediations_of, process_security_event-rows,
}
use aegis_ecosystem.Consumer.Security.Retries.{sessions, items-sessions}
use aegis_ecosystem.Consumer.Security.Sessions.{
  command_queue, process_security_event, correlate_and_commit,
}

abbrev killer : CustomRule
killer = record {
  name = codes "m";
  target_field = codes "process_name";
  pattern = codes "mimi";
  severity = codes "CRITICAL";
  mitre_tactic = none;
  mitre_technique = none;
  mitre_technique_id = none;
  conditions = null;
  whitelist = null;
  auto_remediation = codes "kill_process";
  trigger_count = 0;
}

-- A database that takes every query and refuses every commit.
abbrev services : Services
services = record {
  library = record { search = λ pattern value. some (contains pattern value); str = text_or_none };
  updates = λ r. true;
  rules = [];
  uuid = λ id. none;
  uuid5 = λ id. id;
  query_answers = λ db. true;
  flush = λ now db. some (now + 7);
  anomalies = λ id metrics. some [];
  handle_file_event = λ db event. some db;
  correlate = λ db event. some db;
  commits = λ db. false;
}

abbrev created : Fields
created = field (codes "agent_id") (text (codes "a1")) (
    field (codes "event_type") (text (codes "PROCESS_CREATED")) (
      field (codes "process_name") (text (codes "mimikatz"))
        (field (codes "pid") (number false (codes "42")) end)))

abbrev start : Db
start = record {
  agents = [];
  alerts = [];
  remediations = [];
  telemetry = [];
  active_rules = some (killer ∷ []);
}

abbrev queue : Text
queue = codes "aegis:commands:a1"

found_threat : is_threat services start created ≡ true
unfolding allowlisted_and_safe process_name_of text_or_none text_value get_field member text_eq
    lower strip starts_with replace_char evaluate_custom check_whitelist match_rule contains
found_threat = refl

found_kill : (verdict services start created).auto_remediation ≡ some (codes "kill_process")
unfolding analyze allowlisted_and_safe process_name_of text_or_none text_value get_field member
    text_eq lower strip starts_with static_results conclude run_custom replace_char contains
found_kill = refl

found_verdict : (verdict services start created).is_threat ≡ true
unfolding analyze allowlisted_and_safe process_name_of text_or_none text_value get_field member
    text_eq lower strip starts_with static_results conclude run_custom replace_char contains
found_verdict = refl

process_security_event-rows_example :
    (db' : Db) × ((process_security_event services (memory_lists KillCommand) 5 start [] created).0
      ≡ some db')
    × (db'.alerts
        ≡ []
          ++ (if is_threat services start created
              then alert_of services created (verdict services start created) ∷ []
              else []))
    × (db'.remediations
        ≡ []
          ++ (if is_threat services start created
              then remediations_of services
                  (memory_lists KillCommand)
                  5
                  []
                  12
                  (verdict services start created).auto_remediation
                  created
              else []))
process_security_event-rows_example =
    process_security_event-rows services (memory_lists KillCommand) 5 start [] created 12 refl

items-sessions_example :
    ((sessions services (memory_lists KillCommand) (1 ∷ 2 ∷ []) (start, []) created).0 ≡ start)
    × (items_of
          (sessions services (memory_lists KillCommand) (1 ∷ 2 ∷ []) (start, []) created).1
          (command_queue (agent_id_of created))
        ≡ items_of [] (command_queue (agent_id_of created))
          ++ map (λ now. kill_command services (now + 7) created) (1 ∷ 2 ∷ []))
unfolding event_type_of text_or_none text_value get_field text_eq is_truthy correlate_and_commit
    push trim items_of lookup
items-sessions_example =
    items-sessions services (memory_lists KillCommand) created (λ now. now + 7)
      (memory_lists-Answers KillCommand) refl refl (λ now db. refl) (λ db. refl) (1 ∷ 2 ∷ []) start
      [] refl found_verdict found_kill (omega arith)
