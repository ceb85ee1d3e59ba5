-- ===== src/Consumer/Security/Metrics.antt =====
-- The metrics of an agent, `_process_telemetry` of aegis-brain/app/services/redis_consumer.py.
use aegis_ecosystem.Prelude.{
  Bool, true, false, Option, none, some, List, [], ◌∷◌, ◌++◌, Text, codes, if◌then◌else◌, eq_text,
}
use aegis_ecosystem.Json.{Json, Fields, null, text, object, end, field, is_truthy, get_field}
use aegis_ecosystem.Consumer.Security.{
  Alert, Telemetry, Db, Anomaly, Services, agent_id_of, get_agent_uuid,
}

unfoldable pub is_missing : Json → Bool
is_missing null = true
is_missing v = false

module _ (services : Services) where
  open services use {anomalies}

  -- `{"list": event.processes} if event.processes else None`
  unfoldable pub listed : Json → Json
  listed processes =
      if is_truthy processes then object (field (codes "list") processes end) else null

  unfoldable pub telemetry_of : Fields → Telemetry
  unfolding get_agent_uuid agent_id_of listed
  telemetry_of event = record {
    device_id = get_agent_uuid services (agent_id_of event);
    cpu_usage = get_field (codes "cpu_usage") event;
    ram_usage = get_field (codes "ram_usage") event;
    disk_free = get_field (codes "disk_free") event;
    disk_total = get_field (codes "disk_total") event;
    network_sent = get_field (codes "network_sent") event;
    network_received = get_field (codes "network_received") event;
    processes = listed (get_field (codes "processes") event);
  }

  -- the `metrics` that are there
  unfoldable pub metric : Text → Fields → List (Text × Json)
  unfolding is_missing
  metric name event =
      if is_missing (get_field name event) then [] else (name, get_field name event) ∷ []

  unfoldable pub anomaly_alert : Text → Anomaly → Alert
  anomaly_alert agent_id anomaly = record {
    agent_id = agent_id;
    severity = anomaly.severity;
    pid = null;
    parent_pid = null;
    parent_process_name = null;
    process_name = text (codes "System");
    process_path = null;
    event_type = codes "statistical_anomaly";
    description =
        codes "Anomaly in "
        ++ (anomaly.metric
            ++ (codes ": " ++ (anomaly.value ++ (codes " (z=" ++ (anomaly.z_score ++ codes ")")))));
    mitre_tactic_name = none;
    mitre_technique_name = none;
    mitre_technique_id = none;
  }

  unfoldable pub anomaly_alerts : Text → List Anomaly → List Alert
  unfolding anomaly_alert
  anomaly_alerts agent_id [] = []
  anomaly_alerts agent_id (anomaly ∷ found) =
      anomaly_alert agent_id anomaly ∷ anomaly_alerts agent_id found

  unfoldable pub process_telemetry : Db → Fields → Option Db
  unfolding telemetry_of metric anomaly_alerts get_agent_uuid agent_id_of is_missing
  process_telemetry db event =
      let metrics = metric (codes "cpu_usage") event ++ metric (codes "ram_usage") event in
      elim metrics [
        | [] ↦ some db
        | m ∷ ms ↦ elim (anomalies (agent_id_of event) (m ∷ ms)) [
          | none ↦ none
          | some found ↦ some (record db {
            telemetry = db.telemetry ++ telemetry_of event ∷ [];
            alerts =
                db.alerts ++ anomaly_alerts (get_agent_uuid services (agent_id_of event)) found;
          })
        ]
      ]
