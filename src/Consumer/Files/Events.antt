-- ===== src/Consumer/Files/Events.antt =====
-- `handle_file_event` of aegis-brain/app/services/file_event_service.py: the alert of a file event,
-- where the window admits it, and its row in the SIEM store.
use aegis_ecosystem.Prelude.{
  ℕ, Bool, true, false, Option, none, some, List, [], ◌∷◌, ◌++◌, Text, codes, if◌then◌else◌,
  eq_text,
}
use aegis_ecosystem.Json.{Json, Fields, null, text, is_truthy, get_field}
use aegis_ecosystem.Consumer.Security.{Alert, Db, Services, agent_id_of, value_or, get_agent_uuid}
use aegis_ecosystem.Consumer.Files.{
  Kind, fim, yara, RateWindow, allow, classify_fim_mitre, last_part, shown, change_of, kind_of,
  alert_type, severity_to_ocsf,
}

-- The fields of the row that `handle_file_event` sets.
pub record UnifiedEvent : Type 0 where
  pub time : Json
  pub source : Text
  pub source_type : Text
  pub event_id : Json
  pub ocsf_class_uid : ℕ
  pub severity : Text
  pub severity_id : ℕ
  pub hostname : Json
  pub user : Json
  pub process_name : Json
  pub file_path : Text
  pub file_hash : Json
  pub command_line : Json

-- What the session sees: the rows of the handlers, and those of the SIEM store.
pub record Rows : Type 0 where
  pub db : Db
  pub siem : List UnifiedEvent

-- `str` of a value, and whether the event is built and inserted without an exception.
pub record SiemStore : Type 0 where
  pub str : Json → Text
  pub inserts : UnifiedEvent → Bool

unfoldable pub severity_of : Kind → Text
severity_of fim = codes "NOTICE"
severity_of yara = codes "HIGH"

module _ (services : Services) where
  unfoldable pub file_alert : Kind → Text → Text → Fields → Alert
  unfolding classify_fim_mitre shown value_or get_agent_uuid agent_id_of
  file_alert yara change path event = record {
    agent_id = get_agent_uuid services (agent_id_of event);
    severity = codes "HIGH";
    pid = null;
    parent_pid = null;
    parent_process_name = null;
    process_name = get_field (codes "process_name") event;
    process_path = null;
    event_type = alert_type yara;
    description =
        codes "YARA match '"
        ++ (shown (get_field (codes "process_name") event) ++ (codes "': " ++ path));
    mitre_tactic_name = some (codes "Execution");
    mitre_technique_name = some (codes "User Execution");
    mitre_technique_id = some (codes "T1204");
  }
  file_alert fim change path event =
      let (tactic, tech_id, tech_name) = classify_fim_mitre path in
      record {
        agent_id = get_agent_uuid services (agent_id_of event);
        severity = codes "MEDIUM";
        pid = null;
        parent_pid = null;
        parent_process_name = null;
        process_name = value_or (get_field (codes "process_name") event) (text (codes "file"));
        process_path = null;
        event_type = alert_type fim;
        description = codes "FIM: file " ++ (change ++ (codes ": " ++ path));
        mitre_tactic_name = some tactic;
        mitre_technique_name = some tech_name;
        mitre_technique_id = some tech_id;
      }

  -- `db.add(alert)` and the flush
  unfoldable pub add_alert : ℕ → Alert → Rows → Option Rows
  add_alert now alert rows =
      let db' = record rows.db { alerts = rows.db.alerts ++ alert ∷ [] } in
      elim (services.flush now db') [ none ↦ none | some id ↦ some (record rows { db = db' }) ]

  module _ (store : SiemStore) where
    unfoldable pub unified_event : Kind → Text → Fields → UnifiedEvent
    unfolding severity_of severity_to_ocsf last_part agent_id_of
    unified_event kind path event = record {
      time = get_field (codes "timestamp") event;
      source = codes "agent:" ++ agent_id_of event;
      source_type = codes "agent_file";
      event_id =
          if is_truthy (get_field (codes "event_id") event)
          then get_field (codes "event_id") event
          else text (
              services.uuid5 (
                agent_id_of event
                ++ (codes ":"
                    ++ (store.str (get_field (codes "timestamp") event) ++ (codes ":" ++ path)))));
      ocsf_class_uid = 1001;
      severity = severity_of kind;
      severity_id = severity_to_ocsf (severity_of kind);
      hostname = get_field (codes "hostname") event;
      user = get_field (codes "user") event;
      process_name = get_field (codes "process_name") event;
      file_path = elim kind [ fim ↦ path | yara ↦ last_part (codes "-> ") path ];
      file_hash = get_field (codes "file_hash") event;
      command_line = get_field (codes "command_line") event;
    }

    -- an exception of the store is logged and passed over
    unfoldable pub store_event : UnifiedEvent → Rows → Rows
    store_event row rows =
        if store.inserts row then record rows { siem = rows.siem ++ row ∷ [] } else rows

    -- the alert, where it is admitted, and then the row
    unfoldable pub add_rows : ℕ → Bool → Alert → UnifiedEvent → Rows → Option Rows
    unfolding add_alert store_event
    add_rows now true alert row rows = elim (add_alert now alert rows) [
      | none ↦ none
      | some rows' ↦ some (store_event row rows')
    ]
    add_rows now false alert row rows = some (store_event row rows)

    -- `none` for an exception of the flush, which counts in the window all the same
    unfoldable pub handle_file_event : ℕ → Fields → Rows → RateWindow → Option Rows × RateWindow
    unfolding add_rows file_alert unified_event allow change_of kind_of
    handle_file_event now event rows w =
        let kind = kind_of event in
        let (change, path) = change_of event in
        let (admitted, w') = allow now kind w in
        (
          add_rows now admitted (file_alert kind change path event) (unified_event kind path event)
              rows,
          w',
        )
