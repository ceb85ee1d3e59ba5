-- ===== src/Tests/FileEvents.antt =====
-- Runs of the handler of file events.
use Prim.Native.Nat.{min}
use aegis_ecosystem.Prelude.{
  ◌≡◌, refl, ◌+◌, true, some, none, [], ◌∷◌, All, arith, Text, codes, text_eq, length, strip,
  lstrip, rstrip, contains, starts_with,
}
use aegis_ecosystem.Prelude.Dict.{lookup}
use aegis_ecosystem.Sigma.Engine.{upper}
use aegis_ecosystem.Json.{Fields, text, end, field, get_field}
use aegis_ecosystem.Consumer.Security.{Services}
use aegis_ecosystem.Consumer.Files.{yara, RateWindow, change_of, verbs, severity_to_ocsf}
use aegis_ecosystem.Consumer.Files.Events.{Rows, SiemStore}
use aegis_ecosystem.Consumer.Files.Limits.{alerts_of, events_of, handle_all, alerts-handle_all}
use aegis_ecosystem.Consumer.Files.Paths.{line_of, change_of-line_of}

abbrev services : Services
services = record {
  library = record { search = λ pattern value. none; str = λ value. [] };
  updates = λ r. true;
  rules = [];
  uuid = λ id. none;
  uuid5 = λ id. id;
  query_answers = λ db. true;
  flush = λ now db. some now;
  anomalies = λ id metrics. some [];
  handle_file_event = λ db event. some db;
  correlate = λ db event. some db;
  commits = λ db. true;
}

abbrev store : SiemStore
store = record { str = λ value. []; inserts = λ row. true }

abbrev rows : Rows
rows = record {
  db = record { agents = []; alerts = []; remediations = []; telemetry = []; active_rules = none };
  siem = [];
}

-- a window in which one more alert for a YARA match has room
abbrev window : RateWindow
window = record { window_start = some 0; fim_count = 3; yara_count = 29 }

abbrev match : Fields
match = field (codes "event_type") (text (codes "YARA_MATCH")) end

alerts-handle_all_example :
    let r = handle_all services store ((1, match) ∷ (2, match) ∷ []) (rows, window) in
    (alerts_of yara r.0.db.alerts + 29
      ≡ 0 + min 30 (29 + events_of yara ((1, match) ∷ (2, match) ∷ [])))
    × (length r.0.siem ≡ 0 + 2)
alerts-handle_all_example =
    alerts-handle_all services store (λ now db. (now, refl)) (λ row. refl) yara 0
      ((1, match) ∷ (2, match) ∷ []) rows window refl (omega arith, (omega arith, tt)) (omega arith)

abbrev reported : Text → Fields
reported line = field (codes "command_line") (text line) end

change_of-line_of_example :
    All
      (λ verb.
        change_of (reported (line_of verb (codes "/etc/passwd"))) ≡ (verb, codes "/etc/passwd"))
      verbs
unfolding get_field text_eq lstrip rstrip contains starts_with
change_of-line_of_example =
    change_of-line_of b'/' (codes "etc/passwd") refl refl refl reported (λ line. refl)

notice_unknown : severity_to_ocsf (codes "NOTICE") ≡ 0
unfolding severity_to_ocsf upper strip lstrip rstrip lookup text_eq
notice_unknown = refl
