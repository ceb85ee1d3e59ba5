-- ===== src/Consumer/Files.antt =====
-- File events and YARA matches, aegis-brain/app/services/file_event_service.py: `_RateWindow`,
-- `classify_fim_mitre` and `handle_file_event`, with `severity_to_ocsf` of
-- aegis-brain/app/services/ocsf.py. Time is in nanoseconds. The window is the process's: it stays as a
-- call left it when the session is rolled back. The notification changes nothing here.
pub mod Events
pub mod Limits
pub mod Paths
use aegis_ecosystem.Prelude.{
  ℕ, zero, suc, ◌+◌, ◌-◌, ◌*◌, Bool, true, false, Option, none, some, List, [], ◌∷◌, ◌++◌, Text,
  codes, lower, strip, contains, starts_with, any, drop, length, leb, if◌then◌else◌, ◌==◌, eq_text,
}
use aegis_ecosystem.Prelude.Dict.{Dict, lookup}
use aegis_ecosystem.Json.{Json, Fields, null, boolean, number, array, object, text, get_field}
use aegis_ecosystem.Sigma.Engine.{upper}
use aegis_ecosystem.RateGuard.{second}
use aegis_ecosystem.Heuristic.Conditions.{text_or_none}
use aegis_ecosystem.Consumer.Security.{event_type_of, value_or}

pub data Kind : Type 0 where
  fim yara : Kind

-- `_RateWindow`
pub record RateWindow : Type 0 where
  pub window_start : Option ℕ
  pub fim_count : ℕ
  pub yara_count : ℕ

abbrev pub fresh_window : RateWindow
fresh_window = record { window_start = none; fim_count = 0; yara_count = 0 }

abbrev pub limit_of : Kind → ℕ
limit_of fim = 60
limit_of yara = 30

abbrev pub count_of : Kind → RateWindow → ℕ
count_of fim w = w.fim_count
count_of yara w = w.yara_count

abbrev pub counted_one : Kind → RateWindow → RateWindow
counted_one fim w = record w { fim_count = w.fim_count + 1 }
counted_one yara w = record w { yara_count = w.yara_count + 1 }

-- the window that a call at `now` counts in
unfoldable pub window_at : ℕ → RateWindow → RateWindow
window_at now w =
    let opened : RateWindow = record { window_start = some now; fim_count = 0; yara_count = 0 } in
    elim w.window_start [
      | none ↦ opened
      | some start ↦ if leb (60 * second) (now - start) then opened else w
    ]

-- `allow`, within the window of the call
unfoldable pub allow_in : Kind → RateWindow → Bool × RateWindow
allow_in kind w =
    if leb (limit_of kind) (count_of kind w) then (false, w) else (true, counted_one kind w)

unfoldable pub allow : ℕ → Kind → RateWindow → Bool × RateWindow
unfolding window_at allow_in
allow now kind w = allow_in kind (window_at now w)

-- `any(k in low for k in names)`
unfoldable pub any_in : List Text → Text → Bool
any_in names low = any (λ k. contains k low) names

-- (tactic_name, technique_id, technique_name)
unfoldable pub classify_fim_mitre : Text → Text × Text × Text
unfolding any_in
classify_fim_mitre path =
    let low = lower path in
    if any_in
      (codes "\\tasks"
        ∷ codes "currentversion\\run"
        ∷ codes "startup"
        ∷ codes "/cron."
        ∷ codes "/systemd/"
        ∷ codes "/rc"
        ∷ [])
      low
    then (codes "Persistence", codes "T1547", codes "Boot or Logon Autostart Execution")
    else if any_in (codes "\\services" ∷ codes "/etc/init.d" ∷ codes "systemd" ∷ []) low
    then (codes "Persistence", codes "T1543", codes "Create or Modify System Process")
    else (codes "Impact", codes "T1565.001", codes "Stored Data Manipulation")

-- `s.replace(old, "")` of an `old` that is not empty; the number says how much of an `old` is left to
-- pass over
unfoldable pub remove_from : Text → ℕ → Text → Text
remove_from old k [] = []
remove_from old (suc k) (c ∷ s) = remove_from old k s
remove_from old zero (c ∷ s) = elim (starts_with old (c ∷ s)) [
  | true ↦ remove_from old (length old - 1) s
  | false ↦ c ∷ remove_from old zero s
]

-- what stands behind the last `sep`; two of these never overlap for a `sep` as "-> "
unfoldable pub after_last : Text → Text → Option Text
after_last sep [] = none
after_last sep (c ∷ s) = elim (after_last sep s) [
  | some r ↦ some r
  | none ↦ if starts_with sep (c ∷ s) then some (drop (length sep) (c ∷ s)) else none
]

-- `s.split(sep)[-1]`
unfoldable pub last_part : Text → Text → Text
unfolding after_last
last_part sep s = elim (after_last sep s) [ none ↦ s | some r ↦ r ]

-- f"{value}" of a text or None
unfoldable pub shown : Json → Text
shown (text s) = s
shown null = codes "None"
shown (boolean b) = []
shown (number z s) = s
shown (array vs) = []
shown (object fs) = []

-- the path before its verb is split off
unfoldable pub raw_path : Fields → Text
unfolding remove_from value_or text_or_none
raw_path event =
    let raw = strip (text_or_none (get_field (codes "command_line") event)) in
    elim (strip (remove_from (codes "[FIM] ") 0 raw)) [
      | [] ↦ text_or_none (value_or (get_field (codes "process_name") event) (text (codes "?")))
      | c ∷ s ↦ c ∷ s
    ]

-- the loop over the verbs: the change and the path behind it
unfoldable pub split_change : List Text → Text → Text × Text
split_change [] path = (codes "modified", path)
split_change (verb ∷ verbs) path =
    let rest = split_change verbs path in
    if starts_with (verb ++ codes ": ") (lower path)
    then (verb, strip (drop (length verb + 2) path))
    else rest

abbrev pub verbs : List Text
verbs = codes "created" ∷ codes "modified" ∷ codes "deleted" ∷ []

unfoldable pub change_of : Fields → Text × Text
unfolding raw_path split_change
change_of event = split_change verbs (raw_path event)

unfoldable pub kind_of : Fields → Kind
unfolding event_type_of
kind_of event = if event_type_of event == codes "YARA_MATCH" then yara else fim

-- the `event_type` of an alert
abbrev pub alert_type : Kind → Text
alert_type fim = codes "fim_file_change"
alert_type yara = codes "yara_match"

abbrev pub severity_ids : Dict Text ℕ
severity_ids =
    (codes "INFO", 1)
    ∷ (codes "INFORMATIONAL", 1)
    ∷ (codes "LOW", 2)
    ∷ (codes "MEDIUM", 3)
    ∷ (codes "HIGH", 4)
    ∷ (codes "CRITICAL", 5)
    ∷ (codes "FATAL", 6)
    ∷ []

unfoldable pub severity_to_ocsf : Text → ℕ
severity_to_ocsf severity = elim (lookup (upper (strip severity)) severity_ids) [
  | none ↦ 0
  | some n ↦ n
]
