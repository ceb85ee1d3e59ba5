-- ===== src/Tests/Incidents.antt =====
-- Runs of the grouping of alerts.
use aegis_ecosystem.Prelude.{
  ℕ, ◌≡◌, refl, some, List, [], ◌∷◌, Text, codes, text_eq, eq_text, eq_nat, eq_pair, lower, strip,
  replace_char,
}
use aegis_ecosystem.Prelude.Dict.{lookup}
use aegis_ecosystem.Sigma.Engine.{upper}
use aegis_ecosystem.Behaviour.Pairs.{base, last_part, strip_suffix, without_extension}
use aegis_ecosystem.Incident.{
  Alert, Key, group_key, or_text, base_name, window_us, suggest_groups, group_title,
}
use aegis_ecosystem.Incident.Groups.{lookup-suggest_groups}

abbrev shell_at : ℕ → Text → ℕ → Alert
shell_at id process_name timestamp = record {
  id = id;
  agent_id = codes "a1";
  mitre_technique_id = codes "t1059";
  event_type = codes "process";
  process_name = process_name;
  timestamp = timestamp;
}

-- the first two are in one bucket of 30 minutes, the third in the next
abbrev alerts : List Alert
alerts =
    shell_at 1 (codes "powershell.exe") 1_000_000
    ∷ shell_at 2 (codes "C:\\x\\PowerShell") 9_000_000
    ∷ shell_at 3 (codes "powershell") 1_800_000_000
    ∷ []

abbrev first_key : Key
first_key = (codes "a1", (codes "T1059", (codes "powershell", 0)))

lookup-suggest_groups_example :
    lookup first_key (suggest_groups alerts 30)
    ≡ some (
        shell_at 1 (codes "powershell.exe") 1_000_000
        ∷ shell_at 2 (codes "C:\\x\\PowerShell") 9_000_000
        ∷ [])
unfolding group_key or_text base_name window_us upper text_eq lower strip replace_char base
    last_part strip_suffix without_extension
lookup-suggest_groups_example = lookup-suggest_groups alerts 30 first_key

title : group_title first_key [] ≡ codes "T1059 — powershell @ a1"
unfolding group_title or_text
title = refl
