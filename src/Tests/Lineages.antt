-- ===== src/Tests/Lineages.antt =====
-- Runs of the correlation of an agent's events over time.
use aegis_ecosystem.Prelude.{
  ℕ, ◌+◌, ◌*◌, ◌≤◌, ◌<◌, ◌≡◌, refl, true, false, List, [], ◌∷◌, arith, Text, codes, text_eq,
  eq_text, lower, strip, replace_char, contains, length,
}
use aegis_ecosystem.Prelude.Dict.{lookup, insert, delete}
use aegis_ecosystem.Redis.Laws.{at_time, bumped, deadline_after}
use aegis_ecosystem.Redis.Memory.{memory_redis, live, incr, expire, remove}
use aegis_ecosystem.Behaviour.{Event, Settings, World, generate_alert}
use aegis_ecosystem.Behaviour.BruteForce.{
  is_login, is_failure, failures_key, or_unknown, brute_force_detection, count_failure, after_incr,
  at_threshold,
}
use aegis_ecosystem.Behaviour.Bursts.{detect_all, alerts-Burst}
use aegis_ecosystem.Behaviour.Pairs.{
  stem, rule_stem, is_watched, rule_suspicious_parent_child, first_row, proc_match, triggered_by,
  without_extension, strip_suffix, base, last_part,
}
use aegis_ecosystem.Behaviour.Watched.{is_watched-triggered}
use aegis_ecosystem.Behaviour.Lineage.{cool_key}
use aegis_ecosystem.Behaviour.Cooldown.{raised}
use aegis_ecosystem.Behaviour.Cooldown.Once.{raised-Ordered}

abbrev settings : Settings
settings = record {
  bruteforce_window_s = 60;
  bruteforce_threshold = 2;
  uuid_of = λ agent_id. agent_id;
}

abbrev login : Event
login = record {
  agent_id = codes "a1";
  event_type = codes "SYSLOG_NETWORK";
  hostname = codes "h";
  user = codes "root";
  process_name = codes "sshd";
  command_line = codes "Failed password";
  pid = 1;
  parent_process_name = [];
  parent_pid = 0;
}

abbrev quiet : World memory_redis
quiet = record { store = []; alerts = [] }

abbrev three_logins : List (ℕ × Event)
three_logins = (1_000, login) ∷ (2_000, login) ∷ (3_000, login) ∷ []

abbrev root_key : Text
root_key = codes "corr:bf:a1:root"

alerts-Burst_example :
    (rest : ℕ) × (rest < 2)
    × (length (detect_all memory_redis settings three_logins quiet).1.alerts * 2 + rest ≡ 3)
unfolding is_login is_failure failures_key or_unknown brute_force_detection count_failure after_incr
    at_threshold generate_alert text_eq lower strip contains live incr expire remove lookup insert
    delete at_time bumped deadline_after
alerts-Burst_example =
    alerts-Burst memory_redis settings root_key 1_000 three_logins quiet (omega arith)
      (λ t' le. refl)
      (
        omega arith,
        omega arith,
        refl,
        refl,
        (omega arith, omega arith, refl, refl, (omega arith, omega arith, refl, refl, tt)),
      )
      refl

abbrev macro : Event
macro = record {
  agent_id = codes "a1";
  event_type = codes "PROCESS_CREATED";
  hostname = codes "h";
  user = codes "u";
  process_name = codes "C:\\Windows\\PowerShell.exe";
  command_line = [];
  pid = 7;
  parent_process_name = codes "WINWORD.EXE";
  parent_pid = 5;
}

is_watched-triggered_example : (rule_suspicious_parent_child macro).triggered ≡ true
unfolding is_watched stem without_extension strip_suffix base last_part text_eq lower strip
    replace_char
is_watched-triggered_example = is_watched-triggered macro refl

-- a script is a child for the static rule and none for the correlation
abbrev script : Event
script = record macro { process_name = codes "powershell.ps1" }

script_apart :
    (is_watched (stem script.parent_process_name) (stem script.process_name) ≡ false)
    × ((rule_suspicious_parent_child script).triggered ≡ true)
unfolding is_watched stem rule_stem rule_suspicious_parent_child first_row proc_match triggered_by
    without_extension strip_suffix base last_part text_eq lower strip replace_char
script_apart = (refl, refl)

raised-Ordered_example :
    raised memory_redis settings 1_800 300
      (cool_key macro)
      ((1_000, macro) ∷ (2_000, script) ∷ (3_000, macro) ∷ [])
      quiet
    ≤ 1
raised-Ordered_example =
    raised-Ordered memory_redis settings 1_800 300 macro 1_000
      ((1_000, macro) ∷ (2_000, script) ∷ (3_000, macro) ∷ []) quiet
      (omega arith, omega arith, (omega arith, omega arith, (omega arith, omega arith, tt)))
