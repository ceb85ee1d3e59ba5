-- ===== src/Incident.antt =====
-- Grouping of alerts into incidents, aegis-brain/app/services/incident_grouping.py. A timestamp is in
-- microseconds; 0 stands for one that is absent, cannot be read or is not after the epoch. An absent
-- text is the empty text.
pub mod Groups
use aegis_ecosystem.Prelude.{
  ℕ, ◌*◌, ◌/◌, none, some, List, [], ◌∷◌, ◌++◌, Text, codes, max, take, nat_eq, if◌then◌else◌,
  eq_text, eq_nat, eq_pair,
}
use aegis_ecosystem.Prelude.Dict.{Dict, lookup, insert}
use aegis_ecosystem.Sigma.Engine.{upper}
use aegis_ecosystem.Behaviour.Pairs.{base, programs, scripts, without_extension}

pub record Alert : Type 0 where
  pub id : ℕ
  pub agent_id : Text
  pub mitre_technique_id : Text
  pub event_type : Text
  pub process_name : Text
  pub timestamp : ℕ

-- agent, technique or type, process, bucket of time
abbrev pub Key : Type 0
Key = Text × (Text × (Text × ℕ))

-- `a or b`
unfoldable pub or_text : Text → Text → Text
or_text [] other = other
or_text (c ∷ s) other = c ∷ s

-- `_base_name`
unfoldable pub base_name : Text → Text
unfolding base without_extension
base_name name = without_extension (programs ++ scripts) (base name)

-- `max(60, window_min * 60)` seconds, in microseconds
unfoldable pub window_us : ℕ → ℕ
window_us window_min = max 60 (window_min * 60) * 1_000_000

-- `group_key`
unfoldable pub group_key : ℕ → Alert → Key
unfolding or_text upper base_name window_us
group_key window_min alert = (
  or_text alert.agent_id (codes "unknown"),
  (
    upper (or_text alert.mitre_technique_id (or_text alert.event_type (codes "unknown"))),
    (
      base_name alert.process_name,
      if nat_eq alert.timestamp 0 then 0 else alert.timestamp / window_us window_min,
    ),
  ),
)

-- `groups[key].append(a)`
unfoldable pub append_to : Key → Alert → Dict Key (List Alert) → Dict Key (List Alert)
append_to key alert groups = elim (lookup key groups) [
  | none ↦ insert key (alert ∷ []) groups
  | some alerts ↦ insert key (alerts ++ alert ∷ []) groups
]

unfoldable pub append_all : ℕ → List Alert → Dict Key (List Alert) → Dict Key (List Alert)
unfolding append_to group_key
append_all window_min [] groups = groups
append_all window_min (alert ∷ alerts) groups =
    append_all window_min alerts (append_to (group_key window_min alert) alert groups)

-- `suggest_groups`
unfoldable pub suggest_groups : List Alert → ℕ → Dict Key (List Alert)
unfolding append_all
suggest_groups alerts window_min = append_all window_min alerts []

-- `group_title`
unfoldable pub group_title : Key → Text → Text
unfolding or_text
group_title (agent, (technique, (proc, bucket))) hostname =
    technique
    ++ (codes " — "
        ++ (or_text proc (codes "unknown") ++ (codes " @ " ++ or_text hostname (take 8 agent))))
