-- ===== src/Playbook/Risk.antt =====
-- The risk of an action, `ACTION_RISK` and `describe_action` of
-- aegis-brain/app/services/playbook_engine.py, without the texts of the preconditions and rollbacks.
use aegis_ecosystem.Prelude.{Bool, true, false, none, some, [], ◌∷◌, Text, codes, lower, eq_text}
use aegis_ecosystem.Prelude.Dict.{Dict, lookup}

pub data RiskLevel : Type 0 where
  low medium high critical : RiskLevel

pub data Approver : Type 0 where
  analyst admin : Approver

pub record Risk : Type 0 where
  pub risk : RiskLevel
  pub approver : Approver
  pub reversible : Bool

abbrev pub risk_of : RiskLevel → Approver → Bool → Risk
risk_of r a b = record { risk = r; approver = a; reversible = b }

abbrev pub action_risk : Dict Text Risk
action_risk =
    (codes "webhook", risk_of low analyst true)
    ∷ (codes "verify", risk_of low analyst true)
    ∷ (codes "collect_ioc", risk_of low analyst true)
    ∷ (codes "kill_process", risk_of high analyst false)
    ∷ (codes "kill_process_tree", risk_of high analyst false)
    ∷ (codes "quarantine_binary", risk_of medium analyst true)
    ∷ (codes "remove_persistence", risk_of high analyst false)
    ∷ (codes "dns_sinkhole", risk_of medium analyst true)
    ∷ (codes "block_ip", risk_of high analyst true)
    ∷ (codes "block_ip_temporal", risk_of medium analyst true)
    ∷ (codes "isolate_host", risk_of critical analyst true)
    ∷ (codes "deisolate_host", risk_of low analyst true)
    ∷ (codes "release_host", risk_of low analyst true)
    ∷ (codes "update_agent", risk_of medium analyst true)
    ∷ (codes "script", risk_of critical admin false)
    ∷ (codes "eradicate", risk_of critical analyst false)
    ∷ []

-- an action that the table has not is critical, and for an admin
unfoldable pub describe_action : Text → Risk
describe_action action_type = elim (lookup (lower action_type) action_risk) [
  | none ↦ risk_of critical admin false
  | some r ↦ r
]
