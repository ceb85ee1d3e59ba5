-- ===== src/Behaviour.antt =====
-- Correlation of an agent's events over time, aegis-brain/app/rules/correlation_engine.py: what the
-- engine reads of an event and the alerts that it writes. An absent text is the empty text, an absent
-- process id is 0. A step says whether it ended without an exception; what it did before stays done.
pub mod BruteForce
pub mod Bursts
pub mod Pairs
pub mod Watched
pub mod Lineage
pub mod Cooldown
use aegis_ecosystem.Prelude.{ℕ, Bool, Text, List, [], ◌∷◌, ◌++◌}
use aegis_ecosystem.Redis.Laws.{Redis}

pub record Event : Type 0 where
  pub agent_id : Text
  pub event_type : Text
  pub hostname : Text
  pub user : Text
  pub process_name : Text
  pub command_line : Text
  pub pid : ℕ
  pub parent_process_name : Text
  pub parent_pid : ℕ

pub record Alert : Type 0 where
  pub agent_id : Text
  pub severity : Text
  pub process_name : Text
  pub event_type : Text
  pub description : Text

-- `settings`, and the UUID that `_generate_alert` makes of an agent's id
pub record Settings : Type 0 where
  pub bruteforce_window_s : ℕ
  pub bruteforce_threshold : ℕ
  pub uuid_of : Text → Text

module _ (redis : Redis) where
  -- The server, and the alerts with the oldest first.
  pub record World : Type 0 where
    pub store : redis.Store
    pub alerts : List Alert

  -- `_generate_alert`
  unfoldable pub generate_alert : Settings → Alert → World → World
  generate_alert settings alert w = record w {
    alerts = w.alerts ++ record alert { agent_id = settings.uuid_of alert.agent_id } ∷ [];
  }
