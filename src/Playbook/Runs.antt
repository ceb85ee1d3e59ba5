-- ===== src/Playbook/Runs.antt =====
-- A pass over the playbooks for one alert, `check_and_execute_playbooks` of
-- aegis-brain/app/services/playbook_engine.py. The database session accepts every row that it is
-- given; the rows are kept with the oldest first. The commands of one pass see Redis's clock at one
-- time.
use aegis_ecosystem.Prelude.{
  ℕ, Bool, true, false, none, some, List, [], ◌∷◌, ◌++◌, map, Text, codes, filter,
}
use aegis_ecosystem.Redis.Laws.{Redis}
use aegis_ecosystem.Redis.Lists.{RedisLists}
use aegis_ecosystem.Redis.Held.{is_claimed}
use aegis_ecosystem.Playbook.{
  Alert, Playbook, PlaybookAction, Command, Status, ActionResult, matches_trigger,
}
use aegis_ecosystem.Playbook.Risk.{Risk, describe_action}
use aegis_ecosystem.Playbook.Actions.{Services, execute_action}

-- What a `PlaybookExecution` records: the actions that would run, those that ran, or an exception.
pub data Outcome : Type 0 where
  dry_run : List (PlaybookAction × Risk) → Outcome
  completed : List ActionResult → Outcome
  failed : Outcome

pub record PlaybookExecution : Type 0 where
  pub playbook_id : Text
  pub alert_id : Text
  pub outcome : Outcome

pub record RemediationAction : Type 0 where
  pub alert_id : Text
  pub agent_id : Text
  pub action : Text
  pub target : Text
  pub status : Status
  pub details : Text

-- f"playbook:exec:{playbook.id}:{alert.id}", f"playbook:cooldown:{playbook.id}:{alert.agent_id}"
unfoldable pub idem_key : Text → Text → Text
idem_key playbook_id alert_id = codes "playbook:exec:" ++ (playbook_id ++ (codes ":" ++ alert_id))

unfoldable pub cooldown_key : Text → Text → Text
cooldown_key playbook_id agent_id =
    codes "playbook:cooldown:" ++ (playbook_id ++ (codes ":" ++ agent_id))

-- the row of the dry run
unfoldable pub planned : Playbook → Alert → PlaybookExecution
planned playbook alert = record {
  playbook_id = playbook.id;
  alert_id = alert.id;
  outcome = dry_run (map (λ a. (a, describe_action a.action_type)) playbook.actions);
}

unfoldable pub remediation_of : Alert → PlaybookAction → ActionResult → RemediationAction
remediation_of alert action r = record {
  alert_id = alert.id;
  agent_id = alert.agent_id;
  action = action.action_type;
  target = action.target;
  status = r.status;
  details = r.output;
}

-- the results so far, with one more in front; an exception stays one
unfoldable pub with_result : ActionResult → Outcome → Outcome
with_result r (completed rs) = completed (r ∷ rs)
with_result r (dry_run plan) = dry_run plan
with_result r failed = failed

module _ (redis : Redis) (lists : RedisLists Command) (services : Services) where
  open redis use {get, set_nx, set_ex}

  -- The server, and the rows of the database.
  pub record World : Type 0 where
    pub keys : redis.Store
    pub queues : lists.Store
    pub executions : List PlaybookExecution
    pub remediations : List RemediationAction

  -- the loop over the actions; an action that raises ends it
  unfoldable pub run_actions :
      lists.Store → Alert → List PlaybookAction → Outcome × List RemediationAction × lists.Store
  unfolding with_result remediation_of
  run_actions s alert [] = (completed [], [], s)
  run_actions s alert (action ∷ actions) =
      let (r, s1) = execute_action lists services s action alert in
      let (outcome, rows, s2) = run_actions s1 alert actions in
      elim r [
        | none ↦ (failed, [], s1)
        | some x ↦ (with_result x outcome, remediation_of alert action x ∷ rows, s2)
      ]

  -- from `execution = PlaybookExecution(...)` on
  unfoldable pub execute : World → Playbook → Alert → World
  unfolding run_actions
  execute w playbook alert =
      let (outcome, rows, s) = run_actions w.queues alert playbook.actions in
      record w {
        queues = s;
        executions =
            w.executions
            ++ record { playbook_id = playbook.id; alert_id = alert.id; outcome = outcome } ∷ [];
        remediations = w.remediations ++ rows;
      }

  -- `await rc.setex(cooldown_key, 60, "1")`, whose exception is passed over
  unfoldable pub start_cooldown : ℕ → World → Playbook → Alert → World
  unfolding execute
  start_cooldown t w playbook alert =
      elim (set_ex w.keys t (cooldown_key playbook.id alert.agent_id) 60) [
        | none ↦ execute w playbook alert
        | some keys ↦ execute (record w { keys = keys }) playbook alert
      ]

  -- the cooldown of the agent, open when Redis does not answer
  unfoldable pub unless_cooling : ℕ → World → Playbook → Alert → World
  unfolding start_cooldown execute
  unless_cooling t w playbook alert =
      elim (get w.keys t (cooldown_key playbook.id alert.agent_id)) [
        | none ↦ execute w playbook alert
        | some (some n) ↦ w
        | some none ↦ start_cooldown t w playbook alert
      ]

  -- the claim of the pair of playbook and alert, closed when Redis does not answer
  unfoldable pub run_playbook : ℕ → ℕ → World → Playbook → Alert → World
  unfolding unless_cooling
  run_playbook ttl t w playbook alert = elim (set_nx w.keys t (idem_key playbook.id alert.id) ttl) [
    | none ↦ w
    | some (reply, keys) ↦ elim (is_claimed reply) [
      | true ↦ unless_cooling t (record w { keys = keys }) playbook alert
      | false ↦ record w { keys = keys }
    ]
  ]

  -- one playbook of the pass
  unfoldable pub consider : Bool → ℕ → ℕ → World → Playbook → Alert → World
  unfolding run_playbook planned
  consider dry ttl t w playbook alert = elim (matches_trigger playbook alert) [
    | false ↦ w
    | true ↦ elim dry [
      | true ↦ record w { executions = w.executions ++ planned playbook alert ∷ [] }
      | false ↦ run_playbook ttl t w playbook alert
    ]
  ]

  unfoldable pub consider_all : Bool → ℕ → ℕ → World → List Playbook → Alert → World
  unfolding consider
  consider_all dry ttl t w [] alert = w
  consider_all dry ttl t w (p ∷ ps) alert =
      consider_all dry ttl t (consider dry ttl t w p alert) ps alert

  -- `check_and_execute_playbooks`; `ttl` is `settings.PLAYBOOK_IDEMPOTENCY_TTL_S`
  unfoldable pub check_and_execute : Bool → ℕ → ℕ → World → List Playbook → Alert → World
  unfolding consider_all
  check_and_execute dry ttl t w playbooks alert =
      consider_all dry ttl t w (filter (λ p. p.is_active) playbooks) alert
