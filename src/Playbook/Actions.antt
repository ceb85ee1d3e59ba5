-- ===== src/Playbook/Actions.antt =====
-- One action of a playbook, `_execute_action` of aegis-brain/app/services/playbook_engine.py, with the
-- artifact's name and the update command of aegis-brain/app/api/v1/deploy.py. What the server's host
-- and the network answer is a parameter (Services). An action that raises is `none`.
use aegis_ecosystem.Prelude.{
  ℕ, Bool, true, false, Option, none, some, List, [], ◌∷◌, ◌++◌, Text, codes, lower, strip,
  contains, decimal, take, leb, if◌then◌else◌, ◌==◌, eq_text, nat_eq,
}
use aegis_ecosystem.Prelude.Dict.{Dict, lookup}
use aegis_ecosystem.Redis.Lists.{RedisLists}
use aegis_ecosystem.Playbook.{
  Alert, Seconds, seconds, below_zero, Number, absent, invalid, given, Params, PlaybookAction,
  Update, Order, block_ip, dns_sinkhole, remove_persistence, block_ip_temporal, kill_process,
  kill_process_tree, quarantine_binary, collect_ioc, verify, isolate_host, deisolate_host,
  update_agent, Command, Status, completed, failed, blocked, ActionResult, result,
  send_agent_command,
}

-- The answer to `client.post`, or the text of its exception.
pub data Posted : Type 0 where
  answered : Bool → ℕ → Posted
  not_posted : Text → Posted

-- The outcome of `subprocess.run(target.split(), ...)`, or the text of an exception.
pub data Ran : Type 0 where
  exited : Bool → Text → Text → Ran
  not_run : Text → Ran

pub record Services : Type 0 where
  pub post : Text → Alert → Params → Posted
  pub run : Text → Seconds → Ran
  -- `settings.PLAYBOOK_SCRIPT_ENABLED` and `settings.PUBLIC_BASE_URL`
  pub script_enabled : Bool
  pub public_base_url : Text
  -- the SHA-256 of an artifact that is a file of the artifact directory
  pub published : Text → Option Text
  pub sign_artifact : Text → Text

-- the branches of the chain of tests on `action_type`
pub data Kind : Type 0 where
  webhook script eradicate update : Kind
  send needs_pid : (Alert → Text → Order) → Kind
  timed : Kind
  unknown : Kind

unfoldable pub kinds : Dict Text Kind
kinds =
    (codes "webhook", webhook)
    ∷ (codes "block_ip", send (λ alert target. block_ip target))
    ∷ (codes "kill_process", needs_pid (λ alert target. kill_process alert.pid alert.process_name))
    ∷ (
      codes "kill_process_tree",
      needs_pid (λ alert target. kill_process_tree alert.pid alert.process_name),
    )
    ∷ (codes "block_ip_temporal", timed)
    ∷ (codes "isolate_host", send (λ alert target. isolate_host))
    ∷ (codes "deisolate_host", send (λ alert target. deisolate_host))
    ∷ (codes "release_host", send (λ alert target. deisolate_host))
    ∷ (codes "update_agent", update)
    ∷ (codes "script", script)
    ∷ (
      codes "quarantine_binary",
      needs_pid (λ alert target. quarantine_binary alert.pid alert.process_name),
    )
    ∷ (codes "remove_persistence", send (λ alert target. remove_persistence alert.process_name))
    ∷ (codes "verify", needs_pid (λ alert target. verify alert.pid))
    ∷ (codes "dns_sinkhole", send (λ alert target. dns_sinkhole target))
    ∷ (codes "collect_ioc", needs_pid (λ alert target. collect_ioc alert.pid alert.process_name))
    ∷ (codes "eradicate", eradicate)
    ∷ []

unfoldable pub kind_of : Text → Kind
unfolding kinds
kind_of action_type = elim (lookup action_type kinds) [ none ↦ unknown | some k ↦ k ]

-- `(version or "latest").strip() or "latest"`
unfoldable pub version_or_latest : Text → Text
version_or_latest v =
    let latest : Text = codes "latest" in
    let s = strip v in elim v [ [] ↦ latest | c ∷ r ↦ elim s [ [] ↦ latest | d ∷ t ↦ d ∷ t ] ]

unfoldable pub artifact_name_for : Text → Text → Text
unfolding version_or_latest
artifact_name_for agent_type version =
    if agent_type == codes "aegis-guard"
    then codes "aegis-guard-" ++ (version_or_latest version ++ codes ".zip")
    else codes "nodetrace-" ++ (version_or_latest version ++ codes ".zip")

-- `base_url.rstrip('/')`
unfoldable pub without_slashes : Text → Text
without_slashes [] = []
without_slashes (c ∷ s) =
    let rest = without_slashes s in
    elim rest [ [] ↦ if nat_eq c b'/' then [] else c ∷ [] | d ∷ t ↦ c ∷ d ∷ t ]

unfoldable pub build_update_command : Text → Text → Text → Text → Text → Update
unfolding without_slashes artifact_name_for
build_update_command agent_type version base_url sha256 signature = record {
  agent_type = agent_type;
  version = version;
  url =
      without_slashes base_url
      ++ (codes "/api/v1/deploy/artifacts/" ++ artifact_name_for agent_type version);
  sha256 = sha256;
  signature = signature;
}

-- `"aegis-guard" if "guard" in str(target).lower() else "nodetrace"`
unfoldable pub agent_type_of : Text → Text
agent_type_of target =
    if contains (codes "guard") (lower target) then codes "aegis-guard" else codes "nodetrace"

-- `int(params.get(key, default))`
unfoldable pub int_or : ℕ → Number → Option Seconds
int_or default absent = some (seconds default)
int_or default (invalid text) = none
int_or default (given n) = some n

-- `min(n, 120)`
unfoldable pub at_most_two_minutes : Seconds → Seconds
at_most_two_minutes (seconds n) = if leb n 120 then seconds n else seconds 120
at_most_two_minutes (below_zero n) = below_zero n

unfoldable pub webhook_result : Posted → ActionResult
webhook_result (answered true code) = result completed (codes "HTTP " ++ decimal code)
webhook_result (answered false code) = result failed (codes "HTTP " ++ decimal code)
webhook_result (not_posted text) = result failed text

-- `(result.stdout or result.stderr)[:4000]`
unfoldable pub output_of : Text → Text → Text
output_of [] stderr = take 4000 stderr
output_of (c ∷ stdout) stderr = take 4000 (c ∷ stdout)

unfoldable pub script_result : Ran → ActionResult
unfolding output_of
script_result (exited true stdout stderr) = result completed (output_of stdout stderr)
script_result (exited false stdout stderr) = result failed (output_of stdout stderr)
script_result (not_run text) = result failed (take 500 text)

-- the text of the exception that `int` raises
unfoldable pub error_of : Number → Text
error_of (invalid text) = text
error_of absent = []
error_of (given n) = []

-- an invalid timeout raises inside the `try`
unfoldable pub run_script : Services → PlaybookAction → ActionResult
unfolding int_or at_most_two_minutes script_result error_of
run_script services action =
    if services.script_enabled
    then (elim (int_or 30 action.params.timeout) [
      | none ↦ result failed (take 500 (error_of action.params.timeout))
      | some n ↦ script_result (services.run action.target (at_most_two_minutes n))
    ])
    else result blocked (codes "script actions disabled")

-- the orders of an eradication: collect, quarantine, kill, remove, verify
unfoldable pub eradication : Alert → List Order
eradication alert = elim (nat_eq alert.pid 0) [
  | true ↦ remove_persistence alert.process_name ∷ []
  | false ↦
      collect_ioc alert.pid alert.process_name
      ∷ quarantine_binary alert.pid alert.process_name
      ∷ kill_process_tree alert.pid alert.process_name
      ∷ remove_persistence alert.process_name
      ∷ verify alert.pid
      ∷ []
]

module _ (lists : RedisLists Command) where
  open lists use {Store}

  -- `return await _send_agent_command(alert.agent_id, {...})`
  unfoldable pub send_order : Store → Alert → Order → ActionResult × Store
  send_order s alert order =
      let ((status, output), s') =
        send_agent_command lists s alert.agent_id (record { order = order; alert_id = alert.id }) in
      (result status output, s')

  -- the commands of a chain, each after the other
  unfoldable pub send_orders : Store → Alert → List Order → List (Status × Text) × Store
  send_orders s alert [] = ([], s)
  send_orders s alert (order ∷ orders) =
      let (r, s1) =
        send_agent_command lists s alert.agent_id (record { order = order; alert_id = alert.id }) in
      let (rs, s2) = send_orders s1 alert orders in (r ∷ rs, s2)

  unfoldable pub eradicate_host : Store → Alert → ActionResult × Store
  unfolding send_orders eradication
  eradicate_host s alert =
      let (chain, s') = send_orders s alert (eradication alert) in
      (
        record { status = completed; output = codes "Eradication chain executed"; chain = chain },
        s',
      )

module _ (lists : RedisLists Command) (services : Services) where
  open lists use {Store}

  unfoldable pub update_host : Store → Alert → PlaybookAction → ActionResult × Store
  unfolding build_update_command agent_type_of artifact_name_for send_order
  update_host s alert action =
      let agent_type = agent_type_of action.target in
      let name = artifact_name_for agent_type action.params.version in
      elim (services.published name) [
        | none ↦ (result failed (codes "Artifact " ++ (name ++ codes " not published")), s)
        | some digest ↦ send_order lists s alert (
            update_agent (
              build_update_command agent_type action.params.version services.public_base_url digest
                (services.sign_artifact digest)))
      ]

  unfoldable pub execute_kind : Store → Alert → PlaybookAction → Kind → Option ActionResult × Store
  unfolding webhook_result run_script eradicate_host update_host send_order int_or
  execute_kind s alert action webhook =
      (some (webhook_result (services.post action.target alert action.params)), s)
  execute_kind s alert action script = (some (run_script services action), s)
  execute_kind s alert action eradicate = let (r, s') = eradicate_host lists s alert in (some r, s')
  execute_kind s alert action update = let (r, s') = update_host s alert action in (some r, s')
  execute_kind s alert action (send order) =
      let (r, s') = send_order lists s alert (order alert action.target) in (some r, s')
  execute_kind s alert action (needs_pid order) = elim (nat_eq alert.pid 0) [
    | true ↦ (some (result failed (codes "No PID available")), s)
    | false ↦ let (r, s') = send_order lists s alert (order alert action.target) in (some r, s')
  ]
  execute_kind s alert action timed = elim (int_or 3600 action.params.duration_seconds) [
    | none ↦ (none, s)
    | some n ↦
        let (r, s') = send_order lists s alert (block_ip_temporal action.target n) in (some r, s')
  ]
  execute_kind s alert action unknown =
      (some (result failed (codes "Unknown action type: " ++ action.action_type)), s)

  -- `_execute_action`
  unfoldable pub execute_action : Store → PlaybookAction → Alert → Option ActionResult × Store
  unfolding execute_kind kind_of
  execute_action s action alert = execute_kind s alert action (kind_of action.action_type)
