-- ===== src/Behaviour/BruteForce.antt =====
-- Failed logins, `_brute_force_detection` of aegis-brain/app/rules/correlation_engine.py.
use aegis_ecosystem.Prelude.{
  ℕ, Bool, true, false, ◌&&◌, ◌||◌, none, some, [], ◌∷◌, ◌++◌, Text, codes, lower, strip, contains,
  decimal, leb, nat_eq, if◌then◌else◌, ◌==◌, eq_text,
}
use aegis_ecosystem.Redis.Laws.{Redis}
use aegis_ecosystem.Behaviour.{Event, Settings, World, generate_alert}

-- `x or "unknown"`
unfoldable pub or_unknown : Text → Text
or_unknown [] = codes "unknown"
or_unknown (c ∷ s) = c ∷ s

unfoldable pub is_login : Event → Bool
is_login event =
    event.event_type == codes "SYSLOG_NETWORK"
    || (let name = lower event.process_name in
        name == codes "sshd" || (name == codes "sshd.exe" || name == codes "winlogon.exe"))

unfoldable pub is_failure : Event → Bool
is_failure event =
    let msg = lower event.command_line in
    contains (codes "failed password") msg || contains (codes "authentication failure") msg

-- f"corr:bf:{event.agent_id}:{user}"
unfoldable pub failures_key : Event → Text
unfolding or_unknown
failures_key event =
    codes "corr:bf:"
    ++ (event.agent_id ++ (codes ":" ++ or_unknown (strip (lower (or_unknown event.user)))))

module _ (redis : Redis) (settings : Settings) where
  open redis use {incr, expire, delete}

  unfoldable pub bruteforce_alert : Event → ℕ → World redis → World redis
  bruteforce_alert event count = generate_alert redis settings (record {
    agent_id = event.agent_id;
    severity = codes "CRITICAL";
    process_name = codes "syslog_auth";
    event_type = codes "correlation_bruteforce";
    description =
        codes "Multiple failed login attempts ("
        ++ (decimal count
            ++ (codes ") detected within "
                ++ (decimal settings.bruteforce_window_s
                    ++ (codes " seconds on " ++ (event.hostname ++ codes ".")))));
  })

  -- from `if count >= threshold` on
  unfoldable pub at_threshold : ℕ → Event → ℕ → World redis → Bool × World redis
  unfolding bruteforce_alert
  at_threshold t event count w =
      if leb settings.bruteforce_threshold count
      then (elim (delete w.store t (failures_key event)) [
        | none ↦ (false, bruteforce_alert event count w)
        | some s ↦ (true, record (bruteforce_alert event count w) { store = s })
      ])
      else (true, w)

  -- from `if count == 1` on
  unfoldable pub after_incr : ℕ → Event → ℕ → World redis → Bool × World redis
  unfolding at_threshold
  after_incr t event count w =
      if nat_eq count 1
      then (elim (expire w.store t (failures_key event) settings.bruteforce_window_s) [
        | none ↦ (false, w)
        | some s ↦ at_threshold t event count (record w { store = s })
      ])
      else at_threshold t event count w

  unfoldable pub count_failure : ℕ → Event → World redis → Bool × World redis
  unfolding after_incr
  count_failure t event w = elim (incr w.store t (failures_key event)) [
    | none ↦ (false, w)
    | some (count, s) ↦ after_incr t event count (record w { store = s })
  ]

  -- `_brute_force_detection`
  unfoldable pub brute_force_detection : ℕ → Event → World redis → Bool × World redis
  unfolding count_failure is_login is_failure
  brute_force_detection t event w =
      if is_login event && is_failure event then count_failure t event w else (true, w)
