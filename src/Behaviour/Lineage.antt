-- ===== src/Behaviour/Lineage.antt =====
-- Parents and their children, `_process_lineage_alert` of aegis-brain/app/rules/correlation_engine.py.
-- A stored flag is "1", which is true.
use aegis_ecosystem.Prelude.{
  ℕ, Bool, true, false, none, some, ◌++◌, Text, codes, decimal, is_nil, nat_eq, if◌then◌else◌, ◌==◌,
  not, ◌||◌, eq_text,
}
use aegis_ecosystem.Redis.Laws.{Redis}
use aegis_ecosystem.Behaviour.{Event, Settings, World, generate_alert}
use aegis_ecosystem.Behaviour.BruteForce.{or_unknown}
use aegis_ecosystem.Behaviour.Pairs.{stem, is_watched}

-- f"{event.pid}" of an id that may be absent
unfoldable pub shown_pid : ℕ → Text
shown_pid pid = if nat_eq pid 0 then codes "None" else decimal pid

-- f"corr:mal-parent:{event.agent_id}:{event.parent_pid or 'unknown'}"
unfoldable pub parent_key : Event → Text
parent_key event =
    codes "corr:mal-parent:"
    ++ (event.agent_id
        ++ (codes ":"
            ++ (if nat_eq event.parent_pid 0 then codes "unknown" else decimal event.parent_pid)))

-- f"corr:lineage-sent:{event.agent_id}:{parent}:{child}"
unfoldable pub cool_key : Event → Text
cool_key event =
    codes "corr:lineage-sent:"
    ++ (event.agent_id
        ++ (codes ":"
            ++ (stem event.parent_process_name ++ (codes ":" ++ stem event.process_name))))

module _ (redis : Redis) (settings : Settings) (cooldown_s parent_ttl_s : ℕ) where
  open redis use {get, set_ex}

  unfoldable pub flagged_alert : Event → World redis → World redis
  unfolding shown_pid or_unknown
  flagged_alert event = generate_alert redis settings (record {
    agent_id = event.agent_id;
    severity = codes "HIGH";
    process_name = or_unknown event.process_name;
    event_type = codes "correlation_lineage";
    description =
        codes "Child process '"
        ++ (event.process_name
            ++ (codes "' (PID "
                ++ (shown_pid event.pid
                    ++ (codes ") spawned by previously flagged parent '"
                        ++ (event.parent_process_name
                            ++ (codes "' (PID "
                                ++ (shown_pid event.parent_pid
                                    ++ codes "). Possible ongoing compromise.")))))));
  })

  unfoldable pub suspicious_alert : Event → World redis → World redis
  unfolding or_unknown
  suspicious_alert event = generate_alert redis settings (record {
    agent_id = event.agent_id;
    severity = codes "CRITICAL";
    process_name = or_unknown event.process_name;
    event_type = codes "correlation_lineage";
    description =
        codes "Suspicious child process '"
        ++ (event.process_name
            ++ (codes "' spawned by '"
                ++ (event.parent_process_name ++ codes "' — possible macro/document exploit.")));
  })

  -- from `await self.redis.setex(cool, ...)` on
  unfoldable pub raise_suspicious : ℕ → Event → World redis → Bool × World redis
  unfolding suspicious_alert cool_key parent_key
  raise_suspicious t event w = elim (set_ex w.store t (cool_key event) cooldown_s) [
    | none ↦ (false, w)
    | some s ↦
        let w1 = suspicious_alert event (record w { store = s }) in
        elim (set_ex s t (parent_key event) parent_ttl_s) [
          | none ↦ (false, w1)
          | some s2 ↦ (true, record w1 { store = s2 })
        ]
  ]

  -- from `if (parent, child) in watched` on
  unfoldable pub watched_pair : ℕ → Event → World redis → Bool × World redis
  unfolding raise_suspicious
  watched_pair t event w =
      if is_watched (stem event.parent_process_name) (stem event.process_name)
      then (elim (get w.store t (cool_key event)) [
        | none ↦ (false, w)
        | some (some n) ↦ (true, w)
        | some none ↦ raise_suspicious t event w
      ])
      else (true, w)

  -- from `was_suspicious = ...` on
  unfoldable pub flagged_parent : ℕ → Event → World redis → Bool × World redis
  unfolding watched_pair flagged_alert parent_key
  flagged_parent t event w = elim (get w.store t (parent_key event)) [
    | none ↦ (false, w)
    | some none ↦ watched_pair t event w
    | some (some n) ↦ watched_pair t event (flagged_alert event w)
  ]

  -- `_process_lineage_alert`
  unfoldable pub process_lineage_alert : ℕ → Event → World redis → Bool × World redis
  unfolding flagged_parent
  process_lineage_alert t event w =
      if not (event.event_type == codes "PROCESS_CREATED") || is_nil event.parent_process_name
      then (true, w)
      else flagged_parent t event w
