-- ===== src/Playbook/Safe.antt =====
-- A pass over the playbooks that must have no effect: the dry run, and the pass without Redis.
use aegis_ecosystem.Prelude.{
  ℕ, ◌≡◌, refl, ◌∙◌, true, false, none, List, [], ◌∷◌, Text, filter, Bool-cases, inl, inr,
}
use aegis_ecosystem.Redis.Laws.{Redis}
use aegis_ecosystem.Redis.Lists.{RedisLists}
use aegis_ecosystem.Playbook.{Alert, Playbook, Command, matches_trigger}
use aegis_ecosystem.Playbook.Actions.{Services}
use aegis_ecosystem.Playbook.Runs.{
  World, idem_key, run_playbook, consider, consider_all, check_and_execute,
}

module _ (redis : Redis) (lists : RedisLists Command) (services : Services) where
  abbrev W : Type 0
  W = World redis lists services

  -- The server and the remediations are the same; the executions may differ.
  abbrev pub Untouched : W → W → Type 0
  Untouched w w' = (w'.keys ≡ w.keys) × (w'.queues ≡ w.queues) × (w'.remediations ≡ w.remediations)

  consider-Untouched :
      (ttl t : ℕ) (w : W) (playbook : Playbook) (alert : Alert)
      → Untouched w (consider redis lists services true ttl t w playbook alert)
  unfolding consider
  consider-Untouched ttl t w playbook alert = elim (Bool-cases (matches_trigger playbook alert)) [
    | inl e ↦ rw (e, consider) (refl, refl, refl)
    | inr e ↦ rw (e, consider) (refl, refl, refl)
  ]

  consider_all-Untouched :
      (ttl t : ℕ) (playbooks : List Playbook) (w : W) (alert : Alert)
      → Untouched w (consider_all redis lists services true ttl t w playbooks alert)
  unfolding consider_all
  consider_all-Untouched ttl t [] w alert = (refl, refl, refl)
  consider_all-Untouched ttl t (p ∷ ps) w alert =
      let (k, q, r) = consider-Untouched ttl t w p alert in
      let (k', q', r') =
        consider_all-Untouched ttl t ps (consider redis lists services true ttl t w p alert)
          alert in
      (k' ∙ k, q' ∙ q, r' ∙ r)

  -- A dry run writes no key of the server, queues no command and records no remediation, whatever
  -- the playbooks are and whatever the server answers.
  pub check_and_execute-dry :
      (ttl t : ℕ) (playbooks : List Playbook) (w : W) (alert : Alert)
      → Untouched w (check_and_execute redis lists services true ttl t w playbooks alert)
  unfolding check_and_execute
  check_and_execute-dry ttl t playbooks w alert =
      consider_all-Untouched ttl t (filter (λ p. p.is_active) playbooks) w alert

  module _ (ttl t : ℕ) (w : W) (offline : (k : Text) → redis.set_nx w.keys t k ttl ≡ none) where
    consider-offline :
        (playbook : Playbook) (alert : Alert)
        → consider redis lists services false ttl t w playbook alert ≡ w
    unfolding consider run_playbook
    consider-offline playbook alert = elim (Bool-cases (matches_trigger playbook alert)) [
      | inl e ↦ rw (e, consider, offline (idem_key playbook.id alert.id), run_playbook) refl
      | inr e ↦ rw (e, consider) refl
    ]

    consider_all-offline :
        (playbooks : List Playbook) (alert : Alert)
        → consider_all redis lists services false ttl t w playbooks alert ≡ w
    unfolding consider_all
    consider_all-offline [] alert = refl
    consider_all-offline (p ∷ ps) alert =
        rw (consider-offline p alert) (consider_all-offline ps alert)

    -- Where no claim can be made because the command raises, a live pass runs nothing and changes
    -- nothing: no key, no command, no row.
    pub check_and_execute-offline :
        (playbooks : List Playbook) (alert : Alert)
        → check_and_execute redis lists services false ttl t w playbooks alert ≡ w
    unfolding check_and_execute
    check_and_execute-offline playbooks alert =
        consider_all-offline (filter (λ p. p.is_active) playbooks) alert
