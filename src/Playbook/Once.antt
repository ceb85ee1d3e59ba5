-- ===== src/Playbook/Once.antt =====
-- A playbook acts once on an alert, a dry run acts on nothing, and nothing acts without Redis.
pub mod Steps
use aegis_ecosystem.Prelude.{
  ℕ, ◌+◌, ◌*◌, ◌≤◌, ◌<◌, ◌≡◌, Bool, true, some, List, [], ◌∷◌, arith, Text, filter, eq_text,
  Bool-cases, Option-cases, inl, inr, ◌⊎◌,
}
use aegis_ecosystem.Redis.Laws.{Redis, SetReply}
use aegis_ecosystem.Redis.Lists.{RedisLists}
use aegis_ecosystem.Redis.Held.{is_claimed, Held, Held-later, Held-set_nx, Held-claimed, claim-Held}
use aegis_ecosystem.Playbook.{Alert, Playbook, Command, matches_trigger}
use aegis_ecosystem.Playbook.Actions.{Services}
use aegis_ecosystem.Playbook.Runs.{
  World, idem_key, unless_cooling, run_playbook, consider, consider_all, check_and_execute,
}
use aegis_ecosystem.Playbook.Once.Steps.{
  acted, Pass, count, about, own_key, planned-count, unless_cooling-count, claim,
  unless_cooling-Held,
}

module _ (redis : Redis) (lists : RedisLists Command) (services : Services) where
  open redis use {get, set_nx, set_ex}

  abbrev W : Type 0
  W = World redis lists services

  -- Passes over the playbooks, in the order in which they run.
  abbrev pub passes : ℕ → List Pass → W → W
  passes ttl [] w = w
  passes ttl (p ∷ ps) w =
      passes ttl ps (check_and_execute redis lists services p.dry ttl p.at w p.playbooks p.alert)

  module _ (pid aid : Text) where
    -- The pair has not acted beyond n, or it acted once more and its claim is held.
    abbrev Spent : ℕ → ℕ → ℕ → W → Type 0
    Spent n t d w =
        (count redis lists services pid aid w ≤ n)
        ⊎ ((count redis lists services pid aid w ≤ n + 1)
            × Held redis (claim redis lists services pid aid) t d w.keys)

    Spent-later : (n t u d : ℕ) (w : W) → t ≤ u → Spent n t d w → Spent n u d w
    Spent-later n t u d w le (inl c) = inl c
    Spent-later n t u d w le (inr (c, h)) =
        inr (c, Held-later redis (claim redis lists services pid aid) t u d w.keys le h)

    module _ (n t d ttl : ℕ) (before : t < d) (near : d ≤ t + 1000 * ttl) where
      -- the claim has just succeeded
      claimed-Spent :
          (w : W) (playbook : Playbook) (alert : Alert) (r : SetReply) (keys : redis.Store)
          → set_nx w.keys t (idem_key playbook.id alert.id) ttl ≡ some (r, keys)
          → is_claimed r ≡ true
          → Spent n t d w
          → Spent n t d
              (unless_cooling redis lists services t (record w { keys = keys }) playbook alert)
      claimed-Spent w playbook alert r keys e c spent =
          let w1 : W = record w { keys = keys } in
          let bound = unless_cooling-count redis lists services pid aid t w1 playbook alert in
          elim (Bool-cases (about redis lists services pid aid playbook alert)) [
            | inr other ↦
                let same : count redis lists services pid aid
                      (unless_cooling redis lists services t w1 playbook alert)
                    ≤ count redis lists services pid aid w + 0 =
                  rw other at bound in
                elim spent [
                  | inl few ↦ inl (omega arith)
                  | inr (few, held) ↦ inr (
                    omega arith,
                    unless_cooling-Held redis lists services pid aid t d w1 playbook alert (
                        Held-set_nx redis (claim redis lists services pid aid)
                          (idem_key playbook.id alert.id) t d ttl r w.keys keys e before held),
                  )
                ]
            | inl own ↦
                let one_more : count redis lists services pid aid
                      (unless_cooling redis lists services t w1 playbook alert)
                    ≤ count redis lists services pid aid w + 1 =
                  rw own at bound in
                let key : idem_key playbook.id alert.id ≡ (claim redis lists services pid aid) =
                  own_key redis lists services pid aid playbook alert own in
                let fresh : Held redis (claim redis lists services pid aid) t d keys = (λ t' le lt.
                  (rw key at
                      (Held-claimed redis (idem_key playbook.id alert.id) t ttl r w.keys keys e c))
                    t' le (omega arith)) in
                elim spent [
                  | inl few ↦ inr (
                    omega arith,
                    unless_cooling-Held redis lists services pid aid t d w1 playbook alert fresh,
                  )
                  | inr (few, held) ↦
                      let refused =
                        claim-Held redis (claim redis lists services pid aid) t d ttl r w.keys keys
                          (rw key at e) before held in
                      absurd (ground arith)
                ]
          ]

      run_playbook-Spent :
          (w : W) (playbook : Playbook) (alert : Alert)
          → Spent n t d w
          → Spent n t d (run_playbook redis lists services ttl t w playbook alert)
      unfolding run_playbook
      run_playbook-Spent w playbook alert spent =
          elim (Option-cases (set_nx w.keys t (idem_key playbook.id alert.id) ttl)) [
            | inl e ↦ rw (e, run_playbook) spent
            | inr ((r, keys), e) ↦ elim (Bool-cases (is_claimed r)) [
              | inl c ↦ rw (e, c, run_playbook) (claimed-Spent w playbook alert r keys e c spent)
              | inr c ↦
                  rw (e, c, run_playbook)
                    (elim spent [
                      | inl few ↦ inl few
                      | inr (few, held) ↦ inr (
                        few,
                        Held-set_nx redis (claim redis lists services pid aid)
                            (idem_key playbook.id alert.id) t d ttl r w.keys keys e before held,
                      )
                    ])
            ]
          ]

      consider-Spent :
          (dry : Bool) (w : W) (playbook : Playbook) (alert : Alert)
          → Spent n t d w
          → Spent n t d (consider redis lists services dry ttl t w playbook alert)
      unfolding consider
      consider-Spent dry w playbook alert spent =
          elim (Bool-cases (matches_trigger playbook alert)) [
            | inr skipped ↦ rw (skipped, consider) spent
            | inl it_does ↦ elim (Bool-cases dry) [
              | inr live ↦ rw (it_does, live, consider) (run_playbook-Spent w playbook alert spent)
              | inl plan ↦
                  rw (it_does, plan, consider)
                    (elim spent [
                      | inl few ↦
                          inl (rw (planned-count redis lists services pid aid w playbook alert) few)
                      | inr (few, held) ↦ inr (
                        rw (planned-count redis lists services pid aid w playbook alert) few,
                        held,
                      )
                    ])
            ]
          ]

      consider_all-Spent :
          (dry : Bool) (playbooks : List Playbook) (w : W) (alert : Alert)
          → Spent n t d w
          → Spent n t d (consider_all redis lists services dry ttl t w playbooks alert)
      unfolding consider_all
      consider_all-Spent dry [] w alert spent = spent
      consider_all-Spent dry (p ∷ ps) w alert spent =
          consider_all-Spent dry ps (consider redis lists services dry ttl t w p alert) alert
            (consider-Spent dry w p alert spent)

    -- No pass is before u or before the one in front of it, and none reaches d.
    abbrev Ordered : ℕ → ℕ → List Pass → Type 0
    Ordered u d [] = Unit
    Ordered u d (p ∷ ps) = (u ≤ p.at) × (p.at < d) × Ordered p.at d ps

    passes-Spent :
        (n t d ttl u : ℕ)
        → t ≤ u
        → d ≤ t + 1000 * ttl
        → (ps : List Pass) (w : W) → Ordered u d ps
        → Spent n u d w
        → count redis lists services pid aid (passes ttl ps w) ≤ n + 1
    unfolding check_and_execute
    passes-Spent n t d ttl u le near [] w o (inl few) = omega arith
    passes-Spent n t d ttl u le near [] w o (inr (few, h)) = few
    passes-Spent n t d ttl u le near (p ∷ ps) w (later, before, o) spent =
        passes-Spent n t d ttl p.at (omega arith) near ps _ o (
          consider_all-Spent n p.at d ttl before (omega arith) p.dry
            (filter (λ x. x.is_active) p.playbooks) w p.alert
            (Spent-later n u p.at d w later spent))

    -- Within one time to live of the claim, whatever passes run, dry or live, over whatever
    -- playbooks and alerts, in order of time: one playbook acts at most once more on one alert.
    pub acted-passes :
        (t ttl : ℕ) (ps : List Pass) (w : W)
        → Ordered t (t + 1000 * ttl) ps
        → acted pid aid (passes ttl ps w).executions ≤ acted pid aid w.executions + 1
    acted-passes t ttl ps w o =
        passes-Spent (count redis lists services pid aid w) t (t + 1000 * ttl) ttl t (omega arith)
          (omega arith) ps w o (inl (omega arith))
