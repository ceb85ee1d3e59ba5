-- ===== src/Behaviour/Cooldown/Once.antt =====
-- A pair of parent and child raises one alert on an agent within a cooldown.
use aegis_ecosystem.Prelude.{
  ℕ, ◌+◌, ◌*◌, ◌≤◌, ◌≡◌, refl, ◌&&◌, List, [], ◌∷◌, arith, ◌==◌, eq_text, Bool-cases, inl, inr,
}
use aegis_ecosystem.Redis.Laws.{Redis}
use aegis_ecosystem.Redis.Held.{Held, Held-later}
use aegis_ecosystem.Behaviour.{Event, Settings, World}
use aegis_ecosystem.Behaviour.Lineage.{cool_key}
use aegis_ecosystem.Behaviour.Cooldown.{Ordered, step, raises, raised}
use aegis_ecosystem.Behaviour.Cooldown.Kept.{step-Kept}
use aegis_ecosystem.Behaviour.Cooldown.Starts.{step-Starts}

module _ (redis : Redis) (settings : Settings) (cooldown_s parent_ttl_s : ℕ) where
  open redis use {Store, get, set_ex}

  abbrev W : Type 0
  W = World redis

  module _ (target : Event) where
    raised-Held :
        (t d : ℕ) (events : List (ℕ × Event)) (w : W)
        → Ordered t d events
        → Held redis (cool_key target) t d w.store
        → raised redis settings cooldown_s parent_ttl_s (cool_key target) events w ≡ 0
    raised-Held t d [] w o h = refl
    raised-Held t d ((u, event) ∷ rest) w (later, before, o) h =
        let (h1, same) =
          step-Kept redis settings cooldown_s parent_ttl_s target d u event w before
            (Held-later redis (cool_key target) t u d w.store later h) in
        let others =
          raised-Held u d rest (step redis settings cooldown_s parent_ttl_s u event w) o h1 in
        elim (Bool-cases (cool_key event == cool_key target)) [
          | inr other ↦ ground arith
          | inl own ↦ let quiet = same own in ground arith
        ]

    raised-le_one :
        (t u : ℕ) (events : List (ℕ × Event)) (w : W)
        → t ≤ u
        → Ordered u (t + 1000 * cooldown_s) events
        → raised redis settings cooldown_s parent_ttl_s (cool_key target) events w ≤ 1
    raised-le_one t u [] w later o = omega arith
    raised-le_one t u ((v, event) ∷ rest) w later (after, before, o) =
        let others =
          raised-le_one t v rest (step redis settings cooldown_s parent_ttl_s v event w)
            (omega arith) o in
        elim (Bool-cases (
          cool_key event == cool_key target
          && raises redis settings cooldown_s parent_ttl_s v event w)) [
            | inr neither ↦ rw neither (omega (arith, others))
            | inl both ↦
                let held =
                  step-Starts redis settings cooldown_s parent_ttl_s target v event w (ground arith)
                    (ground arith) in
                let none_left =
                  raised-Held v (t + 1000 * cooldown_s) rest
                    (step redis settings cooldown_s parent_ttl_s v event w) o
                    (λ t' le lt. held t' le (omega arith)) in
                rw both (omega (arith, none_left))
          ]

    -- Of events in order of time within one cooldown, those with one agent, parent and child raise one
    -- critical alert at most, whatever the server answers and whatever other events stand between.
    pub raised-Ordered :
        (t : ℕ) (events : List (ℕ × Event)) (w : W)
        → Ordered t (t + 1000 * cooldown_s) events
        → raised redis settings cooldown_s parent_ttl_s (cool_key target) events w ≤ 1
    raised-Ordered t events w o = raised-le_one t t events w (omega arith) o
