-- ===== src/Behaviour/Cooldown/Kept.antt =====
-- While a pair's cooldown is on: it stays on, and events of the pair raise no critical alert.
use aegis_ecosystem.Prelude.{
  ℕ, ◌<◌, ◌≡◌, refl, ◌∙◌, true, false, not, ◌||◌, none, some, arith, Text, codes, is_nil, ◌==◌,
  ==_iff, eq_text, Bool-cases, Option-cases, inl, inr,
}
use aegis_ecosystem.Redis.Laws.{Redis}
use aegis_ecosystem.Redis.Held.{Held, Held-set_ex, get-Held}
use aegis_ecosystem.Behaviour.{Event, Settings, World, generate_alert}
use aegis_ecosystem.Behaviour.Pairs.{stem, is_watched}
use aegis_ecosystem.Behaviour.Lineage.{
  parent_key, cool_key, flagged_alert, suspicious_alert, raise_suspicious, watched_pair,
  flagged_parent, process_lineage_alert,
}
use aegis_ecosystem.Behaviour.Cooldown.{criticals, cool-ne-parent, flagged-criticals}

module _ (redis : Redis) (settings : Settings) (cooldown_s parent_ttl_s : ℕ) where
  open redis use {Store, get, set_ex}

  abbrev W : Type 0
  W = World redis

  module _ (target : Event) (d : ℕ) where
    abbrev pub key : Text
    key = cool_key target

    abbrev pub Holds : ℕ → W → Type 0
    Holds t w = Held redis key t d w.store

    -- While the key is held: it stays so, and an event with the key adds no critical alert.
    abbrev pub Kept : ℕ → Event → W → W → Type 0
    Kept t event w w' =
        Holds t w' × ((cool_key event == key) ≡ true → criticals w'.alerts ≡ criticals w.alerts)

    raise_suspicious-Holds :
        (t : ℕ) (event : Event) (w : W)
        → (cool_key event == key) ≡ false
        → Holds t w
        → Holds t (raise_suspicious redis settings cooldown_s parent_ttl_s t event w).1
    unfolding raise_suspicious suspicious_alert generate_alert
    raise_suspicious-Holds t event w ne h =
        elim (Option-cases (set_ex w.store t (cool_key event) cooldown_s)) [
          | inl e ↦ rw (e, raise_suspicious) h
          | inr (s, e) ↦
              let h1 = Held-set_ex redis key (cool_key event) t d cooldown_s w.store s e ne h in
              elim (Option-cases (set_ex s t (parent_key event) parent_ttl_s)) [
                | inl f ↦ rw (e, f, raise_suspicious) h1
                | inr (s2, f) ↦
                    rw (e, f, raise_suspicious)
                      (Held-set_ex redis key (parent_key event) t d parent_ttl_s s s2 f
                        (cool-ne-parent event target) h1)
              ]
        ]

    flagged-Holds :
        (t : ℕ) (event : Event) (w : W)
        → Holds t w
        → Holds t (flagged_alert redis settings cooldown_s parent_ttl_s event w)
    unfolding flagged_alert generate_alert
    flagged-Holds t event w h = h

    -- the state in front of the pair's test, with the flagged parent's alert or without it
    watched_pair-Kept :
        (t : ℕ) (event : Event) (w : W)
        → t < d
        → Holds t w
        → Kept t event w (watched_pair redis settings cooldown_s parent_ttl_s t event w).1
    unfolding watched_pair
    watched_pair-Kept t event w before h =
        elim (Bool-cases (is_watched (stem event.parent_process_name) (stem event.process_name))) [
          | inr e ↦ rw (e, watched_pair) (h, λ own. refl)
          | inl e ↦
              elim (get w.store t (cool_key event))
                  as (λ g.
                    get w.store t (cool_key event) ≡ g
                    → Kept t event w
                        (watched_pair redis settings cooldown_s parent_ttl_s t event w).1) [
                          | none ↦ λ f. rw (e, f, watched_pair) (h, λ own. refl)
                          | some (some n) ↦ λ f. rw (e, f, watched_pair) (h, λ own. refl)
                          | some none ↦ λ f. elim (Bool-cases (cool_key event == key)) [
                            | inl own ↦
                                let here : get w.store t key ≡ some none =
                                  rw ((==_iff (cool_key event) key).0 own) at f in
                                get-Held redis key t d w.store before h here
                            | inr other ↦
                                rw (e, f, watched_pair)
                                  (
                                    raise_suspicious-Holds t event w other h,
                                    λ own. absurd (ground arith),
                                  )
                          ]
                        ]
                refl
        ]

    flagged_parent-Kept :
        (t : ℕ) (event : Event) (w : W)
        → t < d
        → Holds t w
        → Kept t event w (flagged_parent redis settings cooldown_s parent_ttl_s t event w).1
    unfolding flagged_parent
    flagged_parent-Kept t event w before h =
        elim (get w.store t (parent_key event))
            as (λ g.
              get w.store t (parent_key event) ≡ g
              → Kept t event w
                  (flagged_parent redis settings cooldown_s parent_ttl_s t event w).1) [
                    | none ↦ λ f. rw (f, flagged_parent) (h, λ own. refl)
                    | some none ↦ λ f. rw (f, flagged_parent) (watched_pair-Kept t event w before h)
                    | some (some n) ↦ λ f.
                        let w1 = flagged_alert redis settings cooldown_s parent_ttl_s event w in
                        let (h1, same) =
                          watched_pair-Kept t event w1 before (flagged-Holds t event w h) in
                        rw (f, flagged_parent)
                          (
                            h1,
                            λ own.
                                same own
                                ∙ flagged-criticals redis settings cooldown_s parent_ttl_s event w,
                          )
                  ]
          refl

    pub step-Kept :
        (t : ℕ) (event : Event) (w : W)
        → t < d
        → Holds t w
        → Kept t event w (process_lineage_alert redis settings cooldown_s parent_ttl_s t event w).1
    unfolding process_lineage_alert
    step-Kept t event w before h =
        elim (Bool-cases
          (not (event.event_type == codes "PROCESS_CREATED") || is_nil event.parent_process_name)) [
            | inl e ↦ rw (e, process_lineage_alert) (h, λ own. refl)
            | inr e ↦ rw (e, process_lineage_alert) (flagged_parent-Kept t event w before h)
          ]
