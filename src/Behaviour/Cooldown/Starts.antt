-- ===== src/Behaviour/Cooldown/Starts.antt =====
-- An event that raises a critical alert starts the cooldown of its pair.
use aegis_ecosystem.Prelude.{
  ℕ, ◌+◌, ◌*◌, ◌≡◌, refl, sym, true, not, ◌||◌, none, some, arith, codes, ltb, is_nil, ◌==◌, ==_iff,
  eq_text, Bool-cases, Option-cases, inl, inr,
}
use aegis_ecosystem.Redis.Laws.{Redis}
use aegis_ecosystem.Redis.Held.{Held, Held-set_ex, Held-set_ex_self}
use aegis_ecosystem.Behaviour.{Event, Settings, World, generate_alert}
use aegis_ecosystem.Behaviour.Pairs.{stem, is_watched}
use aegis_ecosystem.Behaviour.Lineage.{
  parent_key, cool_key, flagged_alert, suspicious_alert, raise_suspicious, watched_pair,
  flagged_parent, process_lineage_alert,
}
use aegis_ecosystem.Behaviour.Cooldown.{criticals, cool-ne-parent, flagged-criticals}

module _ (redis : Redis) (settings : Settings) (cooldown_s parent_ttl_s : ℕ) where
  open redis use {Store, get, set_ex}

  abbrev W : Type 0
  W = World redis

  module _ (target : Event) where
    -- An event with the key that adds a critical alert leaves the key held for a cooldown.
    abbrev pub Starts : ℕ → Event → W → W → Type 0
    Starts t event w w' =
        (cool_key event == cool_key target) ≡ true
        → ltb (criticals w.alerts) (criticals w'.alerts) ≡ true
        → Held redis (cool_key target) t (t + 1000 * cooldown_s) w'.store

    raise_suspicious-Starts :
        (t : ℕ) (event : Event) (w : W)
        → Starts t event w (raise_suspicious redis settings cooldown_s parent_ttl_s t event w).1
    unfolding raise_suspicious suspicious_alert generate_alert
    raise_suspicious-Starts t event w =
        elim (Option-cases (set_ex w.store t (cool_key event) cooldown_s)) [
          | inl e ↦ rw (e, raise_suspicious) (λ own more. absurd (ground arith))
          | inr (s, e) ↦
              let held : (cool_key event == cool_key target) ≡ true
                  → Held redis (cool_key target) t (t + 1000 * cooldown_s) s =
                λ own.
                  let here : set_ex w.store t (cool_key target) cooldown_s ≡ some s =
                    rw ((==_iff (cool_key event) (cool_key target)).0 own) at e in
                  Held-set_ex_self redis (cool_key target) t cooldown_s w.store s here in
              elim (Option-cases (set_ex s t (parent_key event) parent_ttl_s)) [
                | inl f ↦ rw (e, f, raise_suspicious) (λ own more. held own)
                | inr (s2, f) ↦
                    rw (e, f, raise_suspicious)
                      (λ own more.
                        Held-set_ex redis (cool_key target) (parent_key event) t
                          (t + 1000 * cooldown_s) parent_ttl_s s s2 f (cool-ne-parent event target)
                          (held own))
              ]
        ]

    watched_pair-Starts :
        (t : ℕ) (event : Event) (w : W)
        → Starts t event w (watched_pair redis settings cooldown_s parent_ttl_s t event w).1
    unfolding watched_pair
    watched_pair-Starts t event w =
        elim (Bool-cases (is_watched (stem event.parent_process_name) (stem event.process_name))) [
          | inr e ↦ rw (e, watched_pair) (λ own more. absurd (ground arith))
          | inl e ↦
              elim (get w.store t (cool_key event))
                  as (λ g.
                    get w.store t (cool_key event) ≡ g
                    → Starts t event w
                        (watched_pair redis settings cooldown_s parent_ttl_s t event w).1) [
                          | none ↦ λ f. rw (e, f, watched_pair) (λ own more. absurd (ground arith))
                          | some (some n) ↦
                              λ f. rw (e, f, watched_pair) (λ own more. absurd (ground arith))
                          | some none ↦
                              λ f. rw (e, f, watched_pair) (raise_suspicious-Starts t event w)
                        ]
                refl
        ]

    flagged_parent-Starts :
        (t : ℕ) (event : Event) (w : W)
        → Starts t event w (flagged_parent redis settings cooldown_s parent_ttl_s t event w).1
    unfolding flagged_parent
    flagged_parent-Starts t event w =
        elim (get w.store t (parent_key event))
            as (λ g.
              get w.store t (parent_key event) ≡ g
              → Starts t event w
                  (flagged_parent redis settings cooldown_s parent_ttl_s t event w).1) [
                    | none ↦ λ f. rw (f, flagged_parent) (λ own more. absurd (ground arith))
                    | some none ↦ λ f. rw (f, flagged_parent) (watched_pair-Starts t event w)
                    | some (some n) ↦ λ f.
                        let w1 = flagged_alert redis settings cooldown_s parent_ttl_s event w in
                        rw (f, flagged_parent)
                          (λ own more. watched_pair-Starts t event w1 own (
                            rw
                              (sym
                                (flagged-criticals redis settings cooldown_s parent_ttl_s event w))
                              at more))
                  ]
          refl

    pub step-Starts :
        (t : ℕ) (event : Event) (w : W)
        → Starts t event w
            (process_lineage_alert redis settings cooldown_s parent_ttl_s t event w).1
    unfolding process_lineage_alert
    step-Starts t event w =
        elim (Bool-cases
          (not (event.event_type == codes "PROCESS_CREATED") || is_nil event.parent_process_name)) [
            | inl e ↦ rw (e, process_lineage_alert) (λ own more. absurd (ground arith))
            | inr e ↦ rw (e, process_lineage_alert) (flagged_parent-Starts t event w)
          ]
