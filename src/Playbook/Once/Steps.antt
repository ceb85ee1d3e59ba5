-- ===== src/Playbook/Once/Steps.antt =====
-- What the steps of a pass add to the actions on an alert and keep of a claimed key
-- (aegis-brain/app/services/playbook_engine.py, check_and_execute_playbooks).
use aegis_ecosystem.Prelude.{
  ℕ, ◌+◌, ◌≤◌, ◌≡◌, refl, ap, ◌∙◌, Bool, true, false, not, ◌&&◌, none, some, List, [], ◌∷◌, ◌++◌,
  arith, Text, if◌then◌else◌, ◌==◌, ==_iff, eq_text, text_eq, Option-cases, inl, inr,
}
use aegis_ecosystem.Redis.Laws.{Redis}
use aegis_ecosystem.Redis.Lists.{RedisLists}
use aegis_ecosystem.Redis.Held.{Held, Held-set_ex}
use aegis_ecosystem.Playbook.{Alert, Playbook, Command}
use aegis_ecosystem.Playbook.Actions.{Services}
use aegis_ecosystem.Playbook.Runs.{
  Outcome, dry_run, completed, failed, PlaybookExecution, World, idem_key, cooldown_key, planned,
  run_actions, execute, start_cooldown, unless_cooling,
}

abbrev pub is_dry : Outcome → Bool
is_dry (dry_run plan) = true
is_dry (completed rs) = false
is_dry failed = false

-- How often a playbook acted on an alert.
abbrev pub acted : Text → Text → List PlaybookExecution → ℕ
acted playbook_id alert_id [] = 0
acted playbook_id alert_id (e ∷ es) =
    (if (e.playbook_id == playbook_id && e.alert_id == alert_id) && not (is_dry e.outcome)
      then 1
      else 0)
    + acted playbook_id alert_id es

pub acted-append :
    (p a : Text) (es : List PlaybookExecution) (e : PlaybookExecution)
    → acted p a (es ++ e ∷ []) ≡ acted p a es + acted p a (e ∷ [])
acted-append p a [] e = omega arith
acted-append p a (x ∷ es) e = omega (arith, acted-append p a es e)

-- One pass, the time at which it runs included.
pub record Pass : Type 0 where
  pub at : ℕ
  pub dry : Bool
  pub alert : Alert
  pub playbooks : List Playbook

pub idem-ne-cooldown : (a b c d : Text) → (cooldown_key a b == idem_key c d) ≡ false
unfolding idem_key cooldown_key text_eq
idem-ne-cooldown a b c d = refl

module _ (redis : Redis) (lists : RedisLists Command) (services : Services) (pid aid : Text) where
  open redis use {get, set_nx, set_ex}

  abbrev pub W : Type 0
  W = World redis lists services

  abbrev pub count : W → ℕ
  count w = acted pid aid w.executions

  abbrev pub about : Playbook → Alert → Bool
  about playbook alert = playbook.id == pid && alert.id == aid

  pub own_key :
      (playbook : Playbook) (alert : Alert)
      → about playbook alert ≡ true
      → idem_key playbook.id alert.id ≡ idem_key pid aid
  own_key playbook alert own =
      let p : playbook.id ≡ pid = ground (arith, ==_iff playbook.id pid) in
      let a : alert.id ≡ aid = ground (arith, ==_iff alert.id aid) in
      ap (λ x. idem_key x alert.id) p ∙ ap (idem_key pid) a

  pub planned-count :
      (w : W) (playbook : Playbook) (alert : Alert)
      → acted pid aid (w.executions ++ planned playbook alert ∷ []) ≡ count w
  unfolding planned
  planned-count w playbook alert =
      ground (arith, acted-append pid aid w.executions (planned playbook alert))

  -- One execution adds one at most, and only if it is about the pair.
  pub execute-count :
      (w : W) (playbook : Playbook) (alert : Alert)
      → count (execute redis lists services w playbook alert)
        ≤ count w + (if about playbook alert then 1 else 0)
  unfolding execute
  execute-count w playbook alert = ground (
    arith,
    acted-append pid aid w.executions (record {
      playbook_id = playbook.id;
      alert_id = alert.id;
      outcome = (run_actions redis lists services w.queues alert playbook.actions).0;
    }),
  )

  pub start_cooldown-count :
      (t : ℕ) (w : W) (playbook : Playbook) (alert : Alert)
      → count (start_cooldown redis lists services t w playbook alert)
        ≤ count w + (if about playbook alert then 1 else 0)
  unfolding start_cooldown
  start_cooldown-count t w playbook alert =
      elim (Option-cases (set_ex w.keys t (cooldown_key playbook.id alert.agent_id) 60)) [
        | inl e ↦ rw (e, start_cooldown) (execute-count w playbook alert)
        | inr (keys, e) ↦
            rw (e, start_cooldown) (execute-count (record w { keys = keys }) playbook alert)
      ]

  pub unless_cooling-count :
      (t : ℕ) (w : W) (playbook : Playbook) (alert : Alert)
      → count (unless_cooling redis lists services t w playbook alert)
        ≤ count w + (if about playbook alert then 1 else 0)
  unfolding unless_cooling
  unless_cooling-count t w playbook alert =
      elim (get w.keys t (cooldown_key playbook.id alert.agent_id))
          as (λ g.
            get w.keys t (cooldown_key playbook.id alert.agent_id) ≡ g
            → count (unless_cooling redis lists services t w playbook alert)
              ≤ count w + (if about playbook alert then 1 else 0)) [
                | none ↦ λ e. rw (e, unless_cooling) (execute-count w playbook alert)
                | some (some n) ↦ λ e. rw (e, unless_cooling) (omega arith)
                | some none ↦ λ e. rw (e, unless_cooling) (start_cooldown-count t w playbook alert)
              ]
        refl

  abbrev pub claim : Text
  claim = idem_key pid aid

  pub start_cooldown-Held :
      (t d : ℕ) (w : W) (playbook : Playbook) (alert : Alert)
      → Held redis claim t d w.keys
      → Held redis claim t d (start_cooldown redis lists services t w playbook alert).keys
  unfolding start_cooldown execute
  start_cooldown-Held t d w playbook alert h =
      elim (Option-cases (set_ex w.keys t (cooldown_key playbook.id alert.agent_id) 60)) [
        | inl e ↦ rw (e, start_cooldown) h
        | inr (keys, e) ↦
            rw (e, start_cooldown)
              (Held-set_ex redis claim (cooldown_key playbook.id alert.agent_id) t d 60 w.keys keys
                e (idem-ne-cooldown playbook.id alert.agent_id pid aid) h)
      ]

  pub unless_cooling-Held :
      (t d : ℕ) (w : W) (playbook : Playbook) (alert : Alert)
      → Held redis claim t d w.keys
      → Held redis claim t d (unless_cooling redis lists services t w playbook alert).keys
  unfolding unless_cooling execute
  unless_cooling-Held t d w playbook alert h =
      elim (get w.keys t (cooldown_key playbook.id alert.agent_id))
          as (λ g.
            get w.keys t (cooldown_key playbook.id alert.agent_id) ≡ g
            → Held redis claim t d (unless_cooling redis lists services t w playbook alert).keys) [
              | none ↦ λ e. rw (e, unless_cooling) h
              | some (some n) ↦ λ e. rw (e, unless_cooling) h
              | some none ↦ λ e. rw (e, unless_cooling) (start_cooldown-Held t d w playbook alert h)
            ]
        refl
