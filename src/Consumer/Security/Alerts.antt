-- ===== src/Consumer/Security/Alerts.antt =====
-- Which alerts the consumer adds for an event, `_process_security_event` of
-- aegis-brain/app/services/redis_consumer.py over the analysis of the heuristic engine.
use aegis_ecosystem.Prelude.{
  ℕ, ◌≡◌, refl, sym, ap, ◌∙◌, Bool, true, false, not, ◌&&◌, ◌||◌, Option, none, some, List, [], ◌∷◌,
  ◌++◌, Text, any, if◌then◌else◌, Bool-cases, inl, inr,
}
use mathlib.Core.List.{append-nil}
use aegis_ecosystem.Json.{Fields}
use aegis_ecosystem.Redis.Lists.{RedisLists}
use aegis_ecosystem.Heuristic.Analysis.{AnalysisResult, allowlisted_and_safe, analyze}
use aegis_ecosystem.Heuristic.Verdict.{fires, matched, active}
use aegis_ecosystem.Heuristic.Effects.{analyze-is_threat}
use aegis_ecosystem.Consumer.Security.{
  RemediationAction, Db, KillCommand, Services, alert_of, remediation_row,
}
use aegis_ecosystem.Consumer.Security.Sessions.{
  queue_kill, remediate, after_flush, raise_alert, process_security_event,
}

module _ (services : Services) where
  -- Whether the rules find an event to be a threat.
  abbrev pub is_threat : Db → Fields → Bool
  is_threat db event =
      not (allowlisted_and_safe event)
      && (any (fires event) services.rules
          || any (matched services.library event) (active db.active_rules))

  -- What the analysis says of an event.
  abbrev pub verdict : Db → Fields → AnalysisResult
  verdict db event =
      (analyze services.library services.updates services.rules event db.active_rules).0

  -- the rows that the flush sees for a threat
  abbrev pub with_alert : Db → Fields → Db
  with_alert db event = record db {
    active_rules =
        (analyze services.library services.updates services.rules event db.active_rules).1;
    alerts = db.alerts ++ alert_of services event (verdict db event) ∷ [];
  }

module _ (services : Services) (lists : RedisLists KillCommand) where
  open lists use {Store}

  -- the remediation of an alert, where the analysis names one
  abbrev pub remediations_of : ℕ → Store → ℕ → Option Text → Fields → List RemediationAction
  remediations_of now s alert_id none event = []
  remediations_of now s alert_id (some []) event = []
  remediations_of now s alert_id (some (c ∷ action)) event =
      remediation_row services now alert_id (c ∷ action) event
        (queue_kill services lists s alert_id (c ∷ action) event).0
      ∷ []

  remediate-rows :
      (now : ℕ) (db : Db) (s : Store) (alert_id : ℕ) (action : Option Text) (event : Fields)
      → ((remediate services lists now db s alert_id action event).0.alerts ≡ db.alerts)
        × ((remediate services lists now db s alert_id action event).0.remediations
            ≡ db.remediations ++ remediations_of now s alert_id action event)
  unfolding remediate
  remediate-rows now db s alert_id none event = (refl, sym (append-nil db.remediations))
  remediate-rows now db s alert_id (some []) event = (refl, sym (append-nil db.remediations))
  remediate-rows now db s alert_id (some (c ∷ action)) event = (refl, refl)

  pub threat-rows :
      (now : ℕ) (db : Db) (s : Store) (event : Fields) (alert_id : ℕ)
      → services.flush now (with_alert services db event) ≡ some alert_id
      → (verdict services db event).is_threat ≡ true
      → process_security_event services lists now db s event ≡ (
        some
            (remediate services lists now
              (with_alert services db event)
              s
              alert_id
              (verdict services db event).auto_remediation
              event).0,
        (remediate services lists now
            (with_alert services db event)
            s
            alert_id
            (verdict services db event).auto_remediation
            event).1,
      )
  unfolding process_security_event raise_alert
  threat-rows now db s event alert_id f threat =
      rw (threat, process_security_event, raise_alert, f) (unfold after_flush in refl)

  quiet-rows :
      (now : ℕ) (db : Db) (s : Store) (event : Fields)
      → (verdict services db event).is_threat ≡ false
      → process_security_event services lists now db s event ≡ (
        some (record db {
          active_rules =
              (analyze services.library services.updates services.rules event db.active_rules).1;
        }),
        s,
      )
  unfolding process_security_event
  quiet-rows now db s event quiet = rw (quiet, process_security_event) refl

  -- Where the flush gives an id, a created process adds one alert exactly when it is not allow-listed
  -- with a safe path and some static rule fires or some active custom rule matches, with what the
  -- analysis says; and with the alert one remediation exactly when the analysis names an action. The
  -- other alerts and remediations stay as they were.
  pub process_security_event-rows :
      (now : ℕ) (db : Db) (s : Store) (event : Fields) (alert_id : ℕ)
      → services.flush now (with_alert services db event) ≡ some alert_id
      → (db' : Db) × ((process_security_event services lists now db s event).0 ≡ some db')
        × (db'.alerts
            ≡ db.alerts
              ++ (if is_threat services db event
                  then alert_of services event (verdict services db event) ∷ []
                  else []))
        × (db'.remediations
            ≡ db.remediations
              ++ (if is_threat services db event
                  then remediations_of now s alert_id
                      (verdict services db event).auto_remediation
                      event
                  else []))
  process_security_event-rows now db s event alert_id f =
      let known =
        analyze-is_threat services.library services.updates services.rules event db.active_rules in
      elim (Bool-cases (verdict services db event).is_threat) [
        | inl threat ↦
            let yes_threat : is_threat services db event ≡ true = sym known ∙ threat in
            let (a, r) =
              remediate-rows now (with_alert services db event) s alert_id
                (verdict services db event).auto_remediation event in
            (
              (remediate services lists now (with_alert services db event) s alert_id
                  (verdict services db event).auto_remediation event).0,
              ap (λ x. x.0) (threat-rows now db s event alert_id f threat),
              rw yes_threat a,
              rw yes_threat r,
            )
        | inr quiet ↦
            let no_threat : is_threat services db event ≡ false = sym known ∙ quiet in
            (
              record db {
                active_rules =
                    (analyze services.library services.updates services.rules event
                      db.active_rules).1;
              },
              ap (λ x. x.0) (quiet-rows now db s event quiet),
              rw no_threat (sym (append-nil db.alerts)),
              rw no_threat (sym (append-nil db.remediations)),
            )
      ]
