-- ===== src/Behaviour/Cooldown.antt =====
-- What counts as an alert of a pair of parent and child on an agent. Kept and Starts say what the
-- pair's cooldown does to a step of the correlation, Once that it lets one alert through.
pub mod Kept
pub mod Starts
pub mod Once
use aegis_ecosystem.Prelude.{
  ℕ, ◌+◌, ◌≤◌, ◌<◌, ◌≡◌, refl, ◌∙◌, Bool, false, ◌&&◌, List, [], ◌∷◌, ◌++◌, arith, Text, codes, ltb,
  if◌then◌else◌, ◌==◌, eq_text, text_eq,
}
use aegis_ecosystem.Redis.Laws.{Redis}
use aegis_ecosystem.Behaviour.{Event, Alert, Settings, World, generate_alert}
use aegis_ecosystem.Behaviour.Lineage.{parent_key, cool_key, flagged_alert, process_lineage_alert}

-- How many of the alerts are critical.
abbrev pub criticals : List Alert → ℕ
criticals [] = 0
criticals (a ∷ rest) = (if a.severity == codes "CRITICAL" then 1 else 0) + criticals rest

criticals-append :
    (xs : List Alert) (a : Alert) → criticals (xs ++ a ∷ []) ≡ criticals xs + criticals (a ∷ [])
criticals-append [] a = omega arith
criticals-append (x ∷ xs) a = omega (arith, criticals-append xs a)

-- Events in order of time, none before t or as late as end.
abbrev pub Ordered : ℕ → ℕ → List (ℕ × Event) → Type 0
Ordered t end [] = Unit
Ordered t end ((u, event) ∷ rest) = (t ≤ u) × (u < end) × Ordered u end rest

pub cool-ne-parent : (e f : Event) → (parent_key e == cool_key f) ≡ false
unfolding parent_key cool_key text_eq
cool-ne-parent e f = refl

module _ (redis : Redis) (settings : Settings) (cooldown_s parent_ttl_s : ℕ) where
  open redis use {Store, get, set_ex}

  abbrev W : Type 0
  W = World redis

  abbrev pub step : ℕ → Event → W → W
  step t event w = (process_lineage_alert redis settings cooldown_s parent_ttl_s t event w).1

  -- Whether the event raises a critical alert.
  abbrev pub raises : ℕ → Event → W → Bool
  raises t event w = ltb (criticals w.alerts) (criticals (step t event w).alerts)

  -- How many events with the agent, parent and child of a key raise one, of events in a row.
  abbrev pub raised : Text → List (ℕ × Event) → W → ℕ
  raised key [] w = 0
  raised key ((t, event) ∷ rest) w =
      (if cool_key event == key && raises t event w then 1 else 0)
      + raised key rest (step t event w)

  pub flagged-criticals :
      (event : Event) (w : W)
      → criticals (flagged_alert redis settings cooldown_s parent_ttl_s event w).alerts
        ≡ criticals w.alerts
  unfolding flagged_alert generate_alert text_eq
  flagged-criticals event w = criticals-append w.alerts _ ∙ omega arith
