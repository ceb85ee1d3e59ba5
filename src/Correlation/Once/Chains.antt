-- ===== src/Correlation/Once/Chains.antt =====
-- Actions of the correlation engine that leave a key live when they match, and those that a live key
-- keeps from matching (aegis-brain/app/services/correlation.py).
use aegis_ecosystem.Prelude.{
  ℕ, ◌≤◌, ◌<◌, ◌≡◌, refl, Bool, true, false, Option, none, some, List, [], ◌∷◌, arith, Text, filter,
  eq_text,
}
use aegis_ecosystem.Redis.Laws.{Redis}
use aegis_ecosystem.Sigma.Matcher.{Value}
use aegis_ecosystem.Sigma.Selection.{EventType}
use aegis_ecosystem.Correlation.{M, ◌>>=◌, eval_rules, evaluate, executable}
use aegis_ecosystem.Correlation.Rules.{CorrelationRule, CorrelationMatch, fired_key}
use aegis_ecosystem.Correlation.Keeps.Commands.{Held, Keeps}
use aegis_ecosystem.Correlation.Keeps.{Held-eval_rules}

-- Whether an evaluation returned a match.
unfoldable pub is_match : Option (Option CorrelationMatch) → Bool
is_match none = false
is_match (some none) = false
is_match (some (some m)) = true

module _ (redis : Redis) (type : EventType) (render : Value → Text) where
  open redis use {Store, live}
  open type use {Event}

  -- Evaluations at times from t on that never go back, up to the time u.
  unfoldable pub Ordered : ℕ → List (ℕ × Text × Event) → ℕ → Type 0
  Ordered t [] u = t ≤ u
  Ordered t ((t', source_type, event) ∷ events) u = (t ≤ t') × Ordered t' events u

  pub Ordered-bound :
      (t : ℕ) (events : List (ℕ × Text × Event)) (u : ℕ) → Ordered t events u → t ≤ u
  unfolding Ordered
  Ordered-bound t [] u o = o
  Ordered-bound t ((t', source_type, event) ∷ events) u o =
      let later = Ordered-bound t' events u o.1 in let first = o.0 in omega arith

  pub Held-later :
      (k : Text) (t t' d : ℕ) (s : Store)
      → t ≤ t'
      → Held redis type render k t d s
      → Held redis type render k t' d s
  Held-later k t t' d s le h u later lt = h u (omega arith) lt

  pub Held-evaluate :
      (id group index : Text) (t u d : ℕ) (rules : List (CorrelationRule Event))
      (events : List (ℕ × Text × Event)) (s : Store)
      → u < d
      → Ordered t events u
      → Held redis type render (fired_key id group index) t d s
      → Held redis type render
          (fired_key id group index)
          u
          d
          (evaluate redis type render rules events s).1
  unfolding evaluate Ordered
  Held-evaluate id group index t u d rules [] s lt o h =
      Held-later (fired_key id group index) t u d s o h
  Held-evaluate id group index t u d rules ((t', source_type, event) ∷ events) s lt o h =
      let bound = Ordered-bound t' events u o.1 in
      Held-evaluate id group index t' u d rules events
        (eval_rules redis type render t' source_type event
          (filter (executable redis type render) rules) s).1
        lt o.1
        (Held-eval_rules redis type render id group index t' d (omega arith) source_type event
          (filter (executable redis type render) rules) s
          (Held-later (fired_key id group index) t t' d s o.0 h))

  -- An action whose match leaves a key live up to d, and one that a live key keeps from matching.
  abbrev pub Claims : Text → ℕ → ℕ → M redis type render (Option CorrelationMatch) → Type 0
  Claims k t d m = (s : Store) → is_match (m s).0 ≡ true → Held redis type render k t d (m s).1

  abbrev pub Blocked : Text → ℕ → ℕ → M redis type render (Option CorrelationMatch) → Type 0
  Blocked k t d m = (s : Store) → Held redis type render k t d s → is_match (m s).0 ≡ false

  pub Claims-continue :
      {A : Type 0} (k : Text) (t d : ℕ) (f : A → M redis type render (Option CorrelationMatch))
      (r : Option A) (s : Store)
      → ((a : A) → Claims k t d (f a))
      → is_match (
          (elim r as (λ _. Option (Option CorrelationMatch) × Store) [
            | none ↦ (none, s)
            | some a ↦ f a s
          ]).0)
        ≡ true
      → Held redis type render k t d (
          (elim r as (λ _. Option (Option CorrelationMatch) × Store) [
            | none ↦ (none, s)
            | some a ↦ f a s
          ]).1)
  unfolding is_match
  Claims-continue k t d f none s cf h = absurd (ground arith)
  Claims-continue k t d f (some a) s cf h = cf a s h

  pub Claims-bind :
      {A : Type 0} (k : Text) (t d : ℕ) (m : M redis type render A)
      (f : A → M redis type render (Option CorrelationMatch))
      → ((a : A) → Claims k t d (f a))
      → Claims k t d (◌>>=◌ redis type render m f)
  Claims-bind k t d m f cf s h = Claims-continue k t d f (m s).0 (m s).1 cf h

  pub Blocked-continue :
      {A : Type 0} (k : Text) (t d : ℕ) (f : A → M redis type render (Option CorrelationMatch))
      (r : Option A) (s : Store)
      → ((a : A) → Blocked k t d (f a))
      → Held redis type render k t d s
      → is_match (
          (elim r as (λ _. Option (Option CorrelationMatch) × Store) [
            | none ↦ (none, s)
            | some a ↦ f a s
          ]).0)
        ≡ false
  unfolding is_match
  Blocked-continue k t d f none s bf h = refl
  Blocked-continue k t d f (some a) s bf h = bf a s h

  pub Blocked-bind :
      {A : Type 0} (k : Text) (t d : ℕ) (m : M redis type render A)
      (f : A → M redis type render (Option CorrelationMatch))
      → Keeps redis type render k t d m
      → ((a : A) → Blocked k t d (f a))
      → Blocked k t d (◌>>=◌ redis type render m f)
  Blocked-bind k t d m f km bf s h = Blocked-continue k t d f (m s).0 (m s).1 bf (km s h)

  -- what a chain does with an action's result and the server after it
  abbrev pub continue :
      {A B : Type 0} → (A → M redis type render B) → Option A × Store → Option B × Store
  continue f x = elim x.0 [ none ↦ (none, x.1) | some a ↦ f a x.1 ]
