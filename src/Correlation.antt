-- ===== src/Correlation.antt =====
-- Correlation over events, `CorrelationEngine` of aegis-brain/app/services/correlation.py. The state
-- is the Redis server's; a call returns its result or `none` for an exception, and the server as the
-- call left it. The commands of one evaluation see the server's clock at one time, t. `render` is
-- Python's `str` on a value.
pub mod Build
pub mod Keys
pub mod Keeps
pub mod Once
pub mod Rules
pub mod Threshold
use aegis_ecosystem.Prelude.{
  ℕ, zero, suc, ◌+◌, Bool, true, false, Option, none, some, List, [], ◌∷◌, ◌++◌, Text, codes, lower,
  decimal, take, length, member, filter, leb, ltb, nat_eq, eq_text,
}
use aegis_ecosystem.Redis.Laws.{Redis, SetReply, reply_true, reply_false, reply_none}
use aegis_ecosystem.Sigma.Matcher.{Value}
use aegis_ecosystem.Correlation.Rules.{
  threshold, sequence, unknown, CorrelationRule, CorrelationMatch, counter_key, fired_key,
  armed_key, previous, needed_at,
}
use aegis_ecosystem.Sigma.Selection.{EventType}

module _ (redis : Redis) (type : EventType) (render : Value → Text) where
  open redis use {Store, get, set_nx, set_ex, incr, expire}
  open type use {Event, get_values}

  -- An action on the server that may raise.
  abbrev pub M : Type 0 → Type 0
  M A = Store → Option A × Store

  infixl 5 ◌>>=◌
  abbrev pub ◌>>=◌ : {A B : Type 0} → M A → (A → M B) → M B
  ◌>>=◌ m f s = let (r, s') = m s in elim r [ none ↦ (none, s') | some a ↦ f a s' ]

  abbrev pub pure : {A : Type 0} → A → M A
  pure a s = (some a, s)

  unfoldable pub m_get : ℕ → Text → M (Option ℕ)
  m_get t key s = (get s t key, s)

  unfoldable pub m_incr : ℕ → Text → M ℕ
  m_incr t key s = elim (incr s t key) [ none ↦ (none, s) | some (n, s') ↦ (some n, s') ]

  unfoldable pub m_expire : ℕ → Text → ℕ → M (Unit {0})
  m_expire t key ttl s = elim (expire s t key ttl) [ none ↦ (none, s) | some s' ↦ (some tt, s') ]

  unfoldable pub m_set_ex : ℕ → Text → ℕ → M (Unit {0})
  m_set_ex t key ttl s = elim (set_ex s t key ttl) [ none ↦ (none, s) | some s' ↦ (some tt, s') ]

  -- whether `set(..., nx=True)` returned a true value
  unfoldable pub claims : SetReply → Bool
  claims reply_true = true
  claims reply_false = false
  claims reply_none = false

  unfoldable pub m_claim : ℕ → Text → ℕ → M Bool
  unfolding claims
  m_claim t key ttl s = elim (set_nx s t key ttl) [
    | none ↦ (none, s)
    | some (reply, s') ↦ (some (claims reply), s')
  ]

  -- `if count == 1: await rc.expire(key, window)`
  unfoldable pub start_window : ℕ → Text → ℕ → ℕ → M ℕ
  unfolding m_expire
  start_window t key ttl count = elim (nat_eq count 1) [
    | true ↦ (do _ ← m_expire t key ttl; pure count)
    | false ↦ pure count
  ]

  -- `count = await rc.incr(key)`, with `expire` on the first count
  unfoldable pub count_in_window : ℕ → Text → ℕ → M ℕ
  unfolding m_incr start_window
  count_in_window t key ttl = do count ← m_incr t key; start_window t key ttl count

  -- `_group_key`: `none` where a field of the group has no value
  unfoldable pub group_parts : List Text → Event → Option (List Text)
  group_parts [] event = some []
  group_parts (f ∷ fs) event =
      let rest = group_parts fs event in
      elim (get_values event f) [
        | [] ↦ none
        | v ∷ vs ↦ elim rest [ none ↦ none | some ps ↦ some (take 128 (render v) ∷ ps) ]
      ]

  unfoldable pub join_parts : List Text → Text
  join_parts [] = codes "global"
  join_parts (p ∷ []) = p
  join_parts (p ∷ q ∷ ps) = p ++ (codes "|" ++ join_parts (q ∷ ps))

  unfoldable pub group_key : CorrelationRule Event → Event → Option Text
  unfolding group_parts join_parts
  group_key rule event = elim (group_parts rule.group_by event) [
    | none ↦ none
    | some ps ↦ some (join_parts ps)
  ]

  unfoldable pub match_of : CorrelationRule Event → Text → ℕ → CorrelationMatch
  match_of rule group observed = record {
    rule_id = rule.id;
    group_key = group;
    observed = observed;
    window_seconds = rule.window_seconds;
  }

  -- a match for the first evaluation that claims the window
  unfoldable pub answer : CorrelationRule Event → Text → ℕ → Bool → M (Option CorrelationMatch)
  unfolding match_of
  answer rule group observed claimed = elim claimed [
    | true ↦ pure (some (match_of rule group observed))
    | false ↦ pure none
  ]

  -- the end of both evaluations: one alert for each window
  unfoldable pub fire_once :
      ℕ → CorrelationRule Event → Text → Text → ℕ → M (Option CorrelationMatch)
  unfolding m_claim answer
  fire_once t rule group index observed = do
    claimed ← m_claim t (fired_key rule.id group index) rule.window_seconds
    answer rule group observed claimed

  -- `if count < needed: return None`
  unfoldable pub fire_at : ℕ → CorrelationRule Event → Text → ℕ → M (Option CorrelationMatch)
  unfolding fire_once
  fire_at t rule group count = elim (ltb count rule.needed) [
    | true ↦ pure none
    | false ↦ fire_once t rule group (codes "0") count
  ]

  -- `_eval_threshold` in a group, behind its matcher
  unfoldable pub threshold_in_group : ℕ → CorrelationRule Event → Text → M (Option CorrelationMatch)
  unfolding count_in_window fire_at
  threshold_in_group t rule group = do
    count ← count_in_window t (counter_key rule.id group (codes "0")) rule.window_seconds
    fire_at t rule group count

  -- `rule._matchers[0](event)`; an IndexError where there is no matcher
  unfoldable pub first_matches : CorrelationRule Event → Event → Option Bool
  first_matches rule event = elim rule.matchers [ [] ↦ none | m ∷ ms ↦ some (m event) ]

  unfoldable pub eval_threshold : ℕ → CorrelationRule Event → Event → M (Option CorrelationMatch)
  unfolding first_matches group_key threshold_in_group
  eval_threshold t rule event s = elim (first_matches rule event) [
    | none ↦ (none, s)
    | some false ↦ (some none, s)
    | some true ↦ elim (group_key rule event) [
      | none ↦ (some none, s)
      | some group ↦ threshold_in_group t rule group s
    ]
  ]

  -- the last step: it fires where the step before is armed
  unfoldable pub fire_armed :
      ℕ → CorrelationRule Event → Text → ℕ → Option ℕ → M (Option CorrelationMatch)
  unfolding fire_once
  fire_armed t rule group steps none = pure none
  fire_armed t rule group steps (some n) = fire_once t rule group (codes "seq") steps

  unfoldable pub last_step : ℕ → CorrelationRule Event → Text → ℕ → ℕ → M (Option CorrelationMatch)
  unfolding m_get fire_armed
  last_step t rule group index steps = do
    armed ← m_get t (armed_key rule.id group (previous index))
    fire_armed t rule group steps armed

  -- `if count >= needed: await rc.set(...)`
  unfoldable pub arm_at : ℕ → CorrelationRule Event → Text → ℕ → ℕ → M (Unit {0})
  unfolding m_set_ex
  arm_at t rule group index count = elim (leb (needed_at rule.counts index) count) [
    | true ↦ m_set_ex t (armed_key rule.id group (decimal index)) rule.window_seconds
    | false ↦ pure tt
  ]

  -- an earlier step: it counts, and arms the next step
  unfoldable pub earlier_step : ℕ → CorrelationRule Event → Text → ℕ → M (Unit {0})
  unfolding count_in_window arm_at
  earlier_step t rule group index = do
    count ← count_in_window t (counter_key rule.id group (decimal index)) rule.window_seconds
    arm_at t rule group index count

  -- the loop over the matchers that are left, from an index; `steps` is the number of all
  unfoldable pub run_steps :
      ℕ
      → CorrelationRule Event
      → Event
      → Text
      → ℕ
      → ℕ
      → List (Event → Bool)
      → M (Option CorrelationMatch)
  unfolding last_step earlier_step
  run_steps t rule event group steps index [] = pure none
  run_steps t rule event group steps index (m ∷ []) = elim (m event) [
    | true ↦ last_step t rule group index steps
    | false ↦ pure none
  ]
  run_steps t rule event group steps index (m ∷ m' ∷ ms) = elim (m event) [
    | false ↦ run_steps t rule event group steps (suc index) (m' ∷ ms)
    | true ↦ do
      _ ← earlier_step t rule group index
      run_steps t rule event group steps (suc index) (m' ∷ ms)
  ]

  unfoldable pub eval_sequence : ℕ → CorrelationRule Event → Event → M (Option CorrelationMatch)
  unfolding group_key run_steps
  eval_sequence t rule event s = elim (group_key rule event) [
    | none ↦ (some none, s)
    | some group ↦ run_steps t rule event group (length rule.matchers) 0 rule.matchers s
  ]

  -- the choice by `rule.type`
  unfoldable pub eval_rule : ℕ → CorrelationRule Event → Event → M (Option CorrelationMatch)
  unfolding eval_threshold eval_sequence
  eval_rule t rule event = elim rule.rule_type [
    | threshold ↦ eval_threshold t rule event
    | sequence ↦ eval_sequence t rule event
    | unknown ↦ eval_sequence t rule event
  ]

  -- `CorrelationRule.executable`
  unfoldable pub executable : CorrelationRule Event → Bool
  executable rule = elim rule.unsupported [
    | [] ↦ elim rule.matchers [ [] ↦ false | m ∷ ms ↦ true ]
    | x ∷ xs ↦ false
  ]

  unfoldable pub source_matches : CorrelationRule Event → Text → Bool
  source_matches rule source_type = elim rule.source_types [
    | [] ↦ true
    | x ∷ xs ↦ member (lower source_type) (x ∷ xs)
  ]

  -- one pass of the inner loop: an exception or no match adds nothing
  unfoldable pub add_match :
      Option (Option CorrelationMatch)
      → List CorrelationMatch × Store
      → List CorrelationMatch × Store
  add_match none (ms, s) = (ms, s)
  add_match (some none) (ms, s) = (ms, s)
  add_match (some (some m)) (ms, s) = (m ∷ ms, s)

  -- the inner loop over the rules
  unfoldable pub eval_rules :
      ℕ → Text → Event → List (CorrelationRule Event) → Store → List CorrelationMatch × Store
  unfolding eval_rule source_matches add_match
  eval_rules t source_type event [] s = ([], s)
  eval_rules t source_type event (rule ∷ rules) s = elim (source_matches rule source_type) [
    | false ↦ eval_rules t source_type event rules s
    | true ↦
        let (r, s1) = eval_rule t rule event s in
        add_match r (eval_rules t source_type event rules s1)
  ]

  -- `evaluate`: each event comes with the time of its evaluation and its source type
  unfoldable pub evaluate :
      List (CorrelationRule Event) → List (ℕ × Text × Event) → Store → List CorrelationMatch × Store
  unfolding eval_rules executable
  evaluate rules [] s = ([], s)
  evaluate rules ((t, source_type, event) ∷ events) s =
      let (ms, s1) = eval_rules t source_type event (filter executable rules) s in
      let (rest, s2) = evaluate rules events s1 in (ms ++ rest, s2)
