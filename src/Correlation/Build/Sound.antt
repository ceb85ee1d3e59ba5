-- ===== src/Correlation/Build/Sound.antt =====
-- What an executable correlation rule guarantees to the evaluation.
mod Blocks
use aegis_ecosystem.Prelude.{
  ℕ, zero, suc, ◌≤◌, ◌≡◌, refl, ap, ◌∙◌, sym, Bool, true, none, some, List, [], ◌∷◌, ◌++◌, map,
  Text, length, ltb, arith, Bool-cases, List-cases, inl, inr,
}
use mathlib.Core.Path.{subst}
use aegis_ecosystem.Redis.Laws.{Redis}
use aegis_ecosystem.Sigma.Matcher.{Value, Library, Problem}
use aegis_ecosystem.Sigma.Selection.{EventType, Compiled}
use aegis_ecosystem.Sigma.Selection.Complete.Selections.{Faithful}
use aegis_ecosystem.Correlation.{executable}
use aegis_ecosystem.Correlation.Rules.{RuleType, threshold, sequence, unknown, CorrelationRule}
use aegis_ecosystem.Correlation.Build.{
  Block, Step, Steps, step_list, no_list, Setting, missing, negative, number, RuleDoc, at_least_one,
  type_of, step_counts, compile_match, threshold_matchers, matcher_or_never, step_matchers,
  sequence_matchers, matchers_of, rule_of, build_rule,
}
use aegis_ecosystem.Correlation.Build.Sound.Blocks.{block_holds, compile_match-Faithful}

module _ (library : Library) (type : EventType) where
  open type use {Event, get_values, has_field}

  -- What matchers say of an event, and what blocks mean.
  abbrev pub verdicts : List (Event → Bool) → Event → List Bool
  verdicts ms event = map (λ m. m event) ms

  abbrev pub meanings : List Block → Event → List Bool
  meanings bs event = map (λ b. block_holds library type b event) bs

  step_matcher :
      (v : Event → Bool) (r : Compiled type) (xs : List Problem)
      → Faithful library type v r
      → r.1 ++ xs ≡ []
      → (event : Event) → matcher_or_never library type r.0 event ≡ v event
  unfolding matcher_or_never
  step_matcher v (some p, []) xs h e event = h event
  step_matcher v (none, []) xs h e event = absurd h
  step_matcher v (o, x ∷ ys) xs h e event = absurd (ground arith)

  no_problems_left : (ys xs : List Problem) → ys ++ xs ≡ [] → xs ≡ []
  no_problems_left [] xs e = e
  no_problems_left (y ∷ ys) xs e = absurd (ground arith)

  step_matchers-verdicts :
      (steps : List Step)
      → (step_matchers library type steps).1 ≡ []
      → (event : Event)
      → verdicts (step_matchers library type steps).0 event
        ≡ meanings (map (λ s. s.match) steps) event
  unfolding step_matchers
  step_matchers-verdicts [] e event = refl
  step_matchers-verdicts (s ∷ steps) e event =
      let first =
        step_matcher (block_holds library type s.match) (compile_match library type s.match)
          (step_matchers library type steps).1 (compile_match-Faithful library type s.match) e
          event in
      let rest =
        step_matchers-verdicts steps
          (no_problems_left (compile_match library type s.match).1
            (step_matchers library type steps).1 e)
          event in
      rw (first, rest) refl

  length-step_matchers :
      (steps : List Step) → length (step_matchers library type steps).0 ≡ length steps
  unfolding step_matchers
  length-step_matchers [] = refl
  length-step_matchers (s ∷ steps) = ap suc (length-step_matchers steps)

  abbrev pub step_blocks : Steps → List Block
  step_blocks no_list = []
  step_blocks (step_list steps) = map (λ s. s.match) steps

  -- The blocks that a rule of a type is made of.
  abbrev pub blocks_of : RuleType → RuleDoc → List Block
  blocks_of threshold doc = doc.match ∷ []
  blocks_of sequence doc = step_blocks doc.steps
  blocks_of unknown doc = []

  threshold-verdicts :
      (v : Event → Bool) (r : Compiled type)
      → Faithful library type v r
      → (threshold_matchers library type r).1 ≡ []
      → (length (threshold_matchers library type r).0 ≡ 1)
        × ((event : Event) → verdicts (threshold_matchers library type r).0 event ≡ v event ∷ [])
  unfolding threshold_matchers
  threshold-verdicts v (some p, []) h e = (refl, λ event. ap (λ b. b ∷ []) (h event))
  threshold-verdicts v (none, []) h e = absurd h
  threshold-verdicts v (some p, x ∷ xs) h e = absurd (ground arith)
  threshold-verdicts v (none, x ∷ xs) h e = absurd (ground arith)

  length-counts : (steps : List Step) → length (map (λ s. s.count) steps) ≡ length steps
  length-counts [] = refl
  length-counts (s ∷ steps) = ap suc (length-counts steps)

  sequence-verdicts :
      (steps : Steps)
      → (sequence_matchers library type steps).1 ≡ []
      → (2 ≤ length (sequence_matchers library type steps).0)
        × (length (step_counts steps) ≡ length (sequence_matchers library type steps).0)
        × ((event : Event)
            → verdicts (sequence_matchers library type steps).0 event
              ≡ meanings (step_blocks steps) event)
  unfolding sequence_matchers step_counts
  sequence-verdicts no_list e = absurd (ground arith)
  sequence-verdicts (step_list steps) e =
      let same = length-step_matchers steps in
      let counts = length-counts steps in
      elim (Bool-cases (ltb (length steps) 2)) [
        | inl p ↦ absurd (let no = rw p at e in ground arith)
        | inr p ↦ (ground arith, counts ∙ sym same, step_matchers-verdicts steps (rw p at e))
      ]

  -- How many matchers a rule of a type has.
  abbrev pub IsShaped : RuleType → List ℕ → List (Event → Bool) → Type 0
  IsShaped threshold counts ms = length ms ≡ 1
  IsShaped sequence counts ms = (2 ≤ length ms) × (length counts ≡ length ms)
  IsShaped unknown counts ms = ⊥

  matchers_of-verdicts :
      (t : RuleType) (doc : RuleDoc)
      → (matchers_of library type t doc).1 ≡ []
      → IsShaped t (step_counts doc.steps) (matchers_of library type t doc).0
        × ((event : Event)
            → verdicts (matchers_of library type t doc).0 event ≡ meanings (blocks_of t doc) event)
  unfolding matchers_of
  matchers_of-verdicts threshold doc e =
      threshold-verdicts (block_holds library type doc.match) (compile_match library type doc.match)
        (compile_match-Faithful library type doc.match) e
  matchers_of-verdicts sequence doc e =
      let (long, counts, means) = sequence-verdicts doc.steps e in ((long, counts), means)
  matchers_of-verdicts unknown doc e = absurd (ground arith)

  at_least_one-le : (default : ℕ) (s : Setting) → 1 ≤ default → 1 ≤ at_least_one default s
  unfolding at_least_one
  at_least_one-le default missing h = h
  at_least_one-le default negative h = omega arith
  at_least_one-le default (number zero) h = h
  at_least_one-le default (number (suc n)) h = omega arith

  unsupported-executable :
      (redis : Redis) (render : Value → Text) (rule : CorrelationRule Event)
      → executable redis type render rule ≡ true
      → rule.unsupported ≡ []
  unfolding executable
  unsupported-executable redis render rule h = elim (List-cases rule.unsupported) [
    | inl e ↦ e
    | inr (x, xs, e) ↦ absurd (let no = rw (e, executable) at h in ground arith)
  ]

  rule_of-verdicts :
      (digest : Text → Text) (doc : RuleDoc) (redis : Redis) (render : Value → Text)
      → executable redis type render (rule_of library type digest doc) ≡ true
      → let rule = rule_of library type digest doc in
        (1 ≤ rule.needed)
        × (1 ≤ rule.window_seconds)
        × IsShaped rule.rule_type rule.counts rule.matchers
        × ((event : Event)
            → verdicts rule.matchers event ≡ meanings (blocks_of rule.rule_type doc) event)
  unfolding rule_of
  rule_of-verdicts digest doc redis render h =
      let clean = unsupported-executable redis render (rule_of library type digest doc) h in
      let (shaped, means) = matchers_of-verdicts (type_of doc.type_name) doc clean in
      (
        at_least_one-le 5 doc.threshold (omega arith),
        at_least_one-le 300 doc.window_seconds (omega arith),
        shaped,
        means,
      )

  -- A rule that is built from a document and is executable needs at least one event in a window of
  -- at least one second. A threshold rule has one matcher; a sequence has at least two, with as many
  -- counts; no other type is executable. On every event the matchers say what the blocks of the
  -- document mean, in their order.
  pub build_rule-verdicts :
      (digest : Text → Text) (doc : RuleDoc) (redis : Redis) (render : Value → Text)
      (rule : CorrelationRule Event)
      → build_rule library type digest doc ≡ some rule
      → executable redis type render rule ≡ true
      → (1 ≤ rule.needed)
        × (1 ≤ rule.window_seconds)
        × IsShaped rule.rule_type rule.counts rule.matchers
        × ((event : Event)
            → verdicts rule.matchers event ≡ meanings (blocks_of rule.rule_type doc) event)
  unfolding build_rule
  build_rule-verdicts digest doc redis render rule b h = elim (List-cases doc.title) [
    | inl e ↦ absurd (let no = rw (e, build_rule) at b in ground arith)
    | inr (c, s, e) ↦
        let same : some (rule_of library type digest doc) ≡ some rule = rw (e, build_rule) at b in
        let built : rule_of library type digest doc ≡ rule = ground arith in
        subst
          (λ r.
            executable redis type render r ≡ true
            → (1 ≤ r.needed)
              × (1 ≤ r.window_seconds)
              × IsShaped r.rule_type r.counts r.matchers
              × ((event : Event)
                  → verdicts r.matchers event ≡ meanings (blocks_of r.rule_type doc) event))
          built (rule_of-verdicts digest doc redis render) h
  ]
