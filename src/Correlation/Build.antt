-- ===== src/Correlation/Build.antt =====
-- The rules of the correlation engine from their documents, `_compile_match` and `_build_rule` of
-- aegis-brain/app/services/correlation.py. What YAML holds of another type than the code expects is
-- a constructor. `digest` is the start of the SHA-256 that names a rule without an id.
pub mod Sound
use aegis_ecosystem.Prelude.{
  ℕ, zero, suc, Bool, false, Option, none, some, List, [], ◌∷◌, ◌++◌, map, Text, codes, lower,
  strip, take, length, ltb, if◌then◌else◌, ◌==◌, eq_text,
}
use aegis_ecosystem.Sigma.Matcher.{
  Library, Patterns, Problem, no_usable_fields, empty_match, too_few_steps, unsupported_correlation,
  compile_field_match,
}
use aegis_ecosystem.Sigma.Selection.{EventType, Compiled, split_field, collect, and_predicate}
use aegis_ecosystem.Correlation.Rules.{RuleType, threshold, sequence, unknown, CorrelationRule}

-- A `match` block; a step without one has the empty block.
pub data Block : Type 0 where
  entries : List (Text × Patterns) → Block
  no_entries : Block

pub record Step : Type 0 where
  pub match : Block
  pub count : ℕ

pub data Steps : Type 0 where
  step_list : List Step → Steps
  no_list : Steps

-- A number of a document.
pub data Setting : Type 0 where
  missing negative : Setting
  number : ℕ → Setting

pub record RuleDoc : Type 0 where
  pub title : Text
  pub id : Text
  pub type_name : Text
  pub group_by : List Text
  pub threshold : Setting
  pub window_seconds : Setting
  pub source_types : List Text
  pub match : Block
  pub steps : Steps

-- `max(1, int(doc.get(key, default) or default))`
unfoldable pub at_least_one : ℕ → Setting → ℕ
at_least_one default missing = default
at_least_one default negative = 1
at_least_one default (number zero) = default
at_least_one default (number (suc n)) = suc n

-- `str(doc.get("type", "")).strip().lower()`
unfoldable pub type_of : Text → RuleType
type_of s =
    let t = lower (strip s) in
    if t == codes "threshold"
    then threshold
    else if t == codes "sequence"
    then sequence
    else unknown

unfoldable pub rule_id : (Text → Text) → Text → Text → Text
rule_id digest [] title = codes "corr-" ++ digest title
rule_id digest (c ∷ s) title = c ∷ s

-- the counts of the steps, which the evaluation reads
unfoldable pub step_counts : Steps → List ℕ
step_counts no_list = []
step_counts (step_list steps) = map (λ s. s.count) steps

module _ (library : Library) (type : EventType) where
  open type use {Event, get_values, has_field}

  -- one entry of a block
  unfoldable pub match_field : Text → Patterns → Compiled type
  match_field raw_field patterns =
      let (name, modifiers) = split_field raw_field in
      compile_field_match library get_values has_field (strip name) modifiers patterns

  unfoldable pub match_fields : List (Text × Patterns) → List (Event → Bool) × List Problem
  unfolding match_field
  match_fields [] = ([], [])
  match_fields ((raw_field, patterns) ∷ items) =
      collect library type (match_field raw_field patterns) (match_fields items)

  -- the end of `_compile_match`
  unfoldable pub finish_match : List (Event → Bool) × List Problem → Compiled type
  finish_match ([], []) = (none, no_usable_fields ∷ [])
  finish_match (p ∷ ps, []) = (some (and_predicate library type (p ∷ ps)), [])
  finish_match (ps, x ∷ xs) = (none, x ∷ xs)

  unfoldable pub compile_match : Block → Compiled type
  unfolding match_fields finish_match
  compile_match no_entries = (none, empty_match ∷ [])
  compile_match (entries []) = (none, empty_match ∷ [])
  compile_match (entries (x ∷ xs)) = finish_match (match_fields (x ∷ xs))

  -- the branch of a threshold: a matcher if there is one
  unfoldable pub threshold_matchers : Compiled type → List (Event → Bool) × List Problem
  threshold_matchers (some m, problems) = (m ∷ [], problems)
  threshold_matchers (none, problems) = ([], problems)

  -- `matcher if matcher else (lambda _e: False)`
  unfoldable pub matcher_or_never : Option (Event → Bool) → Event → Bool
  matcher_or_never none event = false
  matcher_or_never (some m) event = m event

  unfoldable pub step_matchers : List Step → List (Event → Bool) × List Problem
  unfolding compile_match matcher_or_never
  step_matchers [] = ([], [])
  step_matchers (s ∷ steps) =
      let (matcher, problems) = compile_match s.match in
      let (ms, xs) = step_matchers steps in (matcher_or_never matcher ∷ ms, problems ++ xs)

  -- the branch of a sequence
  unfoldable pub sequence_matchers : Steps → List (Event → Bool) × List Problem
  unfolding step_matchers
  sequence_matchers no_list = ([], too_few_steps ∷ [])
  sequence_matchers (step_list steps) =
      let (ms, xs) = step_matchers steps in
      (ms, if ltb (length steps) 2 then too_few_steps ∷ xs else xs)

  unfoldable pub matchers_of : RuleType → RuleDoc → List (Event → Bool) × List Problem
  unfolding threshold_matchers sequence_matchers compile_match
  matchers_of threshold doc = threshold_matchers (compile_match doc.match)
  matchers_of sequence doc = sequence_matchers doc.steps
  matchers_of unknown doc = ([], unsupported_correlation ∷ [])

  -- the rule of a document with a title
  unfoldable pub rule_of : (Text → Text) → RuleDoc → CorrelationRule Event
  unfolding matchers_of at_least_one type_of rule_id step_counts
  rule_of digest doc = record {
    id = rule_id digest doc.id doc.title;
    rule_type = type_of doc.type_name;
    group_by = take 4 doc.group_by;
    needed = at_least_one 5 doc.threshold;
    window_seconds = at_least_one 300 doc.window_seconds;
    source_types = map lower doc.source_types;
    counts = step_counts doc.steps;
    matchers = (matchers_of (type_of doc.type_name) doc).0;
    unsupported = (matchers_of (type_of doc.type_name) doc).1;
  }

  -- `_build_rule`
  unfoldable pub build_rule : (Text → Text) → RuleDoc → Option (CorrelationRule Event)
  unfolding rule_of
  build_rule digest doc = elim doc.title [ [] ↦ none | c ∷ s ↦ some (rule_of digest doc) ]
