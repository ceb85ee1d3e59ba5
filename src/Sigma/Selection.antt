-- ===== src/Sigma/Selection.antt =====
-- Selections and detections, `build_selection` and `compile_detection` of
-- aegis-brain/app/rules/sigma/compiler.py. A problem is a constructor, without the name of the field
-- or selection that the source writes before its text.
pub mod Complete
use aegis_ecosystem.Prelude.{
  Bool, true, false, ◌||◌, Option, none, some, List, [], ◌∷◌, ◌++◌, map, Text, codes, lower, strip,
  any, all, take, nat_eq, if◌then◌else◌, ◌==◌, eq_text,
}
use aegis_ecosystem.Sigma.Wildcard.{wildcard_to_regex, search_match}
use aegis_ecosystem.Sigma.Matcher.{
  Library, Value, Patterns, one, several, Problem, no_usable_fields, empty_list, unsupported_type,
  missing_condition, bad_condition, compile_field_match,
}
use aegis_ecosystem.Sigma.Condition.{
  Parsed, ok, value_error, index_error, out_of_fuel, Condition, compile_condition,
}

-- What stands in YAML as a selection: a text, a dictionary of fields, a list, or something else.
mutual
  pub data Spec : Type 0 where
    keyword : Text → Spec
    fields : List (Text × Patterns) → Spec
    alternatives : Specs → Spec
    other : Spec

  pub data Specs : Type 0 where
    nil : Specs
    cons : Spec → Specs → Specs

-- `raw_field.split("|")`: the field and its modifiers
unfoldable pub split_field : Text → Text × List Text
split_field [] = ([], [])
split_field (c ∷ s) =
    let (field, modifiers) = split_field s in
    if nat_eq c b'|' then ([], field ∷ modifiers) else (c ∷ field, modifiers)

-- `field.strip().lower() in ("", "null")`
unfoldable pub is_null_field : Text → Bool
is_null_field field = let s = lower (strip field) in s == [] || s == codes "null"

pub record EventType : Type 1 where
  pub Event : Type 0
  pub get_values : Event → Text → List Value
  pub has_field : Event → Text → Bool
  pub searchable_text : Event → Text
  -- `event.raw or ''`
  pub raw : Event → Text

abbrev pub Compiled : EventType → Type 0
Compiled type = Option (type.Event → Bool) × List Problem

module _ (library : Library) (type : EventType) where
  open type use {Event, get_values, has_field, searchable_text, raw}

  -- f"{event.searchable_text()} {event.raw or ''}"[:_MAX_FIELD_CHARS]
  unfoldable pub haystack : Event → Text
  haystack event = take 200_000 (searchable_text event ++ (codes " " ++ raw event))

  unfoldable pub keyword_predicate : Text → Event → Bool
  unfolding haystack
  keyword_predicate word event = search_match false (wildcard_to_regex word) (haystack event)

  unfoldable pub or_predicate : List (Event → Bool) → Event → Bool
  or_predicate parts event = any (λ part. part event) parts

  unfoldable pub and_predicate : List (Event → Bool) → Event → Bool
  and_predicate parts event = all (λ part. part event) parts

  -- a null field searches its values as keywords
  unfoldable pub null_field : Patterns → Event → Bool
  unfolding or_predicate
  null_field (one p) = keyword_predicate p
  null_field (several ps) = or_predicate (map keyword_predicate ps)

  -- one entry of the dictionary
  unfoldable pub build_field : Text → Patterns → Compiled type
  unfolding null_field
  build_field raw_field patterns =
      let (field, modifiers) = split_field raw_field in
      if is_null_field field
      then (some (null_field patterns), [])
      else compile_field_match library get_values has_field (strip field) modifiers patterns

  -- the loops collect the predicates and the problems
  unfoldable pub collect :
      Compiled type → List (Event → Bool) × List Problem → List (Event → Bool) × List Problem
  collect (some p, []) (ps, xs) = (p ∷ ps, xs)
  collect (none, []) (ps, xs) = (ps, xs)
  collect (o, x ∷ problems) (ps, xs) = (ps, x ∷ (problems ++ xs))

  unfoldable pub build_fields : List (Text × Patterns) → List (Event → Bool) × List Problem
  unfolding build_field collect
  build_fields [] = ([], [])
  build_fields ((raw_field, patterns) ∷ items) =
      collect (build_field raw_field patterns) (build_fields items)

  -- the end of the branch for a dictionary
  unfoldable pub finish_fields : List (Event → Bool) × List Problem → Compiled type
  unfolding and_predicate
  finish_fields ([], []) = (none, no_usable_fields ∷ [])
  finish_fields ([], x ∷ xs) = (none, x ∷ xs)
  finish_fields (p ∷ ps, xs) = (some (and_predicate (p ∷ ps)), xs)

  -- the loop over a list keeps the predicate of an item beside its problems
  unfoldable pub collect_part :
      Compiled type → List (Event → Bool) × List Problem → List (Event → Bool) × List Problem
  collect_part (some p, problems) (ps, xs) = (p ∷ ps, problems ++ xs)
  collect_part (none, problems) (ps, xs) = (ps, problems ++ xs)

  -- the end of the branch for a list
  unfoldable pub finish_parts : List (Event → Bool) × List Problem → Compiled type
  unfolding or_predicate
  finish_parts ([], []) = (none, empty_list ∷ [])
  finish_parts ([], x ∷ xs) = (none, x ∷ xs)
  finish_parts (p ∷ ps, []) = (some (or_predicate (p ∷ ps)), [])
  finish_parts (p ∷ ps, x ∷ xs) = (none, x ∷ xs)

  unfoldable mutual
    pub build_selection : Spec → Compiled type
    build_selection (fields items) = finish_fields (build_fields items)
    build_selection (alternatives items) = finish_parts (build_parts items)
    build_selection (keyword word) = (some (keyword_predicate word), [])
    build_selection other = (none, unsupported_type ∷ [])

    pub build_parts : Specs → List (Event → Bool) × List Problem
    build_parts nil = ([], [])
    build_parts (cons item items) = collect_part (build_selection item) (build_parts items)

  -- The value of the key `condition`.
  pub data ConditionText : Type 0 where
    absent : ConditionText
    text : Text → ConditionText
    texts : List Text → ConditionText

  -- A detection block: the selections in order, and the condition.
  pub record Detection : Type 0 where
    pub selections : List (Text × Spec)
    pub condition : ConditionText

  pub record Rule : Type 0 where
    pub selections : List (Text × (Event → Bool))
    pub condition : Option Condition
    pub unsupported : List Problem

  -- " or ".join(f"({c})" for c in condition_text)
  unfoldable pub join_conditions : List Text → Text
  join_conditions [] = []
  join_conditions (c ∷ []) = codes "(" ++ (c ++ codes ")")
  join_conditions (c ∷ d ∷ cs) =
      codes "(" ++ (c ++ (codes ")" ++ (codes " or " ++ join_conditions (d ∷ cs))))

  unfoldable pub condition_text : ConditionText → Text
  unfolding join_conditions
  condition_text absent = []
  condition_text (text s) = s
  condition_text (texts ss) = join_conditions ss

  -- the loop over the selections
  unfoldable pub add_selection :
      Text
      → Compiled type
      → List (Text × (Event → Bool)) × List Problem
      → List (Text × (Event → Bool)) × List Problem
  add_selection name (some p, problems) (ss, xs) = ((name, p) ∷ ss, problems ++ xs)
  add_selection name (none, problems) (ss, xs) = (ss, problems ++ xs)

  unfoldable pub build_selections : List (Text × Spec) → List (Text × (Event → Bool)) × List Problem
  unfolding add_selection
  build_selections [] = ([], [])
  build_selections ((name, spec) ∷ rest) =
      add_selection name (build_selection spec) (build_selections rest)

  abbrev pub names_of {ℓ} : {A : Type ℓ} → List (Text × A) → List Text
  names_of = map (λ x. x.0)

  -- `except ValueError`; an `IndexError` is not caught
  unfoldable pub with_condition :
      List (Text × (Event → Bool)) → List Problem → Parsed Condition → Parsed Rule
  with_condition ss xs (ok c) =
      ok (record { selections = ss; condition = some c; unsupported = xs })
  with_condition ss xs value_error =
      ok (record { selections = ss; condition = none; unsupported = xs ++ bad_condition ∷ [] })
  with_condition ss xs index_error = index_error
  with_condition ss xs out_of_fuel = out_of_fuel

  unfoldable pub compile_text : List (Text × (Event → Bool)) × List Problem → Text → Parsed Rule
  unfolding with_condition
  compile_text (ss, xs) [] =
      ok (record { selections = ss; condition = none; unsupported = xs ++ missing_condition ∷ [] })
  compile_text (ss, xs) (c ∷ s) = with_condition ss xs (compile_condition (c ∷ s) (names_of ss))

  unfoldable pub compile_detection : Detection → Parsed Rule
  unfolding compile_text condition_text
  compile_detection d = compile_text (build_selections d.selections) (condition_text d.condition)

  -- `SigmaRule.executable`
  unfoldable pub executable : Rule → Bool
  executable r = elim r.unsupported [
    | [] ↦ elim r.condition [ none ↦ false | some c ↦ true ]
    | x ∷ xs ↦ false
  ]
