-- ===== src/Sigma/Matcher.antt =====
-- The comparison of one field, aegis-brain/app/rules/sigma/matcher.py. Python's regex engine on a
-- pattern of the rule's own (`|re`), its floats and its `ipaddress` are parameters (Library); the
-- regexes that the module builds itself are run (Wildcard). What the source reports as text about an
-- unsupported modifier is a constructor of Problem.
pub mod Base64
pub mod Modes
use aegis_ecosystem.Prelude.{
  Bool, true, false, not, ◌||◌, Option, none, some, List, [], ◌∷◌, ◌++◌, map, Text, codes, lower,
  strip, replace_char, member, any, all, filter, if◌then◌else◌, ◌==◌, eq_text,
}
use aegis_ecosystem.Sigma.Wildcard.{any_text, wildcard_to_regex, full_match}
use Base64.{base64_variants}

pub record Library : Type 1 where
  pub Float : Type 0
  -- `float(text)`, `none` for a ValueError
  pub parse_float : Text → Option Float
  pub lt : Float → Float → Bool
  pub le : Float → Float → Bool
  -- `re.search(pattern, target, flags)`, `false` for a `re.error`; the first argument is `cased`
  pub re_search : Bool → Text → Text → Bool
  -- `ip_address(target) in ip_network(pattern, strict=False)`, `false` for a ValueError
  pub in_network : Text → Text → Bool

-- A value of an event: `str(value)`, or a list with `str` of its elements.
pub data Value : Type 0 where
  scalar : Text → Value
  many : List Text → Value

-- What stands in YAML behind a field: one value or a list.
pub data Patterns : Type 0 where
  one : Text → Patterns
  several : List Text → Patterns

pub data Mode : Type 0 where
  contains startswith endswith re equals : Mode

pub data Numeric : Type 0 where
  gt gte lt lte : Numeric

pub data Problem : Type 0 where
  unsupported_modifiers : List Text → Problem
  fieldref_not_supported no_usable_fields empty_list unsupported_type : Problem
  missing_condition bad_condition : Problem
  empty_match too_few_steps unsupported_correlation : Problem

abbrev pub supported_modifiers : List Text
supported_modifiers =
    codes "contains"
    ∷ codes "startswith"
    ∷ codes "endswith"
    ∷ codes "re"
    ∷ codes "all"
    ∷ codes "any"
    ∷ codes "cased"
    ∷ codes "cidr"
    ∷ codes "gt"
    ∷ codes "gte"
    ∷ codes "lt"
    ∷ codes "lte"
    ∷ codes "exists"
    ∷ codes "base64offset"
    ∷ codes "windash"
    ∷ codes "utf16"
    ∷ codes "utf16le"
    ∷ codes "utf16be"
    ∷ codes "wide"
    ∷ codes "fieldref"
    ∷ []

unfoldable pub unknown_modifiers : List Text → List Text
unknown_modifiers = filter (λ m. not (member m supported_modifiers))

unfoldable pub targets : Value → List Text
targets (scalar s) = s ∷ []
targets (many ss) = ss

unfoldable pub pattern_list : Patterns → List Text
pattern_list (one p) = p ∷ []
pattern_list (several ps) = ps

unfoldable pub windash_variants : Text → List Text
unfolding replace_char
windash_variants v =
    v ∷ replace_char b'-' b'/' v ∷ replace_char b'-' 0x2013 v ∷ replace_char b'-' 0x2014 v ∷ []

-- `next((m for m in mods if m in ("contains", "startswith", "endswith", "re")), "equals")`
unfoldable pub mode_of : List Text → Mode
mode_of [] = equals
mode_of (m ∷ mods) =
    if m == codes "contains"
    then contains
    else if m == codes "startswith"
    then startswith
    else if m == codes "endswith"
    then endswith
    else if m == codes "re"
    then re
    else mode_of mods

unfoldable pub numeric_of : List Text → Option Numeric
numeric_of [] = none
numeric_of (m ∷ mods) =
    if m == codes "gt"
    then some gt
    else if m == codes "gte"
    then some gte
    else if m == codes "lt"
    then some lt
    else if m == codes "lte"
    then some lte
    else numeric_of mods

module _ (library : Library) where
  open library use {Float, parse_float, re_search, in_network}

  unfoldable pub match_text : Text → Text → Mode → Bool → Bool
  match_text target pattern re cased = re_search cased pattern target
  match_text target pattern contains cased =
      full_match cased (any_text ∷ (wildcard_to_regex pattern ++ any_text ∷ [])) target
  match_text target pattern startswith cased =
      full_match cased (wildcard_to_regex pattern ++ any_text ∷ []) target
  match_text target pattern endswith cased =
      full_match cased (any_text ∷ wildcard_to_regex pattern) target
  match_text target pattern equals cased = full_match cased (wildcard_to_regex pattern) target

  unfoldable pub cidr_match : Text → Text → Bool
  cidr_match target pattern = in_network (strip target) pattern

  -- the dictionary of comparisons
  unfoldable pub compare_floats : Numeric → Float → Float → Bool
  compare_floats gt left right = library.lt right left
  compare_floats gte left right = library.le right left
  compare_floats lt left right = library.lt left right
  compare_floats lte left right = library.le left right

  unfoldable pub numeric_compare : Value → Text → Numeric → Bool
  unfolding compare_floats
  numeric_compare (many ss) pattern op = false
  numeric_compare (scalar s) pattern op = elim (parse_float s) [
    | none ↦ false
    | some left ↦ elim (parse_float pattern) [
      | none ↦ false
      | some right ↦ compare_floats op left right
    ]
  ]

  -- the test of one candidate against one target, in the loop over the candidates
  unfoldable pub match_candidate : List Text → Text → Text → Bool
  match_candidate mods target candidate =
      let cased = member (codes "cased") mods in
      let mode = mode_of mods in
      if member (codes "cidr") mods
      then cidr_match target candidate
      else if member (codes "windash") mods
      then any (λ v. match_text target v mode cased) (windash_variants candidate)
      else match_text target candidate mode cased

  unfoldable pub candidates : List Text → Text → List Text
  candidates mods pattern =
      if member (codes "base64offset") mods then base64_variants pattern else pattern ∷ []

  -- one pattern against one value
  unfoldable pub match_value : List Text → Text → Value → Bool
  unfolding candidates
  match_value mods pattern value = elim (numeric_of mods) [
    | some op ↦ numeric_compare value pattern op
    | none ↦
        any (λ target. any (match_candidate mods target) (candidates mods pattern)) (targets value)
  ]

  -- `str(p).strip().lower() in ("true", "1", "yes")`
  unfoldable pub wants_present : Text → Bool
  wants_present p =
      let s = lower (strip p) in s == codes "true" || (s == codes "1" || s == codes "yes")

  module _ {Event : Type 0} (get_values : Event → Text → List Value)
      (has_field : Event → Text → Bool) where
    unfoldable pub exists_predicate : Text → List Text → Event → Bool
    exists_predicate field patterns event =
        let present = has_field event field in
        any (λ p. elim present [ true ↦ wants_present p | false ↦ not (wants_present p) ]) patterns

    -- all patterns, or any, against the values of the field
    unfoldable pub values_predicate : List Text → List Text → List Value → Bool
    values_predicate mods patterns [] = false
    values_predicate mods patterns (v ∷ vs) =
        let matched = λ (pattern : Text). any (match_value mods pattern) (v ∷ vs) in
        if member (codes "all") mods then all matched patterns else any matched patterns

    unfoldable pub field_predicate : Text → List Text → List Text → Event → Bool
    unfolding exists_predicate values_predicate
    field_predicate field mods patterns event =
        if member (codes "exists") mods
        then exists_predicate field patterns event
        else values_predicate mods patterns (get_values event field)

    unfoldable pub compile_known :
        Text → List Text → Patterns → Option (Event → Bool) × List Problem
    compile_known field mods patterns =
        if member (codes "fieldref") mods
        then (none, fieldref_not_supported ∷ [])
        else (some (field_predicate field mods (pattern_list patterns)), [])

    unfoldable pub compile_field_match :
        Text → List Text → Patterns → Option (Event → Bool) × List Problem
    unfolding compile_known unknown_modifiers
    compile_field_match field modifiers patterns =
        let mods = map lower modifiers in
        elim (unknown_modifiers mods) [
          | [] ↦ compile_known field mods patterns
          | m ∷ ms ↦ (none, unsupported_modifiers (m ∷ ms) ∷ [])
        ]

-- `level_to_severity`
unfoldable pub level_to_severity : Option Text → Text
level_to_severity level =
    let s = lower (strip (elim level [ none ↦ [] | some l ↦ l ])) in
    if s == codes "informational"
    then codes "INFO"
    else if s == codes "low"
    then codes "LOW"
    else if s == codes "medium"
    then codes "MEDIUM"
    else if s == codes "high"
    then codes "HIGH"
    else if s == codes "critical"
    then codes "CRITICAL"
    else codes "MEDIUM"
