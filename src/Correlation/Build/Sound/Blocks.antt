-- ===== src/Correlation/Build/Sound/Blocks.antt =====
-- What a block of a correlation rule means, and that `_compile_match` of
-- aegis-brain/app/services/correlation.py compiles it to that.
use aegis_ecosystem.Prelude.{refl, Bool, true, false, ◌&&◌, List, [], ◌∷◌, map, Text, lower, strip}
use aegis_ecosystem.Sigma.Matcher.{Library, Patterns, Problem, pattern_list, field_predicate}
use aegis_ecosystem.Sigma.Selection.{EventType, split_field, and_predicate}
use aegis_ecosystem.Sigma.Selection.Complete.Selections.{
  Faithful, Together, compile_field_match-Faithful, collect-Together,
}
use aegis_ecosystem.Correlation.Build.{
  Block, entries, no_entries, match_field, match_fields, finish_match, compile_match,
}

module _ (library : Library) (type : EventType) where
  open type use {Event, get_values, has_field}

  -- What a block means: all its field tests hold.
  unfoldable pub entry_holds : Text → Patterns → Event → Bool
  entry_holds raw_field patterns event =
      let (name, modifiers) = split_field raw_field in
      field_predicate library get_values has_field (strip name) (map lower modifiers)
        (pattern_list patterns) event

  unfoldable pub entries_hold : List (Text × Patterns) → Event → Bool
  unfolding entry_holds
  entries_hold [] event = true
  entries_hold ((raw_field, patterns) ∷ items) event =
      entry_holds raw_field patterns event && entries_hold items event

  unfoldable pub block_holds : Block → Event → Bool
  unfolding entries_hold
  block_holds no_entries event = false
  block_holds (entries items) event = entries_hold items event

  pub match_fields-Together :
      (items : List (Text × Patterns))
      → Together library type
          (and_predicate library type)
          (entries_hold items)
          (match_fields library type items)
  unfolding match_fields entries_hold and_predicate entry_holds match_field
  match_fields-Together [] = λ event. refl
  match_fields-Together ((raw_field, patterns) ∷ items) =
      collect-Together library type (entry_holds raw_field patterns) (entries_hold items)
        (match_field library type raw_field patterns) (match_fields library type items)
        (compile_field_match-Faithful library type (strip (split_field raw_field).0)
          (split_field raw_field).1 patterns)
        (match_fields-Together items)

  pub finish_match-Faithful :
      (v : Event → Bool) (parts : List (Event → Bool) × List Problem)
      → Together library type (and_predicate library type) v parts
      → Faithful library type v (finish_match library type parts)
  unfolding finish_match
  finish_match-Faithful v ([], []) h = tt
  finish_match-Faithful v (p ∷ ps, []) h = h
  finish_match-Faithful v ([], x ∷ xs) h = tt
  finish_match-Faithful v (p ∷ ps, x ∷ xs) h = tt

  pub compile_match-Faithful :
      (b : Block) → Faithful library type (block_holds b) (compile_match library type b)
  unfolding compile_match block_holds
  compile_match-Faithful no_entries = tt
  compile_match-Faithful (entries []) = tt
  compile_match-Faithful (entries (x ∷ xs)) =
      finish_match-Faithful (entries_hold (x ∷ xs)) (match_fields library type (x ∷ xs))
        (match_fields-Together (x ∷ xs))
