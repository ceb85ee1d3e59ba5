-- ===== src/Sigma/Selection/Complete.antt =====
-- An executable rule runs every part of its detection: the meaning of selections, independent of how
-- they are compiled, and that an executable rule's predicates have it.
pub mod Selections
use aegis_ecosystem.Prelude.{
  ◌≡◌, refl, Bool, eq_text, true, none, some, List, [], ◌∷◌, map, arith, Text,
}
use aegis_ecosystem.Sigma.Matcher.{Library, Problem}
use aegis_ecosystem.Sigma.Condition.{
  Parsed, ok, value_error, index_error, out_of_fuel, Condition, compile_condition,
}
use aegis_ecosystem.Sigma.Selection.{
  Spec, EventType, Compiled, build_selection, Detection, Rule, condition_text, add_selection,
  build_selections, with_condition, compile_text, compile_detection, executable, names_of,
}
use aegis_ecosystem.Sigma.Selection.Complete.Selections.{
  spec_holds, build_selection-Faithful, Faithful,
}

module _ (library : Library) (type : EventType) where
  open type use {Event, get_values, has_field}

  abbrev pub results : List (Text × (Event → Bool)) → Event → List (Text × Bool)
  results ss event = map (λ x. (x.0, x.1 event)) ss

  abbrev pub meant : List (Text × Spec) → Event → List (Text × Bool)
  meant ds event = map (λ x. (x.0, spec_holds library type x.1 event)) ds

  abbrev Whole : List (Text × Spec) → List (Text × (Event → Bool)) × List Problem → Type 0
  Whole ds (ss, []) = (event : Event) → results ss event ≡ meant ds event
  Whole ds (ss, x ∷ xs) = Unit

  add_selection-Whole :
      (name : Text) (spec : Spec) (ds : List (Text × Spec)) (r : Compiled type)
      (rest : List (Text × (Event → Bool)) × List Problem)
      → Faithful library type (spec_holds library type spec) r
      → Whole ds rest
      → Whole ((name, spec) ∷ ds) (add_selection library type name r rest)
  unfolding add_selection
  add_selection-Whole name spec ds (some p, []) (ss, []) h k = λ event. cc (h event, k event)
  add_selection-Whole name spec ds (some p, []) (ss, x ∷ xs) h k = tt
  add_selection-Whole name spec ds (none, []) (ss, xs) h k = absurd h
  add_selection-Whole name spec ds (some p, x ∷ xs) (ss, ys) h k = tt
  add_selection-Whole name spec ds (none, x ∷ xs) (ss, ys) h k = tt

  build_selections-Whole : (ds : List (Text × Spec)) → Whole ds (build_selections library type ds)
  unfolding build_selections
  build_selections-Whole [] = λ event. refl
  build_selections-Whole ((name, spec) ∷ ds) =
      add_selection-Whole name spec ds (build_selection library type spec)
        (build_selections library type ds) (build_selection-Faithful library type spec)
        (build_selections-Whole ds)

  -- What an executable rule made of these parts says.
  abbrev IsComplete : List (Text × Spec) → Rule library type → Type 0
  IsComplete ds r = (event : Event) → results r.selections event ≡ meant ds event

  with_condition-IsComplete :
      (ds : List (Text × Spec)) (ss : List (Text × (Event → Bool))) (xs : List Problem)
      (c : Parsed Condition) (r : Rule library type)
      → Whole ds (ss, xs)
      → with_condition library type ss xs c ≡ ok r
      → executable library type r ≡ true
      → IsComplete ds r
  unfolding with_condition executable
  with_condition-IsComplete ds ss [] (ok c) r w h e = λ event. ground (arith, w event)
  with_condition-IsComplete ds ss (x ∷ xs) (ok c) r w h e = absurd (ground arith)
  with_condition-IsComplete ds ss [] value_error r w h e = absurd (ground arith)
  with_condition-IsComplete ds ss (x ∷ xs) value_error r w h e = absurd (ground arith)
  with_condition-IsComplete ds ss xs index_error r w h e = absurd (ground arith)
  with_condition-IsComplete ds ss xs out_of_fuel r w h e = absurd (ground arith)

  compile_text-IsComplete :
      (ds : List (Text × Spec)) (parts : List (Text × (Event → Bool)) × List Problem) (s : Text)
      (r : Rule library type)
      → Whole ds parts
      → compile_text library type parts s ≡ ok r
      → executable library type r ≡ true
      → IsComplete ds r
  unfolding compile_text
  compile_text-IsComplete ds (ss, []) [] r w h e = absurd (unfold executable in ground arith)
  compile_text-IsComplete ds (ss, x ∷ xs) [] r w h e = absurd (unfold executable in ground arith)
  compile_text-IsComplete ds (ss, xs) (c ∷ s) r w h e =
      with_condition-IsComplete ds ss xs (compile_condition (c ∷ s) (names_of library type ss)) r w
        h e

  -- A rule that compiles from a detection and is executable evaluates every selection of the
  -- detection, under its name and in order, and each result is what the selection means.
  pub compile_detection_complete :
      (d : Detection library type) (r : Rule library type)
      → compile_detection library type d ≡ ok r
      → executable library type r ≡ true
      → (event : Event) → results r.selections event ≡ meant d.selections event
  unfolding compile_detection
  compile_detection_complete d r h e =
      compile_text-IsComplete d.selections (build_selections library type d.selections)
        (condition_text library type d.condition) r (build_selections-Whole d.selections) h e
