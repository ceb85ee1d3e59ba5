-- ===== src/Sigma/Engine/Firing.antt =====
-- When a rule fires, from its detection to its match.
use aegis_ecosystem.Prelude.{
  ◌≡◌, refl, sym, ap, ◌∙◌, Bool, true, ◌&&◌, some, List, [], ◌∷◌, arith, Text,
}
use aegis_ecosystem.Sigma.Matcher.{Library, Problem}
use aegis_ecosystem.Sigma.Condition.{
  Parsed, ok, value_error, index_error, out_of_fuel, Condition, Results, tokenize, parse,
  compile_tokens, compile_condition,
}
use aegis_ecosystem.Sigma.Condition.Grammar.{Disjunction, or_tokens, or_holds, OrValid}
use aegis_ecosystem.Sigma.Condition.Grammar.Parsing.{parse-holds}
use aegis_ecosystem.Sigma.Selection.{
  EventType, Detection, Rule, names_of, condition_text, build_selections, with_condition,
  compile_text, compile_detection, executable,
}
use aegis_ecosystem.Sigma.Selection.Complete.{results, meant, compile_detection_complete}
use aegis_ecosystem.Sigma.Engine.{
  Origin, logsource_matches, SigmaRule, selection_results, condition_holds, fires,
}

parse_of_compile :
    (names ts : List Text) (c : Condition) → compile_tokens names ts ≡ ok c → parse names ts ≡ ok c
unfolding compile_tokens
parse_of_compile names [] c h = absurd (ground arith)
parse_of_compile names (t ∷ ts) c h = h

ok-injective : (c d : Condition) → ◌≡◌ {A = Parsed Condition} (ok c) (ok d) → c ≡ d
ok-injective c d h = cc

-- What the text of a condition of the grammar compiles to.
compiled_condition :
    (s : Text) (names : List Text) (o : Disjunction) (c : Condition)
    → tokenize s ≡ or_tokens o
    → OrValid names o
    → compile_condition s names ≡ ok c
    → (x : Results) → c x ≡ or_holds names x o
unfolding compile_condition
compiled_condition s names o c t v h x =
    let (d, parsed, agrees) = parse-holds names o v in
    let p = parse_of_compile names (or_tokens o) c (rw t at h) in
    ap (λ (g : Condition). g x) (ok-injective c d (sym p ∙ parsed)) ∙ agrees x

module _ (library : Library) (type : EventType) where
  open type use {Event}

  -- The condition of an executable rule is the one that its text compiles to.
  abbrev HasCondition : Text → Rule library type → Type 0
  HasCondition s r =
      (c : Condition) × (r.condition ≡ some c)
      × (compile_condition s (names_of library type r.selections) ≡ ok c)

  with_condition-HasCondition :
      (s : Text) (ss : List (Text × (Event → Bool))) (xs : List Problem) (m : Parsed Condition)
      (r : Rule library type)
      → compile_condition s (names_of library type ss) ≡ m
      → with_condition library type ss xs m ≡ ok r
      → executable library type r ≡ true
      → HasCondition s r
  unfolding with_condition executable
  with_condition-HasCondition s ss xs (ok c) r e h x =
      let same : r.selections ≡ ss = ground arith in (c, ground arith, rw same e)
  with_condition-HasCondition s ss xs value_error r e h x = absurd (ground arith)
  with_condition-HasCondition s ss xs index_error r e h x = absurd (ground arith)
  with_condition-HasCondition s ss xs out_of_fuel r e h x = absurd (ground arith)

  compile_text-HasCondition :
      (parts : List (Text × (Event → Bool)) × List Problem) (s : Text) (r : Rule library type)
      → compile_text library type parts s ≡ ok r
      → executable library type r ≡ true
      → HasCondition s r
  unfolding compile_text
  compile_text-HasCondition (ss, []) [] r h x = absurd (unfold executable in ground arith)
  compile_text-HasCondition (ss, y ∷ xs) [] r h x = absurd (unfold executable in ground arith)
  compile_text-HasCondition (ss, xs) (c ∷ s) r h x =
      with_condition-HasCondition (c ∷ s) ss xs
        (compile_condition (c ∷ s) (names_of library type ss)) r refl h x

  compile_detection-HasCondition :
      (d : Detection library type) (r : Rule library type)
      → compile_detection library type d ≡ ok r
      → executable library type r ≡ true
      → HasCondition (condition_text library type d.condition) r
  unfolding compile_detection
  compile_detection-HasCondition d r h x =
      compile_text-HasCondition (build_selections library type d.selections)
        (condition_text library type d.condition) r h x

  -- Take a rule that compiles from a detection and is executable, with a condition text whose tokens
  -- are those of a condition of the grammar over the rule's selections. On every event the rule
  -- fires exactly when its logsource is about the event's origin and the condition holds of what
  -- the selections mean on that event.
  pub fires-detection :
      (d : Detection library type) (o : Disjunction) (r : SigmaRule library type) (origin : Origin)
      (event : Event)
      → compile_detection library type d ≡ ok r.rule
      → executable library type r.rule ≡ true
      → tokenize (condition_text library type d.condition) ≡ or_tokens o
      → OrValid (names_of library type r.rule.selections) o
      → fires library type origin r event ≡ (
          logsource_matches r.logsource origin
          && or_holds
              (names_of library type r.rule.selections)
              (meant library type d.selections event)
              o)
  unfolding fires selection_results condition_holds
  fires-detection d o r origin event h x t v =
      let (c, has, compiled) = compile_detection-HasCondition d r.rule h x in
      rw (has, fires)
        (ap (◌&&◌ (logsource_matches r.logsource origin)) (
          compiled_condition (condition_text library type d.condition)
            (names_of library type r.rule.selections) o c t v compiled
            (results library type r.rule.selections event)
          ∙ ap (λ y. or_holds (names_of library type r.rule.selections) y o)
              (compile_detection_complete library type d r.rule h x event)))
