-- ===== src/Sigma/Selection/Complete/Selections.antt =====
-- What the tests of one selection mean, for each form of a selection
-- (aegis-brain/app/rules/sigma/compiler.py, build_selection).
use aegis_ecosystem.Prelude.{
  ◌≡◌, refl, ap, ◌∙◌, Bool, List-cases, member, eq_text, true, false, ◌&&◌, ◌||◌, none, some, List,
  [], ◌∷◌, map, arith, Text, codes, lower, strip, any, if◌then◌else◌, Bool-cases, inl, inr,
}
use aegis_ecosystem.Sigma.Matcher.{
  Library, Patterns, one, several, Problem, pattern_list, field_predicate, compile_field_match,
  compile_known, unknown_modifiers,
}
use aegis_ecosystem.Sigma.Selection.{
  Spec, keyword, fields, alternatives, other, Specs, nil, cons, split_field, is_null_field,
  EventType, Compiled, keyword_predicate, or_predicate, and_predicate, null_field, build_field,
  collect, build_fields, finish_fields, collect_part, finish_parts, build_selection, build_parts,
}

module _ (library : Library) (type : EventType) where
  open type use {Event, get_values, has_field}

  -- A field holds if it is a null field and one of its keywords is found, or if its test holds.
  unfoldable pub field_holds : Text → Patterns → Event → Bool
  field_holds raw_field patterns event =
      let (field, modifiers) = split_field raw_field in
      if is_null_field field
      then any (λ word. keyword_predicate library type word event) (pattern_list patterns)
      else field_predicate library get_values has_field (strip field) (map lower modifiers)
          (pattern_list patterns) event

  unfoldable pub fields_hold : List (Text × Patterns) → Event → Bool
  fields_hold [] event = true
  fields_hold ((raw_field, patterns) ∷ items) event =
      field_holds raw_field patterns event && fields_hold items event

  -- A dictionary holds if all its fields do, a list if one of its items does.
  unfoldable mutual
    pub spec_holds : Spec → Event → Bool
    spec_holds (fields items) event = fields_hold items event
    spec_holds (alternatives items) event = one_holds items event
    spec_holds (keyword word) event = keyword_predicate library type word event
    spec_holds other event = false

    pub one_holds : Specs → Event → Bool
    one_holds nil event = false
    one_holds (cons item items) event = spec_holds item event || one_holds items event

  -- A compiled test without problems is a predicate that means v.
  abbrev pub Faithful : (Event → Bool) → Compiled type → Type 0
  Faithful v (some p, []) = (event : Event) → p event ≡ v event
  Faithful v (none, []) = ⊥
  Faithful v (o, x ∷ xs) = Unit

  -- The predicates collected without problems mean v together.
  abbrev pub Together :
      (List (Event → Bool) → Event → Bool)
      → (Event → Bool)
      → List (Event → Bool) × List Problem
      → Type 0
  Together join v (ps, []) = (event : Event) → join ps event ≡ v event
  Together join v (ps, x ∷ xs) = Unit

  pub any-map :
      (ps : List Text) (event : Event)
      → any (λ part. part event) (map (keyword_predicate library type) ps)
        ≡ any (λ word. keyword_predicate library type word event) ps
  any-map [] event = refl
  any-map (p ∷ ps) event = ap (◌||◌ (keyword_predicate library type p event)) (any-map ps event)

  pub null_field-any :
      (patterns : Patterns) (event : Event)
      → null_field library type patterns event
        ≡ any (λ word. keyword_predicate library type word event) (pattern_list patterns)
  unfolding null_field pattern_list or_predicate
  null_field-any (one p) event = ground arith
  null_field-any (several ps) event = any-map ps event

  pub Faithful-eq :
      (v w : Event → Bool) (r : Compiled type)
      → ((event : Event) → v event ≡ w event)
      → Faithful v r
      → Faithful w r
  Faithful-eq v w (some p, []) e h = λ event. h event ∙ e event
  Faithful-eq v w (some p, x ∷ xs) e h = tt
  Faithful-eq v w (none, []) e h = h
  Faithful-eq v w (none, x ∷ xs) e h = tt

  pub compile_field_match-Faithful :
      (field : Text) (modifiers : List Text) (patterns : Patterns)
      → Faithful
          (field_predicate library get_values has_field field
            (map lower modifiers)
            (pattern_list patterns))
          (compile_field_match library get_values has_field field modifiers patterns)
  unfolding compile_field_match compile_known
  compile_field_match-Faithful field modifiers patterns =
      elim (List-cases (unknown_modifiers (map lower modifiers))) [
        | inr (m, ms, e) ↦ rw (e, compile_field_match) tt
        | inl e ↦
            rw (e, compile_field_match)
              (elim (Bool-cases (member (codes "fieldref") (map lower modifiers))) [
                | inl p ↦ rw (p, compile_known) tt
                | inr p ↦ rw (p, compile_known) (λ event. refl)
              ])
      ]

  pub build_field-Faithful :
      (raw_field : Text) (patterns : Patterns)
      → Faithful (field_holds raw_field patterns) (build_field library type raw_field patterns)
  unfolding build_field field_holds
  build_field-Faithful raw_field patterns =
      elim (Bool-cases (is_null_field (split_field raw_field).0)) [
        | inl p ↦ rw (p, build_field) (λ event. rw (p, field_holds) (null_field-any patterns event))
        | inr p ↦
            rw (p, build_field)
              (Faithful-eq
                (field_predicate library get_values has_field (strip (split_field raw_field).0)
                  (map lower (split_field raw_field).1) (pattern_list patterns))
                (field_holds raw_field patterns)
                (compile_field_match library get_values has_field (strip (split_field raw_field).0)
                  (split_field raw_field).1 patterns)
                (λ event. rw (p, field_holds) refl)
                (compile_field_match-Faithful (strip (split_field raw_field).0)
                  (split_field raw_field).1 patterns))
      ]

  pub collect-Together :
      (v w : Event → Bool) (r : Compiled type) (rest : List (Event → Bool) × List Problem)
      → Faithful v r
      → Together (and_predicate library type) w rest
      → Together
          (and_predicate library type)
          (λ event. v event && w event)
          (collect library type r rest)
  unfolding collect and_predicate
  collect-Together v w (some p, []) (ps, []) h k = λ event. ground (arith, h event, k event)
  collect-Together v w (some p, []) (ps, x ∷ xs) h k = tt
  collect-Together v w (none, []) (ps, xs) h k = absurd h
  collect-Together v w (some p, x ∷ xs) (ps, ys) h k = tt
  collect-Together v w (none, x ∷ xs) (ps, ys) h k = tt

  pub build_fields-Together :
      (items : List (Text × Patterns))
      → Together (and_predicate library type) (fields_hold items) (build_fields library type items)
  unfolding build_fields fields_hold
  build_fields-Together [] = unfold and_predicate in (λ event. refl)
  build_fields-Together ((raw_field, patterns) ∷ items) =
      collect-Together (field_holds raw_field patterns) (fields_hold items)
        (build_field library type raw_field patterns) (build_fields library type items)
        (build_field-Faithful raw_field patterns) (build_fields-Together items)

  pub finish_fields-Faithful :
      (v : Event → Bool) (r : List (Event → Bool) × List Problem)
      → Together (and_predicate library type) v r
      → Faithful v (finish_fields library type r)
  unfolding finish_fields
  finish_fields-Faithful v ([], []) h = tt
  finish_fields-Faithful v ([], x ∷ xs) h = tt
  finish_fields-Faithful v (p ∷ ps, []) h = h
  finish_fields-Faithful v (p ∷ ps, x ∷ xs) h = tt

  pub collect_part-Together :
      (v w : Event → Bool) (r : Compiled type) (rest : List (Event → Bool) × List Problem)
      → Faithful v r
      → Together (or_predicate library type) w rest
      → Together
          (or_predicate library type)
          (λ event. v event || w event)
          (collect_part library type r rest)
  unfolding collect_part or_predicate
  collect_part-Together v w (some p, []) (ps, []) h k = λ event. ground (arith, h event, k event)
  collect_part-Together v w (some p, []) (ps, x ∷ xs) h k = tt
  collect_part-Together v w (none, []) (ps, xs) h k = absurd h
  collect_part-Together v w (some p, x ∷ xs) (ps, ys) h k = tt
  collect_part-Together v w (none, x ∷ xs) (ps, ys) h k = tt

  pub finish_parts-Faithful :
      (v : Event → Bool) (r : List (Event → Bool) × List Problem)
      → Together (or_predicate library type) v r
      → Faithful v (finish_parts library type r)
  unfolding finish_parts
  finish_parts-Faithful v ([], []) h = tt
  finish_parts-Faithful v ([], x ∷ xs) h = tt
  finish_parts-Faithful v (p ∷ ps, []) h = h
  finish_parts-Faithful v (p ∷ ps, x ∷ xs) h = tt

  mutual
    unfolding build_selection build_parts spec_holds one_holds or_predicate

    pub build_selection-Faithful :
        (spec : Spec) → Faithful (spec_holds spec) (build_selection library type spec)
    build_selection-Faithful (fields items) =
        finish_fields-Faithful (fields_hold items) (build_fields library type items)
          (build_fields-Together items)
    build_selection-Faithful (alternatives items) =
        finish_parts-Faithful (one_holds items) (build_parts library type items)
          (build_parts-Together items)
    build_selection-Faithful (keyword word) = λ event. refl
    build_selection-Faithful other = tt

    build_parts-Together :
        (items : Specs)
        → Together (or_predicate library type) (one_holds items) (build_parts library type items)
    build_parts-Together nil = λ event. refl
    build_parts-Together (cons item items) =
        collect_part-Together (spec_holds item) (one_holds items)
          (build_selection library type item) (build_parts library type items)
          (build_selection-Faithful item) (build_parts-Together items)

  -- A selection that compiles with no problem compiles to a predicate that means the selection: no
  -- field, keyword or alternative of it is left out.
  pub build_selection-holds :
      (spec : Spec) (p : Event → Bool) (event : Event)
      → build_selection library type spec ≡ (some p, [])
      → p event ≡ spec_holds spec event
  build_selection-holds spec p event h = (rw h at (build_selection-Faithful spec)) event
  -- The results of the selections on an event, as compiled and as meant.
