-- ===== src/Sigma/Matcher/Modes.antt =====
-- What the string modes mean on patterns without wildcards, and which modifiers compile.
use aegis_ecosystem.Prelude.{
  all-filter, ◌≡◌, refl, ap, ◌∙◌, Bool, true, false, not, ◌&&◌, ◌||◌, Option, none, some, List, [],
  ◌∷◌, map, arith, Text, codes, lower, member, all, eq_text,
}
use aegis_ecosystem.Sigma.Wildcard.{literal, any_text, same_char, full_match, search_match}
use aegis_ecosystem.Sigma.Wildcard.Laws.{
  is_plain, wildcard_to_regex-plain, starts_with, prefix_match-literal, full_match-any_text,
  full_match-search_match,
}
use aegis_ecosystem.Sigma.Matcher.{
  Library, contains, startswith, endswith, equals, Value, Patterns, Problem, match_text,
  supported_modifiers, compile_field_match,
}

-- The pattern is the text, stands at its end, stands somewhere in it; character by character, with
-- the case or without.
abbrev pub same_text : Bool → Text → Text → Bool
same_text cased [] [] = true
same_text cased [] (d ∷ t) = false
same_text cased (c ∷ s) [] = false
same_text cased (c ∷ s) (d ∷ t) = same_char cased c d && same_text cased s t

abbrev pub ends_with : Bool → Text → Text → Bool
ends_with cased s [] = same_text cased s []
ends_with cased s (d ∷ t) = same_text cased s (d ∷ t) || ends_with cased s t

abbrev pub occurs_in : Bool → Text → Text → Bool
occurs_in cased s [] = starts_with cased s []
occurs_in cased s (d ∷ t) = starts_with cased s (d ∷ t) || occurs_in cased s t

full_match-literal :
    (cased : Bool) (s t : Text) → full_match cased (map literal s) t ≡ same_text cased s t
unfolding full_match
full_match-literal cased [] [] = refl
full_match-literal cased [] (d ∷ t) = refl
full_match-literal cased (c ∷ s) [] = refl
full_match-literal cased (c ∷ s) (d ∷ t) =
    ap (◌&&◌ (same_char cased c d)) (full_match-literal cased s t)

full_match-ends_with :
    (cased : Bool) (s t : Text)
    → full_match cased (any_text ∷ map literal s) t ≡ ends_with cased s t
unfolding full_match
full_match-ends_with cased s [] = full_match-literal cased s []
full_match-ends_with cased s (d ∷ t) =
    ground (arith, full_match-literal cased s (d ∷ t), full_match-ends_with cased s t)

search_match-occurs_in :
    (cased : Bool) (s t : Text) → search_match cased (map literal s) t ≡ occurs_in cased s t
unfolding search_match
search_match-occurs_in cased s [] = prefix_match-literal cased s []
search_match-occurs_in cased s (d ∷ t) =
    ground (arith, prefix_match-literal cased s (d ∷ t), search_match-occurs_in cased s t)

-- For every pattern without wildcards, in which a backslash stands before no wildcard and no other
-- backslash (as in a Windows path), each mode is the comparison of characters that it is named for.
pub match_text-plain :
    (library : Library) (pattern target : Text) (cased : Bool)
    → is_plain pattern ≡ true
    → (match_text library target pattern contains cased ≡ occurs_in cased pattern target)
      × (match_text library target pattern startswith cased ≡ starts_with cased pattern target)
      × (match_text library target pattern endswith cased ≡ ends_with cased pattern target)
      × (match_text library target pattern equals cased ≡ same_text cased pattern target)
unfolding match_text
match_text-plain library pattern target cased h = rw (wildcard_to_regex-plain pattern h) (
  full_match-search_match cased (map literal pattern) target
      ∙ search_match-occurs_in cased pattern target,
  full_match-any_text cased (map literal pattern) target
      ∙ prefix_match-literal cased pattern target,
  full_match-ends_with cased pattern target,
  full_match-literal cased pattern target,
)

-- The modifiers that the module implements, `fieldref` left out.
abbrev pub implements : List Text → Bool
implements mods =
    all (λ m. member m supported_modifiers) mods && not (member (codes "fieldref") mods)

abbrev pub is_compiled {ℓ} : {A : Type ℓ} → Option A × List Problem → Bool
is_compiled (some p, []) = true
is_compiled (some p, x ∷ xs) = false
is_compiled (none, xs) = false

abbrev pub is_refused {ℓ} : {A : Type ℓ} → Option A × List Problem → Bool
is_refused (none, x ∷ xs) = true
is_refused (none, []) = false
is_refused (some p, xs) = false

module _ (library : Library) {Event : Type 0} (get_values : Event → Text → List Value)
    (has_field : Event → Text → Bool) where
  -- A field test with any list of modifiers, in any case of letters, compiles to a predicate with
  -- no problem when every modifier is supported and none is `fieldref`, and else to no predicate
  -- with a problem.
  pub compile_field_match-implements :
      (field : Text) (modifiers : List Text) (patterns : Patterns)
      → (is_compiled (compile_field_match library get_values has_field field modifiers patterns)
          ≡ implements (map lower modifiers))
        × (is_refused (compile_field_match library get_values has_field field modifiers patterns)
            ≡ not (implements (map lower modifiers)))
  unfolding compile_field_match
  compile_field_match-implements field modifiers patterns =
      let known = all-filter (λ m. member m supported_modifiers) (map lower modifiers) in
      (ground arith, ground arith)
