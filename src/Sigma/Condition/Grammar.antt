-- ===== src/Sigma/Condition/Grammar.antt =====
-- The grammar of conditions, its meaning, and what the parser makes of a condition's tokens.
pub mod Meaning
pub mod Parsing
use aegis_ecosystem.Prelude.{
  zero, suc, ◌+◌, ◌≡◌, Bool, true, false, not, ◌&&◌, ◌||◌, Option, none, some, List, [], ◌∷◌, ◌++◌,
  Text, codes, lower, ◌==◌, eq_text, member,
}
use aegis_ecosystem.Sigma.Condition.{
  Results, result_of, Quantifier, quantifier_of, resolve_set, quantify,
}

-- Disjunctions of conjunctions of negated primaries; a primary is a name, a quantified set or a
-- disjunction in parentheses.
mutual
  pub data Disjunction : Type 0 where
    or_last : Conjunction → Disjunction
    or_more : Conjunction → Disjunction → Disjunction

  pub data Conjunction : Type 0 where
    and_last : Negation → Conjunction
    and_more : Negation → Conjunction → Conjunction

  pub data Negation : Type 0 where
    plain : Primary → Negation
    negated : Negation → Negation

  pub data Primary : Type 0 where
    name : Text → Primary
    set : Text → Text → Primary
    group : Disjunction → Primary

-- The tokens of a condition.
unfoldable mutual
  pub or_tokens : Disjunction → List Text
  or_tokens (or_last a) = and_tokens a
  or_tokens (or_more a o) = and_tokens a ++ (codes "or" ∷ or_tokens o)

  pub and_tokens : Conjunction → List Text
  and_tokens (and_last n) = not_tokens n
  and_tokens (and_more n a) = not_tokens n ++ (codes "and" ∷ and_tokens a)

  pub not_tokens : Negation → List Text
  not_tokens (plain p) = primary_tokens p
  not_tokens (negated n) = codes "not" ∷ not_tokens n

  pub primary_tokens : Primary → List Text
  primary_tokens (name n) = n ∷ []
  primary_tokens (set count target) = count ∷ codes "of" ∷ target ∷ []
  primary_tokens (group o) = codes "(" ∷ (or_tokens o ++ codes ")" ∷ [])

-- What a quantified set of names says; a word that is no quantifier says nothing.
unfoldable pub set_holds : Option Quantifier → List Text → Results → Bool
set_holds none ns s = false
set_holds (some q) ns s = quantify q ns s

-- What a condition says of the results of the selections.
unfoldable mutual
  pub or_holds : List Text → Results → Disjunction → Bool
  or_holds names s (or_last a) = and_holds names s a
  or_holds names s (or_more a o) = and_holds names s a || or_holds names s o

  pub and_holds : List Text → Results → Conjunction → Bool
  and_holds names s (and_last n) = not_holds names s n
  and_holds names s (and_more n a) = not_holds names s n && and_holds names s a

  pub not_holds : List Text → Results → Negation → Bool
  not_holds names s (plain p) = primary_holds names s p
  not_holds names s (negated n) = not (not_holds names s n)

  pub primary_holds : List Text → Results → Primary → Bool
  primary_holds names s (name n) = result_of s n
  primary_holds names s (set count target) =
      set_holds (quantifier_of count) (resolve_set names target) s
  primary_holds names s (group o) = or_holds names s o

-- A word that the parser reads as the start of a primary.
abbrev pub is_word : Text → Bool
is_word t = not (t == codes "(") && not (lower t == codes "not")

abbrev pub is_some {ℓ} : {A : Type ℓ} → Option A → Bool
is_some none = false
is_some (some a) = true

abbrev pub is_cons {ℓ} : {A : Type ℓ} → List A → Bool
is_cons [] = false
is_cons (x ∷ xs) = true

-- Names are known selections that are no quantifier, sets have a quantifier and at least one name.
unfoldable mutual
  pub OrValid : List Text → Disjunction → Type 0
  OrValid names (or_last a) = AndValid names a
  OrValid names (or_more a o) = AndValid names a × OrValid names o

  pub AndValid : List Text → Conjunction → Type 0
  AndValid names (and_last n) = NotValid names n
  AndValid names (and_more n a) = NotValid names n × AndValid names a

  pub NotValid : List Text → Negation → Type 0
  NotValid names (plain p) = PrimaryValid names p
  NotValid names (negated n) = NotValid names n

  pub PrimaryValid : List Text → Primary → Type 0
  PrimaryValid names (name n) =
      (is_word n ≡ true) × (quantifier_of n ≡ none) × (member n names ≡ true)
  PrimaryValid names (set count target) =
      (is_word count ≡ true)
      × (is_some (quantifier_of count) ≡ true)
      × (is_cons (resolve_set names target) ≡ true)
  PrimaryValid names (group o) = OrValid names o
