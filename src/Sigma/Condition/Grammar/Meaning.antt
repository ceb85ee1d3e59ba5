-- ===== src/Sigma/Condition/Grammar/Meaning.antt =====
-- What the parser leaves and says, and how its steps follow on each other.
use aegis_ecosystem.Prelude.{
  ℕ, zero, suc, ◌+◌, ◌*◌, ◌≤◌, ◌≡◌, refl, ◌∙◌, Bool, true, false, ◌&&◌, ◌||◌, some, List, [], ◌∷◌,
  ◌++◌, arith, Text, codes, lower, lower_char, text_eq, length, length-append, ◌==◌, eq_text,
  Option-cases, inl, inr,
}
use aegis_ecosystem.Sigma.Condition.{
  Parsed, ok, value_error, index_error, out_of_fuel, ◌>>=◌, Results, Condition, result_of, peeks,
  tail, Quantifier, quantifier_of, resolve_set, quantify, quantified, take_set, selection,
  quantifier_or_selection, close, or_rest, and_rest,
}
use aegis_ecosystem.Sigma.Condition.Grammar.{
  Disjunction, or_last, or_more, Conjunction, and_last, and_more, Negation, plain, negated, Primary,
  name, set, group, or_tokens, and_tokens, not_tokens, primary_tokens, primary_holds, is_cons,
  PrimaryValid, set_holds,
}

-- The parser leaves `rest`, and its condition says `v`.
abbrev pub Means : (Results → Bool) → List Text → Parsed (Condition × List Text) → Type 0
Means v rest (ok (c, ts)) = (ts ≡ rest) × ((s : Results) → c s ≡ v s)
Means v rest value_error = ⊥
Means v rest index_error = ⊥
Means v rest out_of_fuel = ⊥

pub Means-bind :
    (Q : Parsed (Condition × List Text) → Type 0) (v : Results → Bool) (rest : List Text)
    (m : Parsed (Condition × List Text))
    (f : Condition × List Text → Parsed (Condition × List Text))
    → Means v rest m
    → ((c : Condition) → ((s : Results) → c s ≡ v s) → Q (f (c, rest)))
    → Q (m >>= f)
Means-bind Q v rest (ok (c, ts)) f h g = rw (h.0) (g c h.1)
Means-bind Q v rest value_error f h g = absurd h
Means-bind Q v rest index_error f h g = absurd h
Means-bind Q v rest out_of_fuel f h g = absurd h

pub Means-eq :
    (v w : Results → Bool) (rest : List Text) (r : Parsed (Condition × List Text))
    → ((s : Results) → v s ≡ w s)
    → Means v rest r
    → Means w rest r
Means-eq v w rest (ok (c, ts)) e h = (h.0, λ s. h.1 s ∙ e s)
Means-eq v w rest value_error e h = h
Means-eq v w rest index_error e h = h
Means-eq v w rest out_of_fuel e h = h

-- The fuel that the parser takes on the tokens of a condition.
unfoldable mutual
  pub or_cost : Disjunction → ℕ
  or_cost (or_last a) = 1 + and_cost a
  or_cost (or_more a o) = 1 + (and_cost a + or_cost o)

  pub and_cost : Conjunction → ℕ
  and_cost (and_last n) = 1 + not_cost n
  and_cost (and_more n a) = 1 + (not_cost n + and_cost a)

  pub not_cost : Negation → ℕ
  not_cost (plain p) = 1 + primary_cost p
  not_cost (negated n) = 1 + not_cost n

  pub primary_cost : Primary → ℕ
  primary_cost (name n) = 1
  primary_cost (set count target) = 1
  primary_cost (group o) = 1 + or_cost o

mutual
  unfolding or_cost and_cost not_cost primary_cost or_tokens and_tokens not_tokens primary_tokens

  pub or_cost-le : (o : Disjunction) → or_cost o ≤ 4 * length (or_tokens o)
  or_cost-le (or_last a) = omega (arith, and_cost-le a)
  or_cost-le (or_more a o) =
      omega (
        arith,
        and_cost-le a,
        or_cost-le o,
        length-append (and_tokens a) (codes "or" ∷ or_tokens o),
      )

  pub and_cost-le : (a : Conjunction) → and_cost a + 1 ≤ 4 * length (and_tokens a)
  and_cost-le (and_last n) = omega (arith, not_cost-le n)
  and_cost-le (and_more n a) = omega (
    arith,
    not_cost-le n,
    and_cost-le a,
    length-append (not_tokens n) (codes "and" ∷ and_tokens a),
  )

  pub not_cost-le : (n : Negation) → not_cost n + 2 ≤ 4 * length (not_tokens n)
  not_cost-le (plain p) = omega (arith, primary_cost-le p)
  not_cost-le (negated n) = omega (arith, not_cost-le n)

  pub primary_cost-le : (p : Primary) → primary_cost p + 3 ≤ 4 * length (primary_tokens p)
  primary_cost-le (name n) = omega arith
  primary_cost-le (set count target) = omega arith
  primary_cost-le (group o) =
      omega (arith, or_cost-le o, length-append (or_tokens o) (codes ")" ∷ []))

pub not_cost-pos : (n : Negation) → 2 ≤ not_cost n
unfolding not_cost primary_cost
not_cost-pos (plain (name n)) = omega arith
not_cost-pos (plain (set c t)) = omega arith
not_cost-pos (plain (group o)) = omega arith
not_cost-pos (negated n) = omega (arith, not_cost-pos n)

pub and_cost-pos : (a : Conjunction) → 3 ≤ and_cost a
unfolding and_cost
and_cost-pos (and_last n) = omega (arith, not_cost-pos n)
and_cost-pos (and_more n a) = omega (arith, not_cost-pos n)

-- A primary does not start with `not`.
pub peeks_not :
    (names : List Text) (p : Primary) (rest : List Text)
    → PrimaryValid names p
    → peeks (codes "not") (primary_tokens p ++ rest) ≡ false
unfolding peeks primary_tokens PrimaryValid
peeks_not names (name n) rest h = ground arith
peeks_not names (set count target) rest h = ground arith
peeks_not names (group o) rest h = unfold text_eq lower lower_char in refl

pub peeks_self :
    (rest : List Text)
    → (peeks (codes "and") (codes "and" ∷ rest) ≡ true)
      × (peeks (codes "or") (codes "or" ∷ rest) ≡ true)
      × (peeks (codes "not") (codes "not" ∷ rest) ≡ true)
      × (peeks (codes "of") (codes "of" ∷ rest) ≡ true)
      × (peeks (codes "and") (codes "or" ∷ rest) ≡ false)
unfolding peeks text_eq lower lower_char
peeks_self rest = (refl, refl, refl, refl, refl)

pub close_self : (c : Condition) (rest : List Text) → close (c, codes ")" ∷ rest) ≡ ok (c, rest)
unfolding close text_eq
close_self c rest = refl

pub close_stops :
    (rest : List Text)
    → (peeks (codes "or") (codes ")" ∷ rest) ≡ false)
      × (peeks (codes "and") (codes ")" ∷ rest) ≡ false)
unfolding peeks text_eq lower lower_char
close_stops rest = (refl, refl)

pub open_group : ◌≡◌ {A = Bool} (codes "(" == codes "(") true
unfolding text_eq
open_group = refl

pub name-Means :
    (names : List Text) (n : Text) (rest : List Text)
    → PrimaryValid names (name n)
    → Means (λ s. result_of s n) rest (quantifier_or_selection names n rest)
unfolding PrimaryValid quantifier_or_selection selection
name-Means names n rest h =
    rw (h.1, quantifier_or_selection) (rw (h.2, selection) (refl, λ s. refl))

pub quantified-Means :
    (q : Quantifier) (ns rest : List Text)
    → is_cons ns ≡ true
    → Means (quantify q ns) rest (quantified q ns rest)
unfolding quantified
quantified-Means q [] rest h = absurd (ground arith)
quantified-Means q (n ∷ ns) rest h = (refl, λ s. refl)

-- A loop stops at a token that is not its word.
pub and_stop :
    (f : ℕ) (names : List Text) (c : Condition) (rest : List Text) (v : Results → Bool)
    → 1 ≤ f
    → peeks (codes "and") rest ≡ false
    → ((s : Results) → c s ≡ v s)
    → Means v rest (and_rest f names c rest)
unfolding and_rest
and_stop zero names c rest v le stop e = absurd (omega arith)
and_stop (suc f) names c rest v le stop e = rw (stop, and_rest) (refl, e)

pub or_stop :
    (f : ℕ) (names : List Text) (c : Condition) (rest : List Text) (v : Results → Bool)
    → 1 ≤ f
    → peeks (codes "or") rest ≡ false
    → ((s : Results) → c s ≡ v s)
    → Means v rest (or_rest f names c rest)
unfolding or_rest
or_stop zero names c rest v le stop e = absurd (omega arith)
or_stop (suc f) names c rest v le stop e = rw (stop, or_rest) (refl, e)

pub regroup_and : (c d n a : Bool) → d ≡ n → ((c && d) && a) ≡ (c && (n && a))
regroup_and c d n a h = ground arith

pub regroup_or : (c d n a : Bool) → d ≡ n → ((c || d) || a) ≡ (c || (n || a))
regroup_or c d n a h = ground arith

pub set-holds :
    (names : List Text) (count target : Text) (s : Results) (q : Quantifier)
    → quantifier_of count ≡ some q
    → quantify q (resolve_set names target) s ≡ primary_holds names s (set count target)
unfolding primary_holds set_holds
set-holds names count target s q e = rw e

pub set-Means :
    (names : List Text) (count target : Text) (rest : List Text)
    → PrimaryValid names (set count target)
    → Means
        (λ s. primary_holds names s (set count target))
        rest
        (quantifier_or_selection names count (codes "of" ∷ target ∷ rest))
unfolding PrimaryValid quantifier_or_selection tail
set-Means names count target rest h = elim (Option-cases (quantifier_of count)) [
  | inl e ↦ absurd (ground arith)
  | inr (q, e) ↦
      rw (e, quantifier_or_selection)
        (rw ((peeks_self (target ∷ rest)).3) (
          Means-eq (quantify q (resolve_set names target))
            (λ s. primary_holds names s (set count target)) rest (take_set names q (target ∷ rest))
            (λ s. set-holds names count target s q e)
            (unfold take_set in quantified-Means q (resolve_set names target) rest h.2)))
]
