-- ===== src/Sigma/Condition/Grammar/Parsing.antt =====
-- The parser on the tokens of a condition of the grammar.
use mathlib.Core.List.{append_assoc, append-nil}
use aegis_ecosystem.Prelude.{
  ℕ, zero, suc, ◌≤◌, ◌≡◌, refl, ap, Bool, false, not, ◌&&◌, ◌||◌, List, [], ◌∷◌, ◌++◌, arith, Text,
  codes, ◌==◌, eq_text,
}
use aegis_ecosystem.Sigma.Condition.{
  Parsed, ok, value_error, index_error, out_of_fuel, ◌>>=◌, Results, Condition, peeks, tail, close,
  or_expr, or_rest, and_expr, and_rest, not_expr, primary, finish, parse, enough,
}
use aegis_ecosystem.Sigma.Condition.Grammar.{
  Disjunction, or_last, or_more, Conjunction, and_last, and_more, Negation, plain, negated, Primary,
  name, set, group, or_tokens, and_tokens, not_tokens, primary_tokens, or_holds, and_holds,
  not_holds, primary_holds, OrValid, AndValid, NotValid, PrimaryValid,
}
use aegis_ecosystem.Sigma.Condition.Grammar.Meaning.{
  Means, Means-bind, Means-eq, or_cost, and_cost, not_cost, primary_cost, or_cost-le, not_cost-pos,
  and_cost-pos, peeks_not, peeks_self, close_self, close_stops, open_group, name-Means, and_stop,
  or_stop, regroup_and, regroup_or, set-Means,
}

-- By induction on the condition, for every rest of the tokens.
mutual
  unfolding or_cost and_cost not_cost primary_cost or_tokens and_tokens not_tokens primary_tokens
      OrValid AndValid NotValid PrimaryValid or_holds and_holds not_holds primary_holds or_expr
      or_rest and_expr and_rest not_expr primary tail

  primary-Means :
      (p : Primary) (f : ℕ) (names rest : List Text)
      → primary_cost p ≤ f
      → PrimaryValid names p
      → Means (λ s. primary_holds names s p) rest (primary f names (primary_tokens p ++ rest))
  primary-Means (name n) zero names rest le h = absurd (omega arith)
  primary-Means (set count target) zero names rest le h = absurd (omega arith)
  primary-Means (group o) zero names rest le h = absurd (omega arith)
  primary-Means (name n) (suc f) names rest le h =
      let e : (n == codes "(") ≡ false = ground arith in rw (e, primary) (name-Means names n rest h)
  primary-Means (set count target) (suc f) names rest le h =
      let e : (count == codes "(") ≡ false = ground arith in
      rw (e, primary) (set-Means names count target rest h)
  primary-Means (group o) (suc f) names rest le h =
      rw (open_group, primary)
        (rw append_assoc (
          Means-bind (Means (λ s. or_holds names s o) rest) (λ s. or_holds names s o)
            (codes ")" ∷ rest) (or_expr f names (or_tokens o ++ (codes ")" ∷ rest))) close
            (or-Means o f names (codes ")" ∷ rest) (omega arith) h (close_stops rest))
            (λ c e. rw (close_self c rest) (refl, e))))

  not-Means :
      (n : Negation) (f : ℕ) (names rest : List Text)
      → not_cost n ≤ f
      → NotValid names n
      → Means (λ s. not_holds names s n) rest (not_expr f names (not_tokens n ++ rest))
  not-Means (plain p) zero names rest le h = absurd (omega arith)
  not-Means (negated n) zero names rest le h = absurd (omega arith)
  not-Means (plain p) (suc f) names rest le h =
      rw (peeks_not names p rest h, not_expr) (primary-Means p f names rest (omega arith) h)
  not-Means (negated n) (suc f) names rest le h =
      rw ((peeks_self (not_tokens n ++ rest)).2, not_expr)
        (Means-bind (Means (λ s. not (not_holds names s n)) rest) (λ s. not_holds names s n) rest
          (not_expr f names (not_tokens n ++ rest)) (λ r. ok (λ s. not (r.0 s), r.1))
          (not-Means n f names rest (omega arith) h) (λ c e. (refl, λ s. ap not (e s))))

  and-Means :
      (a : Conjunction) (f : ℕ) (names rest : List Text)
      → and_cost a ≤ f
      → AndValid names a
      → peeks (codes "and") rest ≡ false
      → Means (λ s. and_holds names s a) rest (and_expr f names (and_tokens a ++ rest))
  and-Means (and_last n) zero names rest le h stop = absurd (omega arith)
  and-Means (and_more n a) zero names rest le h stop = absurd (omega arith)
  and-Means (and_last n) (suc f) names rest le h stop =
      Means-bind (Means (λ s. not_holds names s n) rest) (λ s. not_holds names s n) rest
        (not_expr f names (not_tokens n ++ rest)) (λ r. and_rest f names r.0 r.1)
        (not-Means n f names rest (omega arith) h)
        (λ c e.
          and_stop f names c rest (λ s. not_holds names s n) (omega (arith, not_cost-pos n)) stop e)
  and-Means (and_more n a) (suc f) names rest le h stop = rw append_assoc (
      Means-bind (Means (λ s. not_holds names s n && and_holds names s a) rest)
        (λ s. not_holds names s n) (codes "and" ∷ (and_tokens a ++ rest))
        (not_expr f names (not_tokens n ++ (codes "and" ∷ (and_tokens a ++ rest))))
        (λ r. and_rest f names r.0 r.1)
        (not-Means n f names (codes "and" ∷ (and_tokens a ++ rest)) (omega arith) h.0)
        (λ c e.
          Means-eq (λ s. c s && and_holds names s a)
            (λ s. not_holds names s n && and_holds names s a) rest
            (and_rest f names c (codes "and" ∷ (and_tokens a ++ rest)))
            (λ s. ap (λ b. b && and_holds names s a) (e s))
            (and_rest-Means a f names c rest (omega arith) h.1 stop)))

  and_rest-Means :
      (a : Conjunction) (f : ℕ) (names : List Text) (c : Condition) (rest : List Text)
      → and_cost a ≤ f
      → AndValid names a
      → peeks (codes "and") rest ≡ false
      → Means
          (λ s. c s && and_holds names s a)
          rest
          (and_rest f names c (codes "and" ∷ (and_tokens a ++ rest)))
  and_rest-Means (and_last n) zero names c rest le h stop = absurd (omega arith)
  and_rest-Means (and_more n a) zero names c rest le h stop = absurd (omega arith)
  and_rest-Means (and_last n) (suc f) names c rest le h stop =
      rw ((peeks_self (not_tokens n ++ rest)).0, and_rest)
        (Means-bind (Means (λ s. c s && not_holds names s n) rest) (λ s. not_holds names s n) rest
          (not_expr f names (not_tokens n ++ rest)) (λ r. and_rest f names (λ s. c s && r.0 s) r.1)
          (not-Means n f names rest (omega arith) h)
          (λ d e.
            and_stop f names (λ s. c s && d s) rest (λ s. c s && not_holds names s n)
              (omega (arith, not_cost-pos n)) stop (λ s. ap (◌&&◌ (c s)) (e s))))
  and_rest-Means (and_more n a) (suc f) names c rest le h stop = rw append_assoc (
      rw ((peeks_self (not_tokens n ++ (codes "and" ∷ (and_tokens a ++ rest)))).0, and_rest)
        (Means-bind (Means (λ s. c s && (not_holds names s n && and_holds names s a)) rest)
          (λ s. not_holds names s n) (codes "and" ∷ (and_tokens a ++ rest))
          (not_expr f names (not_tokens n ++ (codes "and" ∷ (and_tokens a ++ rest))))
          (λ r. and_rest f names (λ s. c s && r.0 s) r.1)
          (not-Means n f names (codes "and" ∷ (and_tokens a ++ rest)) (omega arith) h.0)
          (λ d e.
            Means-eq (λ s. (c s && d s) && and_holds names s a)
              (λ s. c s && (not_holds names s n && and_holds names s a)) rest
              (and_rest f names (λ s. c s && d s) (codes "and" ∷ (and_tokens a ++ rest)))
              (λ s. regroup_and (c s) (d s) (not_holds names s n) (and_holds names s a) (e s))
              (and_rest-Means a f names (λ s. c s && d s) rest (omega (arith, not_cost-pos n)) h.1
                stop))))

  or-Means :
      (o : Disjunction) (f : ℕ) (names rest : List Text)
      → or_cost o ≤ f
      → OrValid names o
      → (peeks (codes "or") rest ≡ false) × (peeks (codes "and") rest ≡ false)
      → Means (λ s. or_holds names s o) rest (or_expr f names (or_tokens o ++ rest))
  or-Means (or_last a) zero names rest le h stop = absurd (omega arith)
  or-Means (or_more a o) zero names rest le h stop = absurd (omega arith)
  or-Means (or_last a) (suc f) names rest le h stop =
      Means-bind (Means (λ s. and_holds names s a) rest) (λ s. and_holds names s a) rest
        (and_expr f names (and_tokens a ++ rest)) (λ r. or_rest f names r.0 r.1)
        (and-Means a f names rest (omega arith) h stop.1)
        (λ c e.
          or_stop f names c rest (λ s. and_holds names s a) (omega (arith, and_cost-pos a)) stop.0
            e)
  or-Means (or_more a o) (suc f) names rest le h stop = rw append_assoc (
      Means-bind (Means (λ s. and_holds names s a || or_holds names s o) rest)
        (λ s. and_holds names s a) (codes "or" ∷ (or_tokens o ++ rest))
        (and_expr f names (and_tokens a ++ (codes "or" ∷ (or_tokens o ++ rest))))
        (λ r. or_rest f names r.0 r.1)
        (and-Means a f names (codes "or" ∷ (or_tokens o ++ rest)) (omega arith) h.0
          (peeks_self (or_tokens o ++ rest)).4)
        (λ c e.
          Means-eq (λ s. c s || or_holds names s o) (λ s. and_holds names s a || or_holds names s o)
            rest (or_rest f names c (codes "or" ∷ (or_tokens o ++ rest)))
            (λ s. ap (λ b. b || or_holds names s o) (e s))
            (or_rest-Means o f names c rest (omega arith) h.1 stop)))

  or_rest-Means :
      (o : Disjunction) (f : ℕ) (names : List Text) (c : Condition) (rest : List Text)
      → or_cost o ≤ f
      → OrValid names o
      → (peeks (codes "or") rest ≡ false) × (peeks (codes "and") rest ≡ false)
      → Means
          (λ s. c s || or_holds names s o)
          rest
          (or_rest f names c (codes "or" ∷ (or_tokens o ++ rest)))
  or_rest-Means (or_last a) zero names c rest le h stop = absurd (omega arith)
  or_rest-Means (or_more a o) zero names c rest le h stop = absurd (omega arith)
  or_rest-Means (or_last a) (suc f) names c rest le h stop =
      rw ((peeks_self (and_tokens a ++ rest)).1, or_rest)
        (Means-bind (Means (λ s. c s || and_holds names s a) rest) (λ s. and_holds names s a) rest
          (and_expr f names (and_tokens a ++ rest)) (λ r. or_rest f names (λ s. c s || r.0 s) r.1)
          (and-Means a f names rest (omega arith) h stop.1)
          (λ d e.
            or_stop f names (λ s. c s || d s) rest (λ s. c s || and_holds names s a)
              (omega (arith, and_cost-pos a)) stop.0 (λ s. ap (◌||◌ (c s)) (e s))))
  or_rest-Means (or_more a o) (suc f) names c rest le h stop = rw append_assoc (
      rw ((peeks_self (and_tokens a ++ (codes "or" ∷ (or_tokens o ++ rest)))).1, or_rest)
        (Means-bind (Means (λ s. c s || (and_holds names s a || or_holds names s o)) rest)
          (λ s. and_holds names s a) (codes "or" ∷ (or_tokens o ++ rest))
          (and_expr f names (and_tokens a ++ (codes "or" ∷ (or_tokens o ++ rest))))
          (λ r. or_rest f names (λ s. c s || r.0 s) r.1)
          (and-Means a f names (codes "or" ∷ (or_tokens o ++ rest)) (omega arith) h.0
            (peeks_self (or_tokens o ++ rest)).4)
          (λ d e.
            Means-eq (λ s. (c s || d s) || or_holds names s o)
              (λ s. c s || (and_holds names s a || or_holds names s o)) rest
              (or_rest f names (λ s. c s || d s) (codes "or" ∷ (or_tokens o ++ rest)))
              (λ s. regroup_or (c s) (d s) (and_holds names s a) (or_holds names s o) (e s))
              (or_rest-Means o f names (λ s. c s || d s) rest (omega (arith, and_cost-pos a)) h.1
                stop))))

finish-Means :
    (v : Results → Bool) (m : Parsed (Condition × List Text))
    → Means v [] m
    → (c : Condition) × ((m >>= finish) ≡ ok c) × ((s : Results) → c s ≡ v s)
unfolding finish
finish-Means v (ok (c, [])) h = (c, refl, h.1)
finish-Means v (ok (c, t ∷ ts)) h = absurd (ground (arith, h.0))
finish-Means v value_error h = absurd h
finish-Means v index_error h = absurd h
finish-Means v out_of_fuel h = absurd h

-- The parser accepts the tokens of every condition of the grammar whose names and sets are known,
-- and what it compiles says on all results of the selections what the condition says: `or` binds
-- looser than `and`, `and` looser than `not`.
pub parse-holds :
    (names : List Text) (o : Disjunction)
    → OrValid names o
    → (c : Condition) × (parse names (or_tokens o) ≡ ok c)
      × ((s : Results) → c s ≡ or_holds names s o)
unfolding parse
parse-holds names o h =
    finish-Means (λ s. or_holds names s o) (or_expr (enough (or_tokens o)) names (or_tokens o))
      (rw append-nil at
        (or-Means o (enough (or_tokens o)) names [] (omega (arith, or_cost-le o)) h no_tokens))
  where
    no_tokens : (peeks (codes "or") [] ≡ false) × (peeks (codes "and") [] ≡ false)
    no_tokens = unfold peeks in (refl, refl)
