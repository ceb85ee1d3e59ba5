-- ===== src/Sigma/Condition/Total.antt =====
-- The fuel of the parser is enough, whatever the tokens.
use aegis_ecosystem.Prelude.{
  ℕ, zero, suc, ◌+◌, ◌*◌, ◌≤◌, ◌≡◌, ◌≢◌, refl, true, not, ◌&&◌, ◌||◌, List, [], ◌∷◌, arith, Text,
  codes, length, ◌==◌, eq_text, member, Bool-cases, Option-cases, inl, inr,
}
use aegis_ecosystem.Sigma.Condition.{
  Parsed, ok, value_error, index_error, out_of_fuel, ◌>>=◌, Condition, peeks, tail, Quantifier,
  quantifier_of, resolve_set, quantified, take_set, selection, quantifier_or_selection, close,
  or_expr, or_rest, and_expr, and_rest, not_expr, primary, finish, parse, compile_tokens,
  compile_condition, tokenize, enough,
}

-- The parser came to an end, and left at most n tokens.
abbrev Settled : ℕ → Parsed (Condition × List Text) → Type 0
Settled n (ok (c, ts)) = length ts ≤ n
Settled n value_error = Unit
Settled n index_error = Unit
Settled n out_of_fuel = ⊥

Settled-bind :
    (n k : ℕ) (m : Parsed (Condition × List Text))
    (f : Condition × List Text → Parsed (Condition × List Text))
    → Settled n m
    → ((c : Condition) (ts : List Text) → length ts ≤ n → Settled k (f (c, ts)))
    → Settled k (m >>= f)
Settled-bind n k (ok (c, ts)) f h g = g c ts h
Settled-bind n k value_error f h g = tt
Settled-bind n k index_error f h g = tt
Settled-bind n k out_of_fuel f h g = h

length-tail :
    (word : Text) (ts : List Text) → peeks word ts ≡ true → length ts ≡ suc (length (tail ts))
unfolding peeks tail
length-tail word [] h = cc
length-tail word (t ∷ ts) h = refl

length-tail-le : (ts : List Text) → length (tail ts) ≤ length ts
unfolding tail
length-tail-le [] = omega arith
length-tail-le (t ∷ ts) = omega arith

Settled-quantified :
    (n : ℕ) (q : Quantifier) (ns rest : List Text)
    → length rest ≤ n
    → Settled n (quantified q ns rest)
unfolding quantified
Settled-quantified n q [] rest h = tt
Settled-quantified n q (m ∷ ns) rest h = h

Settled-take_set :
    (n : ℕ) (names : List Text) (q : Quantifier) (ts : List Text)
    → length ts ≤ n
    → Settled n (take_set names q ts)
unfolding take_set
Settled-take_set n names q [] h = tt
Settled-take_set n names q (t ∷ ts) h =
    Settled-quantified n q (resolve_set names t) ts (omega arith)

Settled-selection :
    (n : ℕ) (names : List Text) (t : Text) (ts : List Text)
    → length ts ≤ n
    → Settled n (selection names t ts)
unfolding selection
Settled-selection n names t ts h = elim (Bool-cases (member t names)) [
  | inl p ↦ rw p h
  | inr p ↦ rw p tt
]

Settled-quantifier_or_selection :
    (n : ℕ) (names : List Text) (t : Text) (ts : List Text)
    → length ts ≤ n
    → Settled n (quantifier_or_selection names t ts)
unfolding quantifier_or_selection
Settled-quantifier_or_selection n names t ts h = elim (Option-cases (quantifier_of t)) [
  | inl e ↦ rw (e, quantifier_or_selection) (Settled-selection n names t ts h)
  | inr (q, e) ↦
      rw (e, quantifier_or_selection)
        (elim (Bool-cases (peeks (codes "of") ts)) [
          | inl p ↦ rw p (Settled-take_set n names q (tail ts) (omega (arith, length-tail-le ts)))
          | inr p ↦ rw p (Settled-selection n names t ts h)
        ])
]

Settled-close : (n : ℕ) (c : Condition) (ts : List Text) → length ts ≤ n → Settled n (close (c, ts))
unfolding close
Settled-close n c [] h = tt
Settled-close n c (t ∷ ts) h = elim (Bool-cases (t == codes ")")) [
  | inl p ↦ rw p (omega arith)
  | inr p ↦ rw p tt
]

-- By induction on the fuel, for all six functions at once.
mutual
  unfolding or_expr or_rest and_expr and_rest not_expr primary

  Settled-or_expr :
      (f : ℕ) (names ts : List Text)
      → 4 * length ts + 4 ≤ f
      → Settled (length ts) (or_expr f names ts)
  Settled-or_expr zero names ts h = absurd (omega arith)
  Settled-or_expr (suc f) names ts h =
      Settled-bind (length ts) (length ts) (and_expr f names ts) (λ r. or_rest f names r.0 r.1)
        (Settled-and_expr f names ts (omega arith))
        (λ c ts' le. Settled-or_rest f names c ts' (length ts) (omega arith) le)

  Settled-or_rest :
      (f : ℕ) (names : List Text) (c : Condition) (ts : List Text) (n : ℕ)
      → 4 * length ts + 1 ≤ f
      → length ts ≤ n
      → Settled n (or_rest f names c ts)
  Settled-or_rest zero names c ts n h le = absurd (omega arith)
  Settled-or_rest (suc f) names c ts n h le = elim (Bool-cases (peeks (codes "or") ts)) [
    | inr p ↦ rw (p, or_rest) le
    | inl p ↦
        let e = length-tail (codes "or") ts p in
        rw (p, or_rest)
          (Settled-bind (length (tail ts)) n (and_expr f names (tail ts))
            (λ r. or_rest f names (λ s. c s || r.0 s) r.1)
            (Settled-and_expr f names (tail ts) (omega arith))
            (λ d ts' le'.
              Settled-or_rest f names (λ s. c s || d s) ts' n (omega arith) (omega arith)))
  ]

  Settled-and_expr :
      (f : ℕ) (names ts : List Text)
      → 4 * length ts + 3 ≤ f
      → Settled (length ts) (and_expr f names ts)
  Settled-and_expr zero names ts h = absurd (omega arith)
  Settled-and_expr (suc f) names ts h =
      Settled-bind (length ts) (length ts) (not_expr f names ts) (λ r. and_rest f names r.0 r.1)
        (Settled-not_expr f names ts (omega arith))
        (λ c ts' le. Settled-and_rest f names c ts' (length ts) (omega arith) le)

  Settled-and_rest :
      (f : ℕ) (names : List Text) (c : Condition) (ts : List Text) (n : ℕ)
      → 4 * length ts + 1 ≤ f
      → length ts ≤ n
      → Settled n (and_rest f names c ts)
  Settled-and_rest zero names c ts n h le = absurd (omega arith)
  Settled-and_rest (suc f) names c ts n h le = elim (Bool-cases (peeks (codes "and") ts)) [
    | inr p ↦ rw (p, and_rest) le
    | inl p ↦
        let e = length-tail (codes "and") ts p in
        rw (p, and_rest)
          (Settled-bind (length (tail ts)) n (not_expr f names (tail ts))
            (λ r. and_rest f names (λ s. c s && r.0 s) r.1)
            (Settled-not_expr f names (tail ts) (omega arith))
            (λ d ts' le'.
              Settled-and_rest f names (λ s. c s && d s) ts' n (omega arith) (omega arith)))
  ]

  Settled-not_expr :
      (f : ℕ) (names ts : List Text)
      → 4 * length ts + 2 ≤ f
      → Settled (length ts) (not_expr f names ts)
  Settled-not_expr zero names ts h = absurd (omega arith)
  Settled-not_expr (suc f) names ts h = elim (Bool-cases (peeks (codes "not") ts)) [
    | inr p ↦ rw (p, not_expr) (Settled-primary f names ts (omega arith))
    | inl p ↦
        let e = length-tail (codes "not") ts p in
        rw (p, not_expr)
          (Settled-bind (length (tail ts)) (length ts) (not_expr f names (tail ts))
            (λ r. ok (λ s. not (r.0 s), r.1)) (Settled-not_expr f names (tail ts) (omega arith))
            (λ d ts' le'. omega arith))
  ]

  Settled-primary :
      (f : ℕ) (names ts : List Text)
      → 4 * length ts + 1 ≤ f
      → Settled (length ts) (primary f names ts)
  Settled-primary zero names ts h = absurd (omega arith)
  Settled-primary (suc f) names [] h = tt
  Settled-primary (suc f) names (t ∷ ts) h = elim (Bool-cases (t == codes "(")) [
    | inl p ↦
        rw (p, primary)
          (Settled-bind (length ts) (suc (length ts)) (or_expr f names ts) close
            (Settled-or_expr f names ts (omega arith))
            (λ d ts' le'. Settled-close (suc (length ts)) d ts' (omega arith)))
    | inr p ↦
        rw (p, primary) (Settled-quantifier_or_selection (suc (length ts)) names t ts (omega arith))
  ]

finish-Settled :
    (n : ℕ) (m : Parsed (Condition × List Text)) → Settled n m → (m >>= finish) ≢ out_of_fuel
unfolding finish
finish-Settled n (ok (c, [])) h = λ e. ground arith
finish-Settled n (ok (c, t ∷ ts)) h = λ e. ground arith
finish-Settled n value_error h = λ e. ground arith
finish-Settled n index_error h = λ e. ground arith
finish-Settled n out_of_fuel h = absurd h

-- For every condition text and every list of selection names, compiling never runs out of the fuel
-- that the model gives it: it compiles the condition, or raises.
pub compile_condition-terminates :
    (text : Text) (names : List Text) → compile_condition text names ≢ out_of_fuel
unfolding compile_condition parse
compile_condition-terminates text names = go (tokenize text)
  where
    go : (ts : List Text) → compile_tokens names ts ≢ out_of_fuel
    go [] = λ e. ground arith
    go (t ∷ ts) =
        finish-Settled (length (t ∷ ts)) (or_expr (enough (t ∷ ts)) names (t ∷ ts))
          (Settled-or_expr (enough (t ∷ ts)) names (t ∷ ts) (omega arith))
