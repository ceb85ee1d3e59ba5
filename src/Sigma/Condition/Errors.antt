-- ===== src/Sigma/Condition/Errors.antt =====
-- Conditions that the parser refuses.
use aegis_ecosystem.Prelude.{
  ℕ, suc, ◌≡◌, ap, true, false, List, [], ◌∷◌, arith, Text, codes, lower, ◌==◌, eq_text,
}
use aegis_ecosystem.Sigma.Condition.{
  index_error, ◌>>=◌, peeks, tail, quantifier_of, take_set, quantifier_or_selection, or_expr,
  or_rest, and_expr, and_rest, not_expr, primary, finish, parse, compile_tokens,
}
use aegis_ecosystem.Sigma.Condition.Grammar.{is_word, is_some}

dangling_primary :
    (names : List Text) (count of : Text) (f : ℕ)
    → is_word count ≡ true
    → is_some (quantifier_of count) ≡ true
    → (lower of == codes "of") ≡ true
    → primary (suc f) names (count ∷ of ∷ []) ≡ index_error
unfolding primary quantifier_or_selection peeks tail take_set
dangling_primary names count of f w q h = ground arith

dangling_not :
    (names : List Text) (count of : Text) (f : ℕ)
    → is_word count ≡ true
    → is_some (quantifier_of count) ≡ true
    → (lower of == codes "of") ≡ true
    → not_expr (suc (suc f)) names (count ∷ of ∷ []) ≡ index_error
unfolding not_expr
dangling_not names count of f w q h =
    let n : peeks (codes "not") (count ∷ of ∷ []) ≡ false = unfold peeks in ground arith in
    rw (n, not_expr) (dangling_primary names count of f w q h)

-- A condition of a quantifier and "of", with nothing behind it, makes the parser raise an
-- IndexError, for every quantifier, in any case of letters, and whatever the selections.
pub compile_tokens-dangling_of :
    (names : List Text) (count of : Text)
    → is_word count ≡ true
    → is_some (quantifier_of count) ≡ true
    → (lower of == codes "of") ≡ true
    → compile_tokens names (count ∷ of ∷ []) ≡ index_error
unfolding compile_tokens parse or_expr and_expr
compile_tokens-dangling_of names count of w q h =
    ap (λ m. ((m >>= λ r. and_rest 10 names r.0 r.1) >>= λ r. or_rest 11 names r.0 r.1) >>= finish)
      (dangling_not names count of 8 w q h)
