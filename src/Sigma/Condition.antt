-- ===== src/Sigma/Condition.antt =====
-- The condition language, `_ConditionParser` and `compile_condition` of
-- aegis-brain/app/rules/sigma/compiler.py. `self.pos` is the list of the tokens that are left. A
-- compiled condition is a function of the results of the selections, as in the source. The parser
-- takes fuel: four for each token, and four.
pub mod Total
pub mod Grammar
pub mod Errors
use aegis_ecosystem.Prelude.{
  ℕ, zero, suc, ◌+◌, ◌*◌, Bool, true, false, not, ◌&&◌, ◌||◌, Option, none, some, List, [], ◌∷◌,
  Text, codes, lower, is_space, member, any, all, filter, length, nat_eq, leb, if◌then◌else◌, ◌==◌,
  eq_text,
}
use aegis_ecosystem.Prelude.Dict.{Dict, lookup}
use aegis_ecosystem.Sigma.Wildcard.{wildcard_to_regex, full_match}

-- A `ValueError`, an `IndexError` of `self.tokens[self.pos]`, or the model's own end of fuel.
pub data Parsed {ℓ} (A : Type ℓ) : Type ℓ where
  ok : A → Parsed A
  value_error index_error out_of_fuel : Parsed A

infixl 5 ◌>>=◌
abbrev pub ◌>>=◌ {ℓ κ} : {A : Type ℓ} {B : Type κ} → Parsed A → (A → Parsed B) → Parsed B
ok a >>= f = f a
value_error >>= f = value_error
index_error >>= f = index_error
out_of_fuel >>= f = out_of_fuel

-- the results of the selections, by name
abbrev pub Results : Type 0
Results = Dict Text Bool

abbrev pub Condition : Type 0
Condition = Results → Bool

-- `s.get(n, False)`
unfoldable pub result_of : Results → Text → Bool
result_of s n = elim (lookup n s) [ none ↦ false | some b ↦ b ]

-- `_TOKEN.findall`, with `_TOKEN = \(|\)|[^\s()]+`
unfoldable pub is_paren : ℕ → Bool
is_paren c = nat_eq c b'(' || nat_eq c b')'

-- whether a token that ends before this text goes on into it
unfoldable pub starts_word : Text → Bool
unfolding is_paren is_space
starts_word [] = false
starts_word (c ∷ s) = not (is_paren c || is_space c)

unfoldable pub extend_first : ℕ → List Text → List Text
extend_first c [] = (c ∷ []) ∷ []
extend_first c (t ∷ ts) = (c ∷ t) ∷ ts

unfoldable pub tokenize : Text → List Text
unfolding is_paren starts_word extend_first is_space
tokenize [] = []
tokenize (c ∷ s) =
    let rest = tokenize s in
    if is_paren c
    then (c ∷ []) ∷ rest
    else if is_space c
    then rest
    else if starts_word s
    then extend_first c rest
    else (c ∷ []) ∷ rest

-- `(self._peek() or "").lower() == word`
unfoldable pub peeks : Text → List Text → Bool
peeks word [] = false
peeks word (t ∷ ts) = lower t == word

unfoldable pub tail : List Text → List Text
tail [] = []
tail (t ∷ ts) = ts

pub data Quantifier : Type 0 where
  all_of any_of none_of : Quantifier
  at_least : ℕ → Quantifier

-- the words that may stand before `of`, in lower case
unfoldable pub quantifier_word : Text → Option Quantifier
quantifier_word w =
    if w == codes "all"
    then some all_of
    else if w == codes "any"
    then some any_of
    else if w == codes "none"
    then some none_of
    else if w == codes "1"
    then some (at_least 1)
    else if w == codes "2"
    then some (at_least 2)
    else if w == codes "3"
    then some (at_least 3)
    else if w == codes "4"
    then some (at_least 4)
    else if w == codes "5"
    then some (at_least 5)
    else if w == codes "6"
    then some (at_least 6)
    else if w == codes "7"
    then some (at_least 7)
    else if w == codes "8"
    then some (at_least 8)
    else if w == codes "9"
    then some (at_least 9)
    else if w == codes "10"
    then some (at_least 10)
    else none

unfoldable pub quantifier_of : Text → Option Quantifier
unfolding quantifier_word
quantifier_of t = quantifier_word (lower t)

-- The selection names that a set stands for; a name is one line.
unfoldable pub resolve_set : List Text → Text → List Text
resolve_set names target =
    if lower target == codes "them"
    then names
    else filter (full_match false (wildcard_to_regex target)) names

-- `sum(1 for n in ns if s.get(n, False))`
unfoldable pub count_true : Results → List Text → ℕ
unfolding result_of
count_true s [] = 0
count_true s (n ∷ ns) = (if result_of s n then 1 else 0) + count_true s ns

unfoldable pub quantify : Quantifier → List Text → Condition
unfolding result_of count_true
quantify all_of ns s = all (result_of s) ns
quantify any_of ns s = any (result_of s) ns
quantify none_of ns s = not (any (result_of s) ns)
quantify (at_least k) ns s = leb k (count_true s ns)

-- `raise ValueError` for a set without names
unfoldable pub quantified : Quantifier → List Text → List Text → Parsed (Condition × List Text)
quantified q [] rest = value_error
quantified q (n ∷ ns) rest = ok (quantify q (n ∷ ns), rest)

-- the tokens behind `<count> of`
unfoldable pub take_set : List Text → Quantifier → List Text → Parsed (Condition × List Text)
unfolding quantified
take_set names q [] = index_error
take_set names q (target ∷ rest) = quantified q (resolve_set names target) rest

unfoldable pub selection : List Text → Text → List Text → Parsed (Condition × List Text)
selection names token rest =
    if member token names then ok (λ s. result_of s token, rest) else value_error

-- a token that opens no parenthesis
unfoldable pub quantifier_or_selection :
    List Text → Text → List Text → Parsed (Condition × List Text)
unfolding take_set selection
quantifier_or_selection names token rest = elim (quantifier_of token) [
  | none ↦ selection names token rest
  | some q ↦
      if peeks (codes "of") rest then take_set names q (tail rest) else selection names token rest
]

-- the test for the closing parenthesis
unfoldable pub close : Condition × List Text → Parsed (Condition × List Text)
close (inner, []) = value_error
close (inner, t ∷ ts) = if t == codes ")" then ok (inner, ts) else value_error

unfoldable mutual
  pub or_expr : ℕ → List Text → List Text → Parsed (Condition × List Text)
  or_expr zero names ts = out_of_fuel
  or_expr (suc f) names ts = do (left, ts') ← and_expr f names ts; or_rest f names left ts'

  -- `while (self._peek() or "").lower() == "or"`
  pub or_rest : ℕ → List Text → Condition → List Text → Parsed (Condition × List Text)
  or_rest zero names left ts = out_of_fuel
  or_rest (suc f) names left ts = elim (peeks (codes "or") ts) [
    | false ↦ ok (left, ts)
    | true ↦ do
      (right, ts') ← and_expr f names (tail ts)
      or_rest f names (λ s. left s || right s) ts'
  ]

  pub and_expr : ℕ → List Text → List Text → Parsed (Condition × List Text)
  and_expr zero names ts = out_of_fuel
  and_expr (suc f) names ts = do (left, ts') ← not_expr f names ts; and_rest f names left ts'

  pub and_rest : ℕ → List Text → Condition → List Text → Parsed (Condition × List Text)
  and_rest zero names left ts = out_of_fuel
  and_rest (suc f) names left ts = elim (peeks (codes "and") ts) [
    | false ↦ ok (left, ts)
    | true ↦ do
      (right, ts') ← not_expr f names (tail ts)
      and_rest f names (λ s. left s && right s) ts'
  ]

  pub not_expr : ℕ → List Text → List Text → Parsed (Condition × List Text)
  not_expr zero names ts = out_of_fuel
  not_expr (suc f) names ts = elim (peeks (codes "not") ts) [
    | false ↦ primary f names ts
    | true ↦ do (inner, ts') ← not_expr f names (tail ts); ok (λ s. not (inner s), ts')
  ]

  pub primary : ℕ → List Text → List Text → Parsed (Condition × List Text)
  primary zero names ts = out_of_fuel
  primary (suc f) names [] = value_error
  primary (suc f) names (t ∷ ts) = elim (t == codes "(") [
    | true ↦ do parsed ← or_expr f names ts; close parsed
    | false ↦ quantifier_or_selection names t ts
  ]

-- `if self.pos != len(self.tokens): raise ValueError`
unfoldable pub finish : Condition × List Text → Parsed Condition
finish (c, []) = ok c
finish (c, t ∷ ts) = value_error

abbrev pub enough : List Text → ℕ
enough ts = 4 * length ts + 4

unfoldable pub parse : List Text → List Text → Parsed Condition
unfolding finish
parse names ts = do parsed ← or_expr (enough ts) names ts; finish parsed

-- `if not tokens: raise ValueError`
unfoldable pub compile_tokens : List Text → List Text → Parsed Condition
compile_tokens names [] = value_error
compile_tokens names (t ∷ ts) = parse names (t ∷ ts)

unfoldable pub compile_condition : Text → List Text → Parsed Condition
unfolding tokenize compile_tokens
compile_condition text names = compile_tokens names (tokenize text)
