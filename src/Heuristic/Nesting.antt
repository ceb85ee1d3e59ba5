-- ===== src/Heuristic/Nesting.antt =====
-- What `is_regex_safe` refuses of a regex, as a tree of groups.
use aegis_ecosystem.Prelude.{
  ℕ, Bool, true, false, ◌&&◌, ◌||◌, Option, some, List, [], ◌∷◌, ◌++◌, Text, if◌then◌else◌,
}
use aegis_ecosystem.Heuristic.Regexes.{
  Refusal, nested_quantifier, escape, opening, closing, repetition, plain, mark_of, unbounded,
  mark_complex, scan,
}

pub data Operator : Type 0 where
  plus star brace bar : Operator

abbrev pub operator_char : Operator → ℕ
operator_char plus = b'+'
operator_char star = b'*'
operator_char brace = b'{'
operator_char bar = b'|'

-- A regex in the order of its text: a character (escaped if it must be), an escaped character, a
-- quantifier or alternation, a group.
pub data Regex : Type 0 where
  nothing : Regex
  character escaped : ℕ → Regex → Regex
  operator : Operator → Regex → Regex
  group : Regex → Regex → Regex

abbrev pub is_plain : ℕ → Bool
unfolding mark_of
is_plain c = elim (mark_of c) [
  | plain ↦ true
  | escape ↦ false
  | opening ↦ false
  | closing ↦ false
  | repetition ↦ false
]

unfoldable pub text_of : Regex → Text
unfolding is_plain
text_of nothing = []
text_of (character c r) = if is_plain c then c ∷ text_of r else b'\\' ∷ c ∷ text_of r
text_of (escaped c r) = b'\\' ∷ c ∷ text_of r
text_of (operator o r) = operator_char o ∷ text_of r
text_of (group inner r) = b'(' ∷ text_of inner ++ b')' ∷ text_of r

-- Whether a quantifier or an alternation stands directly in the regex, outside its groups.
unfoldable pub is_complex : Regex → Bool
is_complex nothing = false
is_complex (character c r) = is_complex r
is_complex (escaped c r) = is_complex r
is_complex (operator o r) = true
is_complex (group inner r) = is_complex r

-- Whether some group is complex and what stands behind it repeats it without bound.
unfoldable pub is_risky : Regex → Text → Bool
unfolding is_complex text_of
is_risky nothing rest = false
is_risky (character c r) rest = is_risky r rest
is_risky (escaped c r) rest = is_risky r rest
is_risky (operator o r) rest = is_risky r rest
is_risky (group inner r) rest =
    is_risky inner (b')' ∷ text_of r ++ rest)
    || ((is_complex inner && unbounded (text_of r ++ rest)) || is_risky r rest)

abbrev marked_if : Bool → List Bool → List Bool
marked_if b groups = if b then mark_complex groups else groups

-- what the loop says behind a part of the regex
abbrev after : Bool → Text → List Bool → Option Refusal
after risky rest groups = if risky then some nested_quantifier else scan false rest groups
