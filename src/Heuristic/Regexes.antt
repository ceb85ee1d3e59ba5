-- ===== src/Heuristic/Regexes.antt =====
-- Which regexes a custom rule may have, `is_regex_safe` and `_bounded_repeat` of
-- aegis-brain/app/rules/heuristic_engine.py. `inner_complex` is the list of the open groups, the
-- innermost first, without the entry for no group, which is never read; `depth` is its length. The
-- digits of `\d` are those of ASCII.
use aegis_ecosystem.Prelude.{
  ℕ, Bool, true, false, not, ◌&&◌, ◌||◌, Option, none, some, List, [], ◌∷◌, Text, length, ltb, leb,
  nat_eq, if◌then◌else◌, is_nil,
}

pub data Refusal : Type 0 where
  empty_pattern too_long unbalanced nested_quantifier : Refusal
  invalid_regex : Text → Refusal

-- What the loop does at a character.
pub data Mark : Type 0 where
  escape opening closing repetition plain : Mark

unfoldable pub mark_of : ℕ → Mark
mark_of c =
    if nat_eq c b'\\'
    then escape
    else if nat_eq c b'('
    then opening
    else if nat_eq c b')'
    then closing
    else if nat_eq c b'+' || (nat_eq c b'*' || (nat_eq c b'{' || nat_eq c b'|'))
    then repetition
    else plain

unfoldable pub is_digit : ℕ → Bool
is_digit c = leb b'0' c && leb c b'9'

-- the rest of `\d*,\d+\}` and of `\d*\}`, of which the latter has seen a digit or not
unfoldable pub upper_bound : Bool → Text → Bool
upper_bound seen [] = false
upper_bound seen (c ∷ s) =
    let rest = upper_bound true s in if is_digit c then rest else nat_eq c b'}' && seen

unfoldable pub lower_bound : Bool → Text → Bool
lower_bound seen [] = false
lower_bound seen (c ∷ s) =
    let rest = lower_bound true s in
    if is_digit c then rest else (nat_eq c b',' && seen) && upper_bound false s

-- `_bounded_repeat`
unfoldable pub bounded_repeat : Text → Bool
unfolding lower_bound upper_bound is_digit
bounded_repeat [] = false
bounded_repeat (c ∷ s) = nat_eq c b'{' && lower_bound false s

-- `nxt in "+*" or (nxt == "{" and not ...)`; at the end `nxt` is the empty text, which is in "+*"
unfoldable pub unbounded : Text → Bool
unfolding bounded_repeat
unbounded [] = true
unbounded (c ∷ s) =
    nat_eq c b'+' || (nat_eq c b'*' || (nat_eq c b'{' && not (bounded_repeat (c ∷ s))))

-- `inner_complex[depth] = True`, if a group is open
unfoldable pub mark_complex : List Bool → List Bool
mark_complex [] = []
mark_complex (inner ∷ outer) = true ∷ outer

-- The loop; the first argument tells a character behind a backslash.
unfoldable pub scan : Bool → Text → List Bool → Option Refusal
unfolding mark_of unbounded mark_complex
scan escaped [] groups = if is_nil groups then none else some unbalanced
scan true (c ∷ s) groups = scan false s groups
scan false (c ∷ s) groups = elim (mark_of c) [
  | escape ↦ scan true s groups
  | opening ↦ scan false s (false ∷ groups)
  | closing ↦ elim groups [
    | [] ↦ some unbalanced
    | inner ∷ outer ↦ if inner && unbounded s then some nested_quantifier else scan false s outer
  ]
  | repetition ↦ scan false s (mark_complex groups)
  | plain ↦ scan false s groups
]

-- `is_regex_safe`; `compile_error` is the text of the `re.error` that compiling raises
unfoldable pub is_regex_safe : (Text → Option Text) → Text → Option Refusal
unfolding scan
is_regex_safe compile_error [] = some empty_pattern
is_regex_safe compile_error (c ∷ s) =
    if ltb 200 (length (c ∷ s)) then some too_long else elim (compile_error (c ∷ s)) [
      | some message ↦ some (invalid_regex message)
      | none ↦ scan false (c ∷ s) []
    ]
