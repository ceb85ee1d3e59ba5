-- ===== src/Sigma/Wildcard.antt =====
-- The wildcards of Sigma, `_wildcard_to_regex` of aegis-brain/app/rules/sigma/matcher.py, and the
-- part of Python's `re` that runs on its result. The regex is the list of its parts: an escaped
-- character, `.` and `.*`, where DOTALL lets `.` stand for every character.
pub mod Laws
use aegis_ecosystem.Prelude.{
  ℕ, Bool, true, false, ◌&&◌, ◌||◌, List, [], ◌∷◌, Text, nat_eq, lower_char, if◌then◌else◌,
}

pub data Part : Type 0 where
  literal : ℕ → Part
  any_char any_text : Part

abbrev pub Regex : Type 0
Regex = List Part

-- `char in "*?\\"`
unfoldable pub is_special : ℕ → Bool
is_special c = nat_eq c b'*' || (nat_eq c b'?' || nat_eq c b'\\')

-- the `if`/`elif`/`else` on a character that starts no escape
unfoldable pub part_of : ℕ → Part
part_of c = if nat_eq c b'*' then any_text else if nat_eq c b'?' then any_char else literal c

unfoldable pub wildcard_to_regex : Text → Regex
unfolding is_special part_of
wildcard_to_regex [] = []
wildcard_to_regex (c ∷ []) = part_of c ∷ []
wildcard_to_regex (c ∷ d ∷ s) =
    let escaped = literal d ∷ wildcard_to_regex s in
    let plain = part_of c ∷ wildcard_to_regex (d ∷ s) in
    if nat_eq c b'\\' && is_special d then escaped else plain

-- a pattern's character against a text's, with IGNORECASE or without
unfoldable pub same_char : Bool → ℕ → ℕ → Bool
unfolding lower_char
same_char true c d = nat_eq c d
same_char false c d = nat_eq (lower_char c) (lower_char d)

-- `re.compile(regex, flags | re.DOTALL).fullmatch(target) is not None`
unfoldable pub full_match : Bool → Regex → Text → Bool
unfolding same_char
full_match cased [] [] = true
full_match cased [] (d ∷ t) = false
full_match cased (literal c ∷ r) [] = false
full_match cased (literal c ∷ r) (d ∷ t) = same_char cased c d && full_match cased r t
full_match cased (any_char ∷ r) [] = false
full_match cased (any_char ∷ r) (d ∷ t) = full_match cased r t
full_match cased (any_text ∷ r) [] = full_match cased r []
full_match cased (any_text ∷ r) (d ∷ t) =
    let here = full_match cased r (d ∷ t) in
    let later = full_match cased (any_text ∷ r) t in here || later

-- a match that starts where the text starts
unfoldable pub prefix_match : Bool → Regex → Text → Bool
unfolding same_char
prefix_match cased [] t = true
prefix_match cased (literal c ∷ r) [] = false
prefix_match cased (literal c ∷ r) (d ∷ t) = same_char cased c d && prefix_match cased r t
prefix_match cased (any_char ∷ r) [] = false
prefix_match cased (any_char ∷ r) (d ∷ t) = prefix_match cased r t
prefix_match cased (any_text ∷ r) [] = prefix_match cased r []
prefix_match cased (any_text ∷ r) (d ∷ t) =
    let here = prefix_match cased r (d ∷ t) in
    let later = prefix_match cased (any_text ∷ r) t in here || later

-- `regex.search(text) is not None`
unfoldable pub search_match : Bool → Regex → Text → Bool
unfolding prefix_match
search_match cased r [] = prefix_match cased r []
search_match cased r (d ∷ t) = prefix_match cased r (d ∷ t) || search_match cased r t
