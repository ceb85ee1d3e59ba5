-- ===== src/Sigma/Wildcard/Laws.antt =====
-- What the wildcards mean.
use aegis_ecosystem.Prelude.{
  ℕ, ◌≡◌, refl, ap, ◌∙◌, Bool, true, false, ◌&&◌, ◌||◌, [], ◌∷◌, ◌++◌, map, arith, Text, nat_eq,
  if◌then◌else◌, Bool-cases, inl, inr,
}
use aegis_ecosystem.Sigma.Wildcard.{
  literal, any_char, any_text, Regex, is_special, wildcard_to_regex, same_char, full_match,
  prefix_match, search_match,
}

-- The text written with a backslash before each wildcard and each backslash.
unfoldable pub escape : Text → Text
escape [] = []
escape (c ∷ s) = if is_special c then b'\\' ∷ c ∷ escape s else c ∷ escape s

wildcard_to_regex-cons :
    (c : ℕ) (s : Text)
    → is_special c ≡ false
    → wildcard_to_regex (c ∷ s) ≡ literal c ∷ wildcard_to_regex s
unfolding wildcard_to_regex
wildcard_to_regex-cons c [] h = ground arith
wildcard_to_regex-cons c (d ∷ s) h = ground arith

-- Every text has a pattern that stands for it alone: its escaped form compiles to the literals.
pub wildcard_to_regex-escape : (s : Text) → wildcard_to_regex (escape s) ≡ map literal s
unfolding wildcard_to_regex escape
wildcard_to_regex-escape [] = refl
wildcard_to_regex-escape (c ∷ s) = elim (Bool-cases (is_special c)) [
  | inl p ↦ rw p (ground (arith, wildcard_to_regex-escape s))
  | inr p ↦
      rw p
        (wildcard_to_regex-cons c (escape s) p ∙ ap (◌∷◌ (literal c)) (wildcard_to_regex-escape s))
]

-- A pattern in which no character is a wildcard and no backslash is followed by a special one.
abbrev pub is_plain : Text → Bool
is_plain [] = true
is_plain (c ∷ []) = if nat_eq c b'*' || nat_eq c b'?' then false else true
is_plain (c ∷ d ∷ s) =
    if nat_eq c b'*' || (nat_eq c b'?' || (nat_eq c b'\\' && is_special d))
    then false
    else is_plain (d ∷ s)

-- The backslash of a Windows path is an ordinary character.
pub wildcard_to_regex-plain : (s : Text) → is_plain s ≡ true → wildcard_to_regex s ≡ map literal s
unfolding wildcard_to_regex
wildcard_to_regex-plain [] h = refl
wildcard_to_regex-plain (c ∷ []) h = ground arith
wildcard_to_regex-plain (c ∷ d ∷ s) h = ground (arith, wildcard_to_regex-plain (d ∷ s))

-- The literals of a pattern at the start of a text.
abbrev pub starts_with : Bool → Text → Text → Bool
starts_with cased [] t = true
starts_with cased (c ∷ s) [] = false
starts_with cased (c ∷ s) (d ∷ t) = same_char cased c d && starts_with cased s t

pub prefix_match-literal :
    (cased : Bool) (s t : Text) → prefix_match cased (map literal s) t ≡ starts_with cased s t
unfolding prefix_match
prefix_match-literal cased [] t = refl
prefix_match-literal cased (c ∷ s) [] = refl
prefix_match-literal cased (c ∷ s) (d ∷ t) =
    ap (◌&&◌ (same_char cased c d)) (prefix_match-literal cased s t)

-- A trailing `.*` turns a whole match into a match at the start.
pub full_match-any_text :
    (cased : Bool) (r : Regex) (t : Text)
    → full_match cased (r ++ any_text ∷ []) t ≡ prefix_match cased r t
unfolding full_match prefix_match
full_match-any_text cased [] [] = refl
full_match-any_text cased [] (d ∷ t) = ground (arith, full_match-any_text cased [] t)
full_match-any_text cased (literal c ∷ r) [] = refl
full_match-any_text cased (literal c ∷ r) (d ∷ t) = ground (arith, full_match-any_text cased r t)
full_match-any_text cased (any_char ∷ r) [] = refl
full_match-any_text cased (any_char ∷ r) (d ∷ t) = full_match-any_text cased r t
full_match-any_text cased (any_text ∷ r) [] = full_match-any_text cased r []
full_match-any_text cased (any_text ∷ r) (d ∷ t) =
    ground (arith, full_match-any_text cased r (d ∷ t), full_match-any_text cased (any_text ∷ r) t)

-- A `.*` on both sides turns it into a match anywhere.
pub full_match-search_match :
    (cased : Bool) (r : Regex) (t : Text)
    → full_match cased (any_text ∷ (r ++ any_text ∷ [])) t ≡ search_match cased r t
unfolding full_match search_match
full_match-search_match cased r [] = full_match-any_text cased r []
full_match-search_match cased r (d ∷ t) =
    ground (arith, full_match-any_text cased r (d ∷ t), full_match-search_match cased r t)
