-- ===== src/Sigma/Fields.antt =====
-- The fields of an event by their Sigma names, aegis-brain/app/rules/sigma/fields.py. An attribute
-- of the model that is `None`, or that it has not, is null.
pub mod Aliases
pub mod Absent
use aegis_ecosystem.Prelude.{
  Bool, true, false, not, ◌&&◌, ◌||◌, Option, none, some, List, [], ◌∷◌, ◌++◌, Text, codes, lower,
  strip, member, any, drop, starts_with, if◌then◌else◌, ◌==◌, eq_text,
}
use aegis_ecosystem.Prelude.Dict.{Dict, lookup}
use aegis_ecosystem.Sigma.Matcher.{Value, scalar, many}
use Aliases.{direct_fields, aliases}

pub data Attribute : Type 0 where
  null empty_dict : Attribute
  value : Value → Attribute

pub record UnifiedEvent : Type 0 where
  pub attributes : Dict Text Attribute
  pub extra : Dict Text Attribute

-- what a comparison reads: `str` of what is no list
unfoldable pub reads : Attribute → Value
reads null = scalar (codes "None")
reads empty_dict = scalar (codes "{}")
reads (value v) = v

unfoldable pub is_null : Attribute → Bool
is_null null = true
is_null empty_dict = false
is_null (value v) = false

-- `value in (None, "")`
unfoldable pub is_blank_text : Attribute → Bool
is_blank_text null = true
is_blank_text (value (scalar [])) = true
is_blank_text (value (scalar (c ∷ s))) = false
is_blank_text (value (many ss)) = false
is_blank_text empty_dict = false

-- `value in (None, "", [], {})`
unfoldable pub is_blank : Attribute → Bool
is_blank null = true
is_blank empty_dict = true
is_blank (value (scalar [])) = true
is_blank (value (scalar (c ∷ s))) = false
is_blank (value (many [])) = true
is_blank (value (many (s ∷ ss))) = false

unfoldable pub read_or_null : Text → Dict Text Attribute → Attribute
read_or_null key d = elim (lookup key d) [ none ↦ null | some v ↦ v ]

-- `_dig`
unfoldable pub dig : UnifiedEvent → Text → Attribute
unfolding read_or_null
dig event path =
    if starts_with (codes "extra.") path
    then read_or_null (drop 6 path) event.extra
    else read_or_null path event.attributes

-- `name.strip().lower()`
unfoldable pub key_of : Text → Text
key_of name = lower (strip name)

-- `_ALIASES.get(key, [])`
unfoldable pub paths_of : Text → List Text
paths_of key = elim (lookup key aliases) [ none ↦ [] | some paths ↦ paths ]

unfoldable pub is_direct : Text → Bool
is_direct key = member key direct_fields

unfoldable pub has_key : Text → Dict Text Attribute → Bool
has_key key d = elim (lookup key d) [ none ↦ false | some v ↦ true ]

-- `text.endswith(suffix)`
unfoldable pub ends_in : Text → Text → Bool
ends_in suffix [] = suffix == []
ends_in suffix (c ∷ s) = suffix == (c ∷ s) || ends_in suffix s

-- `k.lower() == key or k.lower().endswith("." + key)`
unfoldable pub is_named : Text → Text → Bool
unfolding ends_in
is_named key k = let low = lower k in low == key || ends_in (codes "." ++ key) low

-- the part of `has_field` behind the direct fields
unfoldable pub in_extra : UnifiedEvent → Text → Text → Bool
unfolding has_key is_named
in_extra event name key =
    has_key name event.extra
    || (has_key (codes "win." ++ name) event.extra
        || any (λ entry. is_named key entry.0) event.extra)

unfoldable pub has_field : UnifiedEvent → Text → Bool
unfolding dig is_null key_of paths_of is_direct read_or_null in_extra
has_field event name =
    let key = key_of name in
    any (λ path. not (is_null (dig event path))) (paths_of key)
    || (if is_direct key
        then not (is_null (read_or_null key event.attributes))
        else in_extra event name key)

-- the values of the alias paths that are not blank
unfoldable pub alias_values : UnifiedEvent → List Text → List Value
unfolding dig is_blank reads
alias_values event [] = []
alias_values event (path ∷ paths) =
    let rest = alias_values event paths in
    if is_blank (dig event path) then rest else reads (dig event path) ∷ rest

-- `candidate in extra and extra[candidate] not in (None, "")`, and what the loop finds otherwise
unfoldable pub candidate_or : Option Attribute → Option Attribute → Option Attribute
unfolding is_blank_text
candidate_or none rest = rest
candidate_or (some v) rest = if is_blank_text v then rest else some v

-- the first candidate that is in `extra` with a text
unfoldable pub first_candidate : List Text → Dict Text Attribute → Option Attribute
unfolding candidate_or
first_candidate [] d = none
first_candidate (c ∷ cs) d = candidate_or (lookup c d) (first_candidate cs d)

unfoldable pub candidates : Text → List Text
candidates name = name ∷ (codes "win." ++ name) ∷ lower name ∷ (codes "win." ++ lower name) ∷ []

-- the last loop
unfoldable pub named_values : Text → Dict Text Attribute → List Value
unfolding is_named is_blank reads
named_values key [] = []
named_values key ((k, v) ∷ entries) =
    let rest = named_values key entries in
    if is_named key k && not (is_blank v) then reads v ∷ rest else rest

unfoldable pub extra_values : UnifiedEvent → Text → Text → List Value
unfolding first_candidate candidates named_values reads
extra_values event name key = elim (first_candidate (candidates name) event.extra) [
  | some v ↦ reads v ∷ []
  | none ↦ named_values key event.extra
]

-- what `get_values` returns where no alias has a value
unfoldable pub direct_values : UnifiedEvent → Text → Text → List Value
unfolding is_direct read_or_null is_blank reads extra_values
direct_values event name key =
    let v = read_or_null key event.attributes in
    if is_direct key && not (is_blank v) then reads v ∷ [] else extra_values event name key

unfoldable pub get_values : UnifiedEvent → Text → List Value
unfolding key_of paths_of alias_values direct_values
get_values event name =
    let key = key_of name in
    elim (alias_values event (paths_of key)) [ [] ↦ direct_values event name key | v ∷ vs ↦ v ∷ vs ]
