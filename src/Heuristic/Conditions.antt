-- ===== src/Heuristic/Conditions.antt =====
-- When a custom rule matches an event, `_check_whitelist`, `_match_event_field` and `_eval_condition`
-- of aegis-brain/app/rules/heuristic_engine.py, with the part of `analyze` that calls them. An event
-- is the dictionary of its attributes. An exception is `none`; regexes that a rule writes are a
-- parameter (Library).
use aegis_ecosystem.Prelude.{
  ℕ, Bool, true, false, not, ◌&&◌, ◌||◌, Option, none, some, [], ◌∷◌, Text, codes, lower,
  lower_char, contains, leb, if◌then◌else◌, ◌==◌, eq_text,
}
use aegis_ecosystem.Json.{
  Json, Items, Fields, null, boolean, number, text, array, object, nil, cons, end, field, is_truthy,
  get_field,
}

pub record CustomRule : Type 0 where
  pub name : Text
  pub target_field : Text
  pub pattern : Text
  pub severity : Text
  pub mitre_tactic : Option Text
  pub mitre_technique : Option Text
  pub mitre_technique_id : Option Text
  pub conditions : Json
  pub whitelist : Json
  pub auto_remediation : Text
  pub trigger_count : ℕ

pub record Library : Type 0 where
  -- `bool(re.search(pattern, value, re.IGNORECASE))`, `none` for a `re.error`
  pub search : Text → Text → Option Bool
  -- `str` of a value
  pub str : Json → Text

unfoldable pub has_key : Text → Fields → Bool
has_key key end = false
has_key key (field k v fs) = k == key || has_key key fs

-- `d.get(key, default)`
unfoldable pub get_or : Text → Json → Fields → Json
unfolding has_key
get_or key default fs = if has_key key fs then get_field key fs else default

unfoldable pub text_value : Json → Option Text
text_value (text s) = some s
text_value null = none
text_value (boolean b) = none
text_value (number is_zero shown) = none
text_value (array vs) = none
text_value (object fs) = none

-- `s in vs` of a list
unfoldable pub text_in : Text → Items → Bool
unfolding text_value
text_in s nil = false
text_in s (cons v vs) = (elim (text_value v) [ none ↦ false | some t ↦ t == s ]) || text_in s vs

-- `s in value`; a TypeError for what is no container
unfoldable pub is_in : Text → Json → Option Bool
unfolding text_in has_key
is_in s (array vs) = some (text_in s vs)
is_in s (text t) = some (contains s t)
is_in s (object fs) = some (has_key s fs)
is_in s null = none
is_in s (boolean b) = none
is_in s (number is_zero shown) = none

-- `s and s in value`
unfoldable pub is_excluded : Text → Json → Option Bool
unfolding is_in
is_excluded [] value = some false
is_excluded (c ∷ s) value = is_in (c ∷ s) value

unfoldable pub outside_lists : Fields → Text → Text → Option Bool
unfolding is_excluded get_or
outside_lists whitelist hostname ip =
    elim (is_excluded hostname (get_or (codes "hostnames") (array nil) whitelist)) [
      | none ↦ none
      | some true ↦ some false
      | some false ↦ elim (is_excluded ip (get_or (codes "ips") (array nil) whitelist)) [
        | none ↦ none
        | some excluded ↦ some (not excluded)
      ]
    ]

-- `_check_whitelist`
unfoldable pub check_whitelist : Json → Text → Text → Option Bool
unfolding outside_lists
check_whitelist (object whitelist) hostname ip =
    if is_truthy (object whitelist) then outside_lists whitelist hostname ip else some true
check_whitelist null hostname ip = some true
check_whitelist (boolean b) hostname ip = some true
check_whitelist (number is_zero shown) hostname ip = some true
check_whitelist (text s) hostname ip = some true
check_whitelist (array vs) hostname ip = some true

-- `re.sub(r"(?<!^)(?=[A-Z])", "_", field).lower()`; the first argument tells the start
unfoldable pub snake_case : Bool → Text → Text
snake_case at_start [] = []
snake_case at_start (c ∷ s) =
    let rest = lower_char c ∷ snake_case false s in
    if (leb b'A' c && leb c b'Z') && not at_start then b'_' ∷ rest else rest

unfoldable pub or_else : Option Text → Option Text → Option Text
or_else none other = other
or_else (some s) other = some s

-- `_match_event_field`; an attribute that is no text counts as none
unfoldable pub match_event_field : Fields → Text → Option Text
unfolding or_else text_value snake_case
match_event_field event name = or_else (text_value (get_field name event)) (
    or_else (text_value (get_field (snake_case true name) event))
      (text_value (get_field (lower name) event)))

-- What `for c in items` runs over; a text or a dictionary that is not empty raises at its first
-- element, which has no `get`.
unfoldable pub items_of_conditions : Json → Option Items
items_of_conditions (array vs) = some vs
items_of_conditions (text []) = some nil
items_of_conditions (text (c ∷ s)) = none
items_of_conditions (object end) = some nil
items_of_conditions (object (field k v fs)) = none
items_of_conditions null = none
items_of_conditions (boolean b) = none
items_of_conditions (number is_zero shown) = none

unfoldable pub is_or : Json → Bool
unfolding text_value
is_or logic = elim (text_value logic) [ none ↦ false | some s ↦ s == codes "or" ]

unfoldable pub text_or_none : Json → Text
unfolding text_value
text_or_none v = elim (text_value v) [ none ↦ [] | some s ↦ s ]

module _ (library : Library) where
  open library use {search}

  -- the tests of `operator`; a pattern that is no text raises where it is used
  unfoldable pub apply_operator : Text → Option Text → Text → Option Bool
  apply_operator operator none value =
      if operator == codes "regex"
        || (operator == codes "equals"
            || (operator == codes "contains" || operator == codes "not_equals"))
      then none
      else some false
  apply_operator operator (some pattern) value =
      if operator == codes "regex"
      then (elim (search pattern value) [ none ↦ some false | some found ↦ some found ])
      else if operator == codes "equals"
      then some (lower value == lower pattern)
      else if operator == codes "contains"
      then some (contains (lower pattern) (lower value))
      else if operator == codes "not_equals"
      then some (not (lower value == lower pattern))
      else some false

  unfoldable pub test_value : Fields → Text → Option Bool
  unfolding apply_operator text_value get_or
  test_value cond value =
      elim (text_value (get_or (codes "operator") (text (codes "regex")) cond)) [
        | none ↦ some false
        | some operator ↦
            apply_operator operator (text_value (get_or (codes "pattern") (text []) cond)) value
      ]

  unfoldable pub test_field : Fields → Fields → Option Bool
  unfolding test_value match_event_field
  test_field event cond = elim (text_value (get_or (codes "target_field") (text []) cond)) [
    | none ↦ none
    | some name ↦ elim (match_event_field event name) [
      | none ↦ some false
      | some value ↦ test_value cond value
    ]
  ]

  -- `_eval_condition`
  unfoldable pub eval_condition : Fields → Json → Option Bool
  unfolding test_field
  eval_condition event (object cond) = test_field event cond
  eval_condition event null = none
  eval_condition event (boolean b) = none
  eval_condition event (number is_zero shown) = none
  eval_condition event (text s) = none
  eval_condition event (array vs) = none

  -- `any(...)` and `all(...)`, which end at the first condition that decides, or raises
  unfoldable pub any_condition : Fields → Items → Option Bool
  unfolding eval_condition
  any_condition event nil = some false
  any_condition event (cons c cs) =
      let rest = any_condition event cs in
      elim (eval_condition event c) [ none ↦ none | some true ↦ some true | some false ↦ rest ]

  unfoldable pub all_conditions : Fields → Items → Option Bool
  unfolding eval_condition
  all_conditions event nil = some true
  all_conditions event (cons c cs) =
      let rest = all_conditions event cs in
      elim (eval_condition event c) [ none ↦ none | some true ↦ rest | some false ↦ some false ]

  unfoldable pub match_conditions : Fields → Fields → Option Bool
  unfolding any_condition all_conditions items_of_conditions is_or get_or
  match_conditions event conditions =
      elim (items_of_conditions (get_or (codes "conditions") (array nil) conditions)) [
        | none ↦ none
        | some items ↦
            if is_or (get_or (codes "logic") (text (codes "and")) conditions)
            then any_condition event items
            else all_conditions event items
      ]

  -- the single field and its regex, whose `re.error` leaves the rule
  unfoldable pub match_single : Fields → CustomRule → Option Bool
  unfolding match_event_field
  match_single event rule = elim (match_event_field event rule.target_field) [
    | none ↦ some false
    | some [] ↦ some false
    | some (c ∷ s) ↦ search rule.pattern (c ∷ s)
  ]

  unfoldable pub match_rule : Fields → CustomRule → Option Bool
  unfolding match_conditions match_single
  match_rule event rule = elim rule.conditions [
    | object (field k v fs) ↦ match_conditions event (field k v fs)
    | object end ↦ match_single event rule
    | null ↦ match_single event rule
    | boolean b ↦ match_single event rule
    | number is_zero shown ↦ match_single event rule
    | text s ↦ match_single event rule
    | array vs ↦ match_single event rule
  ]

  -- Whether the rule matched; `none` where it raised.
  unfoldable pub evaluate_custom : Fields → CustomRule → Option Bool
  unfolding check_whitelist match_rule text_or_none
  evaluate_custom event rule =
      elim (check_whitelist rule.whitelist (text_or_none (get_field (codes "hostname") event))
        (text_or_none (get_field (codes "ip_address") event))) [
          | none ↦ none
          | some false ↦ some false
          | some true ↦ match_rule event rule
        ]
