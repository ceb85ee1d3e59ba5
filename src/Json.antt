-- ===== src/Json.antt =====
-- The values of JSON documents, as Python's `json` gives them to the program: a dictionary keeps the
-- order of its keys. A number is its text and whether it is zero.
use aegis_ecosystem.Prelude.{Bool, true, false, not, [], ◌∷◌, Text, if◌then◌else◌, ◌==◌, eq_text}

mutual
  pub data Json : Type 0 where
    null : Json
    boolean : Bool → Json
    number : Bool → Text → Json
    text : Text → Json
    array : Items → Json
    object : Fields → Json

  pub data Items : Type 0 where
    nil : Items
    cons : Json → Items → Items

  pub data Fields : Type 0 where
    end : Fields
    field : Text → Json → Fields → Fields

-- `bool(value)`
unfoldable pub is_truthy : Json → Bool
is_truthy null = false
is_truthy (boolean b) = b
is_truthy (number is_zero shown) = not is_zero
is_truthy (text []) = false
is_truthy (text (c ∷ s)) = true
is_truthy (array nil) = false
is_truthy (array (cons v vs)) = true
is_truthy (object end) = false
is_truthy (object (field k v fs)) = true

-- `d.get(key)`
unfoldable pub get_field : Text → Fields → Json
get_field key end = null
get_field key (field k v fs) = let rest = get_field key fs in if k == key then v else rest

-- `d[key] = value`
unfoldable pub set_field : Text → Json → Fields → Fields
set_field key value end = field key value end
set_field key value (field k v fs) =
    let rest = set_field key value fs in if k == key then field k value fs else field k v rest
