-- ===== src/Json.antt =====
-- The JSON values of serde_json, as far as the program reads them: claims of a token and variables
-- of a request. A number is its text.
use indexer_gateway_auth.Prelude.{
  String, Bool, Option, none, some, List, [], ◌∷◌, ◌==◌, if◌then◌else◌,
}

mutual
  pub data Value : Type 0 where
    null : Value
    bool : Bool → Value
    number : String → Value
    string : String → Value
    array : Items → Value
    object : Members → Value

  pub data Items : Type 0 where
    nil : Items
    cons : Value → Items → Items

  pub data Members : Type 0 where
    end : Members
    member : String → Value → Members → Members

abbrev pub items : Items → List Value
items nil = []
items (cons v vs) = v ∷ items vs

abbrev pub from_items : List Value → Items
from_items [] = nil
from_items (v ∷ vs) = cons v (from_items vs)

unfoldable pub get_member : String → Members → Option Value
get_member key end = none
get_member key (member k v rest) = if k == key then some v else get_member key rest

-- `value.get(key)`: a member of an object.
unfoldable pub get : String → Value → Option Value
unfolding get_member
get key (object ms) = get_member key ms
get key _ = none

-- `Value::as_str`
unfoldable pub as_str : Value → Option String
as_str (string s) = some s
as_str _ = none
