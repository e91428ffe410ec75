-- ===== src/Config/Decode/Fields.antt =====
-- How the deserialization of a struct of src/config.rs takes its fields from a table.
use indexer_gateway_auth.Prelude.{
  ℕ, String, Bool, true, false, Option, none, some, List, [], ◌∷◌, ◌==◌, and_then, ltb,
  if◌then◌else◌,
}
use mathlib.Core.Option
use indexer_gateway_auth.Config.Toml.{
  Value, string, boolean, integer, array, Items, nil, cons, Table, end, entry, get,
}

infixl 5 ◌>>=◌
abbrev pub ◌>>=◌ : {A B : Type 0} → Option A → (A → Option B) → Option B
o >>= f = and_then o f

-- The names without the key, if it is one of them.
abbrev pub take_name : String → List String → Option (List String)
take_name key [] = none
take_name key (n ∷ ns) =
    let later = take_name key ns in
    if key == n then some ns else Option.map (λ rest. n ∷ rest) later

-- `deny_unknown_fields`, and no field twice.
unfoldable pub fits : List String → Table → Bool
fits names end = true
fits names (entry key v rest) = elim (take_name key names) [
  | none ↦ false
  | some others ↦ fits others rest
]

abbrev pub string_from : Value → Option String
string_from (string s) = some s
string_from _ = none

abbrev pub bool_from : Value → Option Bool
bool_from (boolean b) = some b
bool_from _ = none

-- `u32`
abbrev pub u32_from : Value → Option ℕ
u32_from (integer n) = if ltb n 4294967296 then some n else none
u32_from _ = none

module _ {A : Type 0} (decode : Value → Option A) where
  abbrev pub items_from : Items → Option (List A)
  items_from nil = some []
  items_from (cons v vs) = decode v >>= λ a. Option.map (λ rest. a ∷ rest) (items_from vs)

  -- `Vec<A>`
  abbrev pub vec_from : Value → Option (List A)
  vec_from (array items) = items_from items
  vec_from _ = none

  -- A field without `default`.
  abbrev pub required : String → Table → Option A
  required key t = get key t >>= decode

  -- A field with one.
  abbrev pub decode_or : A → Option Value → Option A
  decode_or default none = some default
  decode_or default (some v) = decode v

  abbrev pub defaulted : A → String → Table → Option A
  defaulted default key t = decode_or default (get key t)

-- `Option<A>` with `default`.
abbrev pub optional : {A : Type 0} → (Value → Option A) → String → Table → Option (Option A)
optional decode key t = defaulted (λ v. Option.map (λ a. some a) (decode v)) none key t

abbrev pub known : {A : Type 0} → List String → (Table → Option A) → Table → Option A
known names decode t = if fits names t then decode t else none
