-- ===== src/Config/Toml.antt =====
-- The values of a TOML document, as far as the configuration of src/config.rs reads them. A negative
-- integer is given by its distance from -1; floats and datetimes are their texts.
use indexer_gateway_auth.Prelude.{
  ℕ, String, Bool, Option, none, some, List, [], ◌∷◌, ◌==◌, if◌then◌else◌,
}

mutual
  pub data Value : Type 0 where
    string : String → Value
    boolean : Bool → Value
    integer negative : ℕ → Value
    other : String → Value
    array : Items → Value
    table : Table → Value

  pub data Items : Type 0 where
    nil : Items
    cons : Value → Items → Items

  pub data Table : Type 0 where
    end : Table
    entry : String → Value → Table → Table

abbrev pub get : String → Table → Option Value
get key end = none
get key (entry k v rest) = let later = get key rest in if k == key then some v else later

abbrev pub keys : Table → List String
keys end = []
keys (entry k v rest) = k ∷ keys rest
