-- ===== src/Principal.antt =====
-- src/principal.rs: the authenticated caller and the scopes that it holds.
pub mod Laws
use indexer_gateway_auth.Prelude.{String, Bool, true, List, [], ◌∷◌, ◌&&◌, ◌==◌, if◌then◌else◌}
use indexer_gateway_auth.Prelude.Sets.{contains, hash_collect}

pub record Principal : Type 0 where
  pub name : String
  pub scopes : List String

-- `Principal::new`
unfoldable pub new : String → List String → Principal
unfolding hash_collect
new name scopes = record { name = name; scopes = hash_collect scopes }

-- `Principal::anonymous`
unfoldable pub anonymous : Principal
unfolding new
anonymous = new "anonymous" ("read" ∷ [])

-- `Principal::satisfies`
unfoldable pub satisfies : Principal → String → Bool
satisfies p required =
    if contains p.scopes required then true else required == "read" && contains p.scopes "write"
