-- ===== src/Principal/Laws.antt =====
-- Which scopes a principal satisfies.
use indexer_gateway_auth.Prelude.{String, ◌≡◌, ◌↔◌, ◌⊎◌, true, List, [], ◌∷◌, arith, eq_iff}
use indexer_gateway_auth.Prelude.Sets.{◌∈◌, ∈-hash_collect}
use indexer_gateway_auth.Principal.{new, anonymous, satisfies}

-- A principal satisfies a scope exactly if it was granted that scope, or the scope is "read" and
-- it was granted "write".
pub satisfies-new_iff :
    (name : String) (scopes : List String) (required : String)
    → (satisfies (new name scopes) required ≡ true)
      ↔ ((required ∈ scopes) ⊎ ((required ≡ "read") × ("write" ∈ scopes)))
unfolding satisfies new
satisfies-new_iff name scopes required =
    ground
      (arith, ∈-hash_collect required scopes, ∈-hash_collect "write" scopes, eq_iff required "read")

-- The anonymous principal satisfies "read" and no other scope.
pub satisfies-anonymous_iff :
    (required : String) → (satisfies anonymous required ≡ true) ↔ (required ≡ "read")
unfolding anonymous
satisfies-anonymous_iff required =
    ground (arith, satisfies-new_iff "anonymous" ("read" ∷ []) required, eq_iff "read" required)
