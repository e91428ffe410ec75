-- ===== src/Authz.antt =====
-- src/authz.rs: whether a principal's scopes cover a classified request under the policy.
pub mod Required
pub mod Laws
pub mod Granted
use Prim.Native.String
use indexer_gateway_auth.Prelude.{
  String, Bool, true, false, not, ◌&&◌, Option, none, some, List, [], ◌∷◌, ◌==◌,
}
use indexer_gateway_auth.Prelude.{
  Result, ok, err, filter, any, is_none, is_empty, join, if◌then◌else◌,
}
use indexer_gateway_auth.Prelude.Sets.{tree_insert, tree_extend}
use indexer_gateway_auth.Prelude.{is_some_of}
use indexer_gateway_auth.Config.{Override, Policy}
use indexer_gateway_auth.Principal.{Principal, satisfies}
use indexer_gateway_auth.Classify.{Scope, read, write, OperationInfo, Classification}

pub record Denied : Type 0 where
  pub required : List String
  pub missing : List String

infixr 65 ◌++◌
abbrev ◌++◌ : String → String → String
s ++ t = String.◌++◌ s t

-- `Display for Denied`
unfoldable pub denied_text : Denied → String
unfolding join
denied_text d =
    "insufficient scope: missing ["
    ++ join ", " d.missing
    ++ "] (required ["
    ++ join ", " d.required
    ++ "])"

abbrev pub base_scope : Scope → String
base_scope read = "read"
base_scope write = "write"

abbrev pub field_ok : Option String → OperationInfo → Bool
field_ok none op = true
field_ok (some f) op = any (λ sel. sel == f) op.top_level_fields

abbrev pub operation_ok : Option String → OperationInfo → Bool
operation_ok none op = true
operation_ok (some o) op = is_some_of op.name o

unfoldable pub override_matches : Override → OperationInfo → Bool
override_matches ov op =
    if is_none ov.field && is_none ov.operation
    then false
    else field_ok ov.field op && operation_ok ov.operation op

-- The inner loop, over the overrides.
unfoldable pub require_for : OperationInfo → List String → List Override → List String
require_for op required [] = required
require_for op required (ov ∷ ovs) =
    require_for op
      (if override_matches ov op then tree_extend required ov.require_scopes else required) ovs

-- The outer loop, over the operations.
unfoldable pub require_all : List Override → List String → List OperationInfo → List String
require_all overrides required [] = required
require_all overrides required (op ∷ ops) =
    require_all overrides (require_for op required overrides) ops

unfoldable pub required_scopes : Classification → Policy → List String
required_scopes c policy =
    require_all policy.overrides (tree_insert (base_scope c.scope) []) c.operations

unfoldable pub authorize : Principal → Classification → Policy → Result Denied (List String)
authorize p c policy =
    let required = required_scopes c policy in
    let missing = filter (λ scope. not (satisfies p scope)) required in
    if is_empty missing
    then ok required
    else err (record { required = required; missing = missing })
