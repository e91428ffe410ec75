-- ===== src/Tests/Authz.antt =====
-- The tests of src/authz.rs.
use indexer_gateway_auth.Prelude.{
  String, ◌≡◌, refl, Bool, true, not, ◌&&◌, Option, none, some, List, [], ◌∷◌,
}
use indexer_gateway_auth.Prelude.{All}
use indexer_gateway_auth.Prelude.Sets.{tree_insert, tree_extend}
use indexer_gateway_auth.Config.{Policy, default_policy}
use indexer_gateway_auth.Principal
use indexer_gateway_auth.Principal.{Principal, anonymous, satisfies}
use indexer_gateway_auth.Classify.{Classification, read, write, query, mutation}
use indexer_gateway_auth.Authz.{
  override_matches, require_for, require_all, required_scopes, authorize,
}
use indexer_gateway_auth.Tests.{is_ok, same_texts, ok_and, err_and}

abbrev principal : List String → Principal
principal scopes = Principal.new "test" scopes

abbrev read_request : Classification
read_request = record {
  scope = read;
  operations = record { name = none; kind = query; top_level_fields = "indexingRules" ∷ [] } ∷ [];
}

abbrev write_request : String → Option String → Classification
write_request field op_name = record {
  scope = write;
  operations = record { name = op_name; kind = mutation; top_level_fields = field ∷ [] } ∷ [];
}

abbrev read_principal_may_read : Bool
read_principal_may_read = is_ok (authorize (principal ("read" ∷ [])) read_request default_policy)

abbrev read_principal_may_not_write : Bool
read_principal_may_not_write =
    err_and
      (authorize (principal ("read" ∷ [])) (write_request "setIndexingRule" none) default_policy)
      (λ e. same_texts e.missing ("write" ∷ []))

abbrev write_principal_may_read : Bool
write_principal_may_read = is_ok (authorize (principal ("write" ∷ [])) read_request default_policy)

abbrev write_principal_may_write : Bool
write_principal_may_write = is_ok (
    authorize (principal ("read" ∷ "write" ∷ [])) (write_request "setIndexingRule" none)
      default_policy)

abbrev execute_policy : Policy
execute_policy = record {
  fail_closed_on_parse_error = true;
  overrides =
      record {
        field = some "executeApprovedActions";
        operation = none;
        require_scopes = "actions:execute" ∷ [];
      }
      ∷ [];
}

abbrev override_requires_fine_grained_scope : Bool
override_requires_fine_grained_scope =
    err_and
      (authorize (principal ("write" ∷ [])) (write_request "executeApprovedActions" none)
        execute_policy)
      (λ e. same_texts e.missing ("actions:execute" ∷ []))

abbrev override_satisfied_when_fine_grained_scope_held : Bool
override_satisfied_when_fine_grained_scope_held =
    ok_and
      (authorize (principal ("write" ∷ "actions:execute" ∷ []))
        (write_request "executeApprovedActions" none) execute_policy)
      (λ granted. same_texts granted ("actions:execute" ∷ "write" ∷ []))

abbrev override_does_not_apply_to_unrelated_field : Bool
override_does_not_apply_to_unrelated_field =
    is_ok
      (authorize (principal ("write" ∷ [])) (write_request "setIndexingRule" none) execute_policy)

abbrev dangerous_policy : Policy
dangerous_policy = record {
  fail_closed_on_parse_error = true;
  overrides =
      record {
        field = none;
        operation = some "DangerousOp";
        require_scopes = "actions:execute" ∷ [];
      }
      ∷ [];
}

abbrev operation_name_scoped_override_matches_by_name : Bool
operation_name_scoped_override_matches_by_name =
    err_and
      (authorize (principal ("write" ∷ [])) (write_request "queueActions" (some "DangerousOp"))
        dangerous_policy)
      (λ e. same_texts e.missing ("actions:execute" ∷ []))

abbrev anonymous_principal_is_read_only : Bool
anonymous_principal_is_read_only =
    is_ok (authorize anonymous read_request default_policy)
    && not (is_ok (authorize anonymous (write_request "setIndexingRule" none) default_policy))

authz_tests_pass :
    All
      (λ passed. passed ≡ true)
      (read_principal_may_read ∷ read_principal_may_not_write ∷ write_principal_may_read
        ∷ write_principal_may_write ∷ override_requires_fine_grained_scope
        ∷ override_satisfied_when_fine_grained_scope_held
        ∷ override_does_not_apply_to_unrelated_field
        ∷ operation_name_scoped_override_matches_by_name ∷ anonymous_principal_is_read_only ∷ [])
unfolding authorize required_scopes require_all require_for override_matches tree_insert tree_extend
    satisfies anonymous Principal.new
authz_tests_pass = (refl, (refl, (refl, (refl, (refl, (refl, (refl, (refl, (refl, tt)))))))))
