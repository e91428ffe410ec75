-- ===== src/Audit/Line.antt =====
-- The JSON of an audit record, as the attributes on `AuditRecord` and `Outcome` make serde write it.
pub mod Laws
use Prim.Native.String
use mathlib.Core.Option
use indexer_gateway_auth.Prelude.{
  ℕ, String, Bool, true, false, Option, none, some, List, [], ◌∷◌, ◌++◌, map,
}
use indexer_gateway_auth.Prelude.{Result, ok, err}
use indexer_gateway_auth.Json
use indexer_gateway_auth.Json.{Value, Members}
use indexer_gateway_auth.Classify.{Scope, OperationKind}
use indexer_gateway_auth.Audit.{
  Outcome, allowed, rate_limited, auth_failed, denied, rejected, AuditRecord,
}

abbrev pub scope_json : Scope → Value
scope_json Scope.read = Value.string "read"
scope_json Scope.write = Value.string "write"

abbrev pub kind_json : OperationKind → Value
kind_json OperationKind.query = Value.string "query"
kind_json OperationKind.mutation = Value.string "mutation"
kind_json OperationKind.subscription = Value.string "subscription"

-- The tag of the outcome, and its reason.
abbrev pub outcome_name : Outcome → String
outcome_name allowed = "allowed"
outcome_name (auth_failed reason) = "auth_failed"
outcome_name (denied reason) = "denied"
outcome_name (rejected reason) = "rejected"
outcome_name rate_limited = "rate_limited"

abbrev pub outcome_reason : Outcome → Option String
outcome_reason allowed = none
outcome_reason (auth_failed reason) = some reason
outcome_reason (denied reason) = some reason
outcome_reason (rejected reason) = some reason
outcome_reason rate_limited = none

-- `skip_serializing_if = "Vec::is_empty"`
abbrev pub nonempty_json : List Value → Option Value
nonempty_json [] = none
nonempty_json (v ∷ vs) = some (Value.array (Json.from_items (v ∷ vs)))

abbrev pub Entries : Type 0
Entries = List (String × Option Value)

-- `skip_serializing_if = "Option::is_none"`: an absent value has no member.
unfoldable pub members : Entries → Members
members [] = Members.end
members ((key, none) ∷ rest) = members rest
members ((key, some v) ∷ rest) = Members.member key v (members rest)

abbrev pub or_serialize_error : Result String String → String
or_serialize_error (ok line) = line
or_serialize_error (err e) = "{\"audit\":\"serialize_error\"}"

-- `decimal` is the text of a number.
module _ (decimal : ℕ → String) where
  -- The members in the order of the fields, with the outcome's in its place.
  abbrev pub entries : AuditRecord → Entries
  entries rec =
      ("timestamp", some (Value.string rec.timestamp))
      ∷ ("principal", some (Value.string rec.principal))
      ∷ ("source_ip", Option.map Value.string rec.source_ip)
      ∷ ("scope", Option.map scope_json rec.scope)
      ∷ ("operation_name", Option.map Value.string rec.operation_name)
      ∷ ("operation_kinds", nonempty_json (map kind_json rec.operation_kinds))
      ∷ ("top_level_fields", nonempty_json (map Value.string rec.top_level_fields))
      ∷ ("variables_hash", Option.map Value.string rec.variables_hash)
      ∷ ("variables", rec.variables)
      ∷ ("outcome", some (Value.string (outcome_name rec.outcome)))
      ∷ ("reason", Option.map Value.string (outcome_reason rec.outcome))
      ∷ ("upstream_status", Option.map (λ n. Value.number (decimal n)) rec.upstream_status)
      ∷ ("latency_ms", Option.map (λ n. Value.number (decimal n)) rec.latency_ms)
      ∷ []

  unfoldable pub to_json : AuditRecord → Value
  unfolding members
  to_json rec = Value.object (members (entries rec))

  -- `AuditRecord::to_json_line`; `to_string` is serde_json's.
  unfoldable pub to_json_line : (Value → Result String String) → AuditRecord → String
  unfolding to_json
  to_json_line to_string rec = or_serialize_error (to_string (to_json rec))
