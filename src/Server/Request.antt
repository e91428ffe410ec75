-- ===== src/Server/Request.antt =====
-- The pure helpers of src/server.rs: what is read of a request, and the responses.
use Prim.Native.String
use mathlib.Core.Option
use indexer_gateway_auth.Prelude.{
  ℕ, String, Bool, true, false, Option, none, some, List, [], ◌∷◌, map, ◌==◌,
}
use indexer_gateway_auth.Prelude.{
  Bytes, Result, ok, err, and_then, find_map, flat_map, filter_map, strip_prefix, trim, codes,
  if◌then◌else◌,
}
use indexer_gateway_auth.Json
use indexer_gateway_auth.Json.{Value}
use indexer_gateway_auth.Classify.{
  Scope, read, write, OperationKind, Classification, ClassifyError, invalid_json, empty,
  graphql_parse, Parsers, classify,
}
use indexer_gateway_auth.Proxy.{
  UpstreamTarget, graph_node_admin, Headers, ProxyResponse, filter_response_headers,
}

unfoldable pub read_only : Classification
read_only = record { operations = []; scope = read }

unfoldable pub write_only : Classification
write_only = record { operations = []; scope = write }

-- `Display for ClassifyError`
unfoldable pub classify_error_text : ClassifyError → String
classify_error_text (invalid_json e) = String.◌++◌ "request body is not valid JSON: " e
classify_error_text empty = "request contains no GraphQL operation"
classify_error_text (graphql_parse e) = String.◌++◌ "GraphQL document failed to parse: " e

abbrev pub or_fail_open : Bool → Result ClassifyError Classification → Result String Classification
or_fail_open fail_closed (ok c) = ok c
or_fail_open true (err e) = err (String.◌++◌ "could not classify request: " (classify_error_text e))
or_fail_open false (err e) = ok read_only

abbrev pub is_admin : UpstreamTarget → Bool
is_admin graph_node_admin = true
is_admin _ = false

unfoldable pub classify_request :
    Parsers → String → UpstreamTarget → Bytes → Bool → Result String Classification
unfolding read_only write_only
classify_request parsers method target body fail_closed =
    if method == "GET"
    then ok read_only
    else if is_admin target
    then ok write_only
    else or_fail_open fail_closed (classify parsers body)

abbrev pub scope_str : Scope → String
scope_str read = "read"
scope_str write = "write"

unfoldable pub first_op_name : Classification → Option String
first_op_name c = find_map (λ o. o.name) c.operations

unfoldable pub top_fields : Classification → List String
top_fields c = flat_map (λ o. o.top_level_fields) c.operations

abbrev pub operation_kinds : Classification → List OperationKind
operation_kinds c = map (λ o. o.kind) c.operations

-- `headers.get(name)`: the first value.
unfoldable pub get_header : String → Headers → Option Bytes
get_header name [] = none
get_header name ((key, value) ∷ rest) = if key == name then some value else get_header name rest

-- `to_str` of a header value is an argument: none if the bytes are not visible ASCII.
unfoldable pub extract_bearer : (Bytes → Option String) → Headers → Option String
extract_bearer to_str headers = Option.map trim (
    and_then (and_then (get_header "authorization" headers) to_str)
      (λ text. strip_prefix text "Bearer "))

abbrev pub variables_of : Value → Option Value
variables_of v = Json.get "variables" v

abbrev pub batch_variables : List Value → Option Value
batch_variables [] = none
batch_variables (v ∷ vs) = some (Value.array (Json.from_items (v ∷ vs)))

unfoldable pub value_variables : Value → Option Value
value_variables (Value.object members) = variables_of (Value.object members)
value_variables (Value.array vs) = batch_variables (filter_map variables_of (Json.items vs))
value_variables _ = none

-- `from_slice` is serde_json's, at `Value`.
unfoldable pub extract_variables : (Bytes → Option Value) → Bytes → Option Value
unfolding value_variables
extract_variables from_slice body = and_then (from_slice body) value_variables

-- A response; the body of an error is its message, as JSON.
pub data ResponseBody : Type 0 where
  error_json : String → ResponseBody
  relayed : Bytes → ResponseBody

pub record Response : Type 0 where
  pub status : ℕ
  pub headers : Headers
  pub body : ResponseBody

unfoldable pub error_response : ℕ → String → Bool → Response
error_response status message www_authenticate = record {
  status = status;
  headers =
      ("content-type", codes "application/json")
      ∷ (if www_authenticate then ("www-authenticate", codes "Bearer") ∷ [] else []);
  body = error_json message;
}

unfoldable pub relay_response : ProxyResponse → Response
relay_response upstream = record {
  status = upstream.status;
  headers = filter_response_headers upstream.headers;
  body = relayed upstream.body;
}
