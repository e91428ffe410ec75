-- ===== src/Classify/Body.antt =====
-- The deserialization of a request body in src/classify.rs, as the attributes on `GraphQLRequest` and
-- `RawBody` make serde do it. The JSON of an untagged enum keeps repeated keys, in order.
pub mod Values
pub mod Laws
use indexer_gateway_auth.Prelude.{
  String, Bool, true, false, ◌||◌, Option, none, some, List, [], ◌∷◌, ◌==◌,
}
use indexer_gateway_auth.Prelude.{Bytes, Result, ok, err, ◌>>=◌, ok_or, and_then, if◌then◌else◌}
use mathlib.Core.Option
use indexer_gateway_auth.Json.{
  Value, null, string, array, object, Items, nil, cons, Members, end, member,
}
use indexer_gateway_auth.Classify.{GraphQlRequest, RawBody, single, batch, Parsers}
use indexer_gateway_auth.Classify.Syntax.{Document}

-- `rename` and `alias`: what a key means. An unknown key is ignored.
pub data Field : Type 0 where
  query_field name_field ignored : Field

abbrev pub field_of : String → Field
field_of key =
    if key == "query"
    then query_field
    else if key == "operationName" || key == "operation_name"
    then name_field
    else ignored

-- The fields that were read so far.
pub record Partial : Type 0 where
  pub query : Option String
  pub operation_name : Option (Option String)

-- A field that is there already is an error, and so is a value of another type.
abbrev pub put_query : Option String → Value → Partial → Option Partial
put_query none (string s) p = some (record p { query = some s })
put_query _ _ p = none

abbrev pub put_name : Option (Option String) → Value → Partial → Option Partial
put_name none null p = some (record p { operation_name = some none })
put_name none (string s) p = some (record p { operation_name = some (some s) })
put_name _ _ p = none

abbrev pub put : Field → Value → Partial → Option Partial
put query_field v p = put_query p.query v p
put name_field v p = put_name p.operation_name v p
put ignored v p = some p

unfoldable pub read_members : Members → Partial → Option Partial
read_members end p = some p
read_members (member key v rest) p = and_then (put (field_of key) v p) (read_members rest)

-- `query` must be there; `operation_name` is `None` by default.
abbrev pub finish : Partial → Option GraphQlRequest
finish p =
    Option.map (λ q. record { query = q; operation_name = Option.get_or p.operation_name none })
      p.query

-- A struct may also be written as the list of its fields.
abbrev pub request_of_items : Items → Option GraphQlRequest
request_of_items (cons (string q) nil) = some (record { query = q; operation_name = none })
request_of_items (cons (string q) (cons null nil)) =
    some (record { query = q; operation_name = none })
request_of_items (cons (string q) (cons (string name) nil)) =
    some (record { query = q; operation_name = some name })
request_of_items _ = none

-- `GraphQLRequest::deserialize`
unfoldable pub request_from : Value → Option GraphQlRequest
request_from (object members) =
    and_then (read_members members (record { query = none; operation_name = none })) finish
request_from (array items) = request_of_items items
request_from _ = none

unfoldable pub requests_from : Items → Option (List GraphQlRequest)
requests_from nil = some []
requests_from (cons v vs) =
    and_then (request_from v) (λ r. Option.map (λ rs. r ∷ rs) (requests_from vs))

abbrev pub batch_from : Value → Option RawBody
batch_from (array items) = Option.map batch (requests_from items)
batch_from _ = none

-- `untagged`: the first variant that fits.
abbrev pub single_or : Option GraphQlRequest → Option RawBody → Option RawBody
single_or (some r) other = some (single r)
single_or none other = other

-- `RawBody::deserialize`
unfoldable pub raw_body_from : Value → Option RawBody
raw_body_from v = single_or (request_from v) (batch_from v)

-- `serde_json::from_slice::<RawBody>`: `parse` reads the bytes as JSON.
unfoldable pub parsers_of :
    (Bytes → Result String Value) → (String → Result String Document) → Parsers
parsers_of parse parse_query = record {
  from_slice = λ body. parse body >>= λ v.
      ok_or (raw_body_from v) "data did not match any variant of untagged enum RawBody";
  parse_query = parse_query;
}
