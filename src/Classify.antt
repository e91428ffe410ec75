-- ===== src/Classify.antt =====
-- src/classify.rs: whether a request reads or writes, found from the structure of its GraphQL
-- documents. The parsers of JSON (serde_json) and of GraphQL (async-graphql-parser) are arguments.
pub mod Syntax
pub mod Fields
pub mod Body
pub mod Chosen
pub mod Laws
use indexer_gateway_auth.Prelude.{
  String, Bool, true, false, Option, none, some, List, [], ◌∷◌, ◌++◌, map, ◌==◌,
}
use indexer_gateway_auth.Prelude.{
  Bytes, is_some_of, Result, ok, err, ◌>>=◌, map_err, filter, is_empty, if◌then◌else◌,
}
use indexer_gateway_auth.Classify.Syntax.{OperationType, OperationDefinition, Document}
use indexer_gateway_auth.Classify.Fields.{collect_top_fields}

pub data Scope : Type 0 where
  read write : Scope

pub data OperationKind : Type 0 where
  query mutation subscription : OperationKind

-- `OperationKind::from`
abbrev pub kind_from : OperationType → OperationKind
kind_from OperationType.query = query
kind_from OperationType.mutation = mutation
kind_from OperationType.subscription = subscription

-- `OperationKind::scope`
abbrev pub kind_scope : OperationKind → Scope
kind_scope mutation = write
kind_scope query = read
kind_scope subscription = read

pub record OperationInfo : Type 0 where
  pub name : Option String
  pub kind : OperationKind
  pub top_level_fields : List String

-- `OperationInfo::scope`
abbrev pub info_scope : OperationInfo → Scope
info_scope op = kind_scope op.kind

pub record Classification : Type 0 where
  pub operations : List OperationInfo
  pub scope : Scope

pub data ClassifyError : Type 0 where
  invalid_json : String → ClassifyError
  empty : ClassifyError
  graphql_parse : String → ClassifyError

pub record GraphQlRequest : Type 0 where
  pub query : String
  pub operation_name : Option String

pub data RawBody : Type 0 where
  single : GraphQlRequest → RawBody
  batch : List GraphQlRequest → RawBody

abbrev pub requests_of : RawBody → List GraphQlRequest
requests_of (single r) = r ∷ []
requests_of (batch v) = v

-- `serde_json::from_slice::<RawBody>` and `parse_query`, each with its error as text.
pub record Parsers : Type 0 where
  pub from_slice : Bytes → Result String RawBody
  pub parse_query : String → Result String Document

abbrev pub NamedOperation : Type 0
NamedOperation = Option String × OperationDefinition

-- An operation is passed over if a name is selected and is not its own.
abbrev pub is_selected : Option String → NamedOperation → Bool
is_selected none op = true
is_selected (some sel) op = is_some_of op.0 sel

-- If none matches, all operations are classified.
unfoldable pub to_classify : Option String → List NamedOperation → List NamedOperation
to_classify selected operations =
    let matched = filter (is_selected selected) operations in
    if is_empty matched then operations else matched

unfoldable pub operation_info : Document → NamedOperation → OperationInfo
operation_info doc op = record {
  name = op.0;
  kind = kind_from (op.1).ty;
  top_level_fields = collect_top_fields doc.fragments (op.1).selection_set;
}

-- `Ord::max` of the derived order, in which a write outranks a read.
abbrev pub scope_max : Scope → Scope → Scope
scope_max write _ = write
scope_max read s = s

-- `iter.max().unwrap_or(Scope::Read)`
unfoldable pub max_scope : List OperationInfo → Scope
max_scope [] = read
max_scope (op ∷ ops) = scope_max (info_scope op) (max_scope ops)

module _ (parsers : Parsers) where
  -- One round of the loop over the requests.
  unfoldable pub classify_one : GraphQlRequest → Result ClassifyError (List OperationInfo)
  classify_one req = do
    doc ← map_err graphql_parse (parsers.parse_query req.query)
    let chosen = to_classify req.operation_name doc.operations
    if is_empty chosen then err empty else ok (map (operation_info doc) chosen)

  -- The loop, which returns at the first error.
  unfoldable pub classify_all : List GraphQlRequest → Result ClassifyError (List OperationInfo)
  classify_all [] = ok []
  classify_all (req ∷ reqs) = do
    here ← classify_one req
    later ← classify_all reqs
    ok (here ++ later)

  unfoldable pub classify : Bytes → Result ClassifyError Classification
  classify body = do
    raw ← map_err invalid_json (parsers.from_slice body)
    let requests = requests_of raw
    if is_empty requests then err empty else do
      operations ← classify_all requests
      if is_empty operations
          then err empty
          else ok (record { operations = operations; scope = max_scope operations })
