-- ===== src/Tests/Records.antt =====
-- The tests of src/audit.rs: of the JSON of a record, before it is written as a line.
use indexer_gateway_auth.Prelude.{
  ℕ, String, ◌≡◌, refl, Bool, true, false, ◌&&◌, ◌==◌, none, some, [], ◌∷◌,
}
use indexer_gateway_auth.Prelude.{All, nat_eq, is_none, is_empty, if◌then◌else◌}
use indexer_gateway_auth.Json
use indexer_gateway_auth.Json.{Value}
use indexer_gateway_auth.Classify.{Scope, OperationKind}
use indexer_gateway_auth.Audit.{AuditRecord, allowed, denied, null, Outputs, whole, emit}
use indexer_gateway_auth.Prelude.{codes}
use indexer_gateway_auth.Audit.Line.{members, to_json}
use indexer_gateway_auth.Tests.{some_and}

abbrev base_record : AuditRecord
base_record = record {
  timestamp = "2026-06-01T12:00:00+00:00";
  principal = "operator";
  source_ip = some "10.0.0.5";
  scope = some Scope.write;
  operation_name = some "SetRule";
  operation_kinds = OperationKind.mutation ∷ [];
  top_level_fields = "setIndexingRule" ∷ [];
  variables_hash = none;
  variables = none;
  outcome = allowed;
  upstream_status = some 200;
  latency_ms = some 12;
}

-- The numbers of the records here.
abbrev decimal : ℕ → String
decimal n = if nat_eq n 200 then "200" else "12"

abbrev pub is_text : String → Value → Bool
is_text text (Value.string s) = s == text
is_text text _ = false

abbrev pub is_number : String → Value → Bool
is_number text (Value.number n) = n == text
is_number text _ = false

abbrev is_list_of : String → Value → Bool
is_list_of text (Value.array (Json.cons v vs)) = is_text text v
is_list_of text _ = false

-- `v[key]`, which passes a test.
abbrev pub has : AuditRecord → String → (Value → Bool) → Bool
has rec key test = some_and (Json.get key (to_json decimal rec)) test

-- `!obj.contains_key(key)`
abbrev pub lacks : AuditRecord → String → Bool
lacks rec key = is_none (Json.get key (to_json decimal rec))

abbrev allowed_record_serialises_expected_shape : Bool
allowed_record_serialises_expected_shape =
    has base_record "principal" (is_text "operator")
    && has base_record "scope" (is_text "write")
    && has base_record "operation_kinds" (is_list_of "mutation")
    && has base_record "outcome" (is_text "allowed")
    && has base_record "upstream_status" (is_number "200")

abbrev absent_optionals_are_omitted : Bool
absent_optionals_are_omitted =
    let rec : AuditRecord = record base_record {
      source_ip = none;
      upstream_status = none;
      latency_ms = none;
    } in
    lacks rec "source_ip" && lacks rec "upstream_status" && lacks rec "variables"

abbrev denied_outcome_carries_reason : Bool
denied_outcome_carries_reason =
    let rec : AuditRecord = record base_record { outcome = denied "missing [write]" } in
    has rec "outcome" (is_text "denied") && has rec "reason" (is_text "missing [write]")

-- Nothing is written, however a write would end.
abbrev null_sink_does_not_panic : Bool
null_sink_does_not_panic =
    let nothing : Outputs = record { stdout_bytes = []; file_bytes = [] } in
    let out = emit (λ rec. codes "{}") whole null base_record nothing in
    is_empty out.stdout_bytes && is_empty out.file_bytes

audit_tests_pass :
    All
      (λ passed. passed ≡ true)
      (allowed_record_serialises_expected_shape ∷ absent_optionals_are_omitted
        ∷ denied_outcome_carries_reason ∷ null_sink_does_not_panic ∷ [])
unfolding to_json members emit Json.get Json.get_member
audit_tests_pass = (refl, (refl, (refl, (refl, tt))))
