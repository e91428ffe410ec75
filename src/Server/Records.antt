-- ===== src/Server/Records.antt =====
-- The audit records that src/server.rs builds.
use mathlib.Core.Option
use indexer_gateway_auth.Prelude.{ℕ, String, Option, none, some, List, []}
use indexer_gateway_auth.Prelude.{and_then}
use indexer_gateway_auth.Json.{Value}
use indexer_gateway_auth.Principal.{Principal}
use indexer_gateway_auth.Classify.{OperationKind, Classification}
use indexer_gateway_auth.Auth.Error.{AuthError, error_text}
use indexer_gateway_auth.Audit.{Outcome, allowed, auth_failed, AuditRecord}
use indexer_gateway_auth.Server.Request.{first_op_name, top_fields, operation_kinds}
use indexer_gateway_auth.Server.{HttpRequest, Moment}

abbrev pub kinds_or_none : Option Classification → List OperationKind
kinds_or_none none = []
kinds_or_none (some c) = operation_kinds c

abbrev pub fields_or_none : Option Classification → List String
fields_or_none none = []
fields_or_none (some c) = top_fields c

module _ (req : HttpRequest) (at : Moment) where
  -- The record of a request that nobody was identified for.
  abbrev pub auth_failed_record : AuthError → AuditRecord
  auth_failed_record e = record {
    timestamp = at.now_rfc3339;
    principal = "-";
    source_ip = some req.source_ip;
    scope = none;
    operation_name = none;
    operation_kinds = [];
    top_level_fields = [];
    variables_hash = none;
    variables = none;
    outcome = auth_failed (error_text e);
    upstream_status = none;
    latency_ms = none;
  }

  -- The record of `audit_pre_upstream`.
  abbrev pub pre_upstream_record : Principal → Option Classification → Outcome → AuditRecord
  pre_upstream_record p c outcome = record {
    timestamp = at.now_rfc3339;
    principal = p.name;
    source_ip = some req.source_ip;
    scope = Option.map (λ k. k.scope) c;
    operation_name = and_then c first_op_name;
    operation_kinds = kinds_or_none c;
    top_level_fields = fields_or_none c;
    variables_hash = none;
    variables = none;
    outcome = outcome;
    upstream_status = none;
    latency_ms = none;
  }

  -- The record of a request that was forwarded, with an answer or without.
  abbrev pub forwarded_record :
      Principal → Classification → Option String → Option Value → Option ℕ → AuditRecord
  forwarded_record p c variables_hash variables upstream_status = record {
    timestamp = at.now_rfc3339;
    principal = p.name;
    source_ip = some req.source_ip;
    scope = some c.scope;
    operation_name = first_op_name c;
    operation_kinds = operation_kinds c;
    top_level_fields = top_fields c;
    variables_hash = variables_hash;
    variables = variables;
    outcome = allowed;
    upstream_status = upstream_status;
    latency_ms = some at.latency_ms;
  }
