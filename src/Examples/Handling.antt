-- ===== src/Examples/Handling.antt =====
-- Whole requests, handled by a small gateway.
use indexer_gateway_auth.Prelude.{ℕ, zero, String, some, sym, ap, ◌∙◌}
use indexer_gateway_auth.Prelude.{suc, ◌≡◌, refl, ◌⊎◌, [], ◌∷◌}
use indexer_gateway_auth.Prelude.{ok}
use indexer_gateway_auth.Prelude.{strip_prefix, trim, codes}
use indexer_gateway_auth.Prelude.Sets.{tree_insert, tree_extend}
use indexer_gateway_auth.Principal
use indexer_gateway_auth.Principal.{satisfies}
use indexer_gateway_auth.Authz.{
  override_matches, require_for, require_all, required_scopes, authorize,
}
use indexer_gateway_auth.RateLimit.{check}
use indexer_gateway_auth.Auth.{authenticate, resolve}
use indexer_gateway_auth.Auth.Token
use indexer_gateway_auth.Classify.{
  classify, classify_all, classify_one, to_classify, operation_info, max_scope,
}
use indexer_gateway_auth.Classify.Fields.{collect_top_fields}
use indexer_gateway_auth.Proxy.{
  route, strip_prefix_segment, forward, base_for, filter_forward_headers, is_hop_by_hop,
}
use indexer_gateway_auth.Server.Request.{
  classify_request, extract_bearer, get_header, error_response,
}
use Prim.Native.Char.{Char}
use indexer_gateway_auth.Audit.{AuditRecord, denied, file, Outputs, Written, whole, partly}
use indexer_gateway_auth.Prelude.{Bytes, All, List, nat_eq, false, ◌++◌}
use indexer_gateway_auth.Audit.Sink.{lines, output, emit_all, emit_all-lines}
use indexer_gateway_auth.Audit.Line.Laws.{to_json-injective}
use indexer_gateway_auth.Server.Records.{pre_upstream_record}
use indexer_gateway_auth.Server.Handle.{
  answered, proxied, limited, authorized, classified, with_body, authenticated, handle,
}
use indexer_gateway_auth.Server.Ends.{authn, classification_of}
use indexer_gateway_auth.Server.Mediation.{IsForwarded, handle_mediates, handle-write_blocked}
use indexer_gateway_auth.Server.Auditing.{IsUnrecorded, IsRecorded, handle_audits}
use indexer_gateway_auth.Prelude.{Memᴰ, inl}
use indexer_gateway_auth.Classify.{single}
use indexer_gateway_auth.Server.Mutations.{handle-mutation_blocked}
use indexer_gateway_auth.Examples.Samples.{
  send_request, document, send_rules, deps, state, start, post, operator_post, at, viewer, body,
  sent_rules,
}

handle_mediates_example :
    ((handle deps state post at start).1.sent ≡ start.sent)
    ⊎ IsForwarded deps state post at start (handle deps state post at start).1
handle_mediates_example = handle_mediates deps state post at start

handle_audits_example :
    IsRecorded deps state post at start (handle deps state post at start).1
    ⊎ (IsUnrecorded deps state post at × ((handle deps state post at start).1.audit ≡ start.audit))
handle_audits_example = handle_audits deps state post at start

viewer_authenticated : authn deps state post at ≡ ok viewer
unfolding authenticate resolve extract_bearer get_header strip_prefix trim Token.verify Token.scan
    Principal.new
viewer_authenticated = refl

viewer_writes : classification_of deps state post at body ≡ ok sent_rules
unfolding classify_request route strip_prefix_segment strip_prefix classify classify_all
    classify_one to_classify operation_info max_scope collect_top_fields
viewer_writes = refl

handle-write_blocked_example : (handle deps state post at start).1.sent ≡ []
handle-write_blocked_example =
    handle-write_blocked deps state post at start viewer body sent_rules viewer_authenticated refl
      viewer_writes refl (λ e. cc)

handle-mutation_blocked_example : (handle deps state post at start).1.sent ≡ []
unfolding route strip_prefix_segment strip_prefix
handle-mutation_blocked_example =
    handle-mutation_blocked deps state post at start viewer body (single send_request) send_request
      document send_rules viewer_authenticated refl refl refl refl refl (Memᴰ.head refl) refl
      (Memᴰ.tail (Memᴰ.head refl)) (inl refl) refl (λ e. cc)

-- The operator's write is forwarded, without its token and without the path's prefix.
operator_forwarded :
    (handle deps state operator_post at start).1.sent
    ≡ record {
      method = "POST";
      url = "http://agent:8000/graphql";
      headers = ("accept", codes "*/*") ∷ [];
      body = body;
    }
      ∷ []
unfolding handle authenticated authenticate resolve extract_bearer get_header strip_prefix trim
    Token.verify Token.scan Principal.new with_body classified classify_request route
    strip_prefix_segment classify classify_all classify_one to_classify operation_info max_scope
    collect_top_fields authorized authorize required_scopes require_all require_for tree_insert
    tree_extend override_matches satisfies limited check proxied answered forward base_for
    filter_forward_headers is_hop_by_hop
operator_forwarded = refl

viewer_refused : (handle deps state post at start).0.status ≡ 403
unfolding handle authenticated authenticate resolve extract_bearer get_header strip_prefix trim
    Token.verify Token.scan Principal.new with_body classified classify_request route
    strip_prefix_segment classify classify_all classify_one to_classify operation_info max_scope
    collect_top_fields authorized authorize required_scopes require_all require_for tree_insert
    tree_extend override_matches satisfies error_response
viewer_refused = refl

abbrev mark : Char
mark = "I"

abbrev marks : ℕ → String
marks zero = ""
marks (suc n) = String.◌∷◌ mark (marks n)

abbrev count_marks : String → ℕ
count_marks String.[] = zero
count_marks (String.◌∷◌ c s) = suc (count_marks s)

count_marks-marks : (n : ℕ) → count_marks (marks n) ≡ n
count_marks-marks zero = refl
count_marks-marks (suc n) = rw (count_marks-marks n) refl

marks-injective : (m n : ℕ) → marks m ≡ marks n → m ≡ n
marks-injective m n h = sym (count_marks-marks m) ∙ ap count_marks h ∙ count_marks-marks n

abbrev refusal : AuditRecord
refusal = pre_upstream_record post at viewer (some sent_rules) (denied "insufficient scope")

to_json-injective_example : refusal ≡ refusal
to_json-injective_example = to_json-injective marks marks-injective refusal refusal refl

-- The name of the caller stands for the JSON.
abbrev line_of : AuditRecord → Bytes
line_of rec = codes rec.principal

abbrev nothing_written : Outputs
nothing_written = record { stdout_bytes = []; file_bytes = [] }

-- The first write and the last fail midway.
abbrev cut_off : List (AuditRecord × Written)
cut_off = (refusal, partly 3) ∷ []

refusal_one_line : All (λ b. nat_eq b 10 ≡ false) (line_of refusal)
refusal_one_line = (refl, (refl, (refl, (refl, (refl, (refl, tt))))))

emit_all-lines_example :
    (earlier later : List Bytes) × (lines (
        output file (
          emit_all line_of file
            (cut_off ++ (refusal, whole) ∷ (refusal, whole) ∷ cut_off)
            nothing_written))
      ≡ earlier ++ line_of refusal ∷ later)
emit_all-lines_example =
    emit_all-lines line_of file cut_off cut_off refusal refusal nothing_written (λ e. cc)
      refusal_one_line
