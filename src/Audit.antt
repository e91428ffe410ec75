-- ===== src/Audit.antt =====
-- src/audit.rs: the record of a request, its JSON, and the sinks that records go to.
pub mod Line
pub mod Sink
use indexer_gateway_auth.Prelude.{ℕ, zero, suc, String, Bool, Option, List, [], ◌∷◌, ◌++◌}
use indexer_gateway_auth.Prelude.{Bytes, Result, ok, ◌>>=◌}
use indexer_gateway_auth.Json.{Value}
use indexer_gateway_auth.Classify.{OperationKind, Scope}

pub data Outcome : Type 0 where
  allowed rate_limited : Outcome
  auth_failed denied rejected : String → Outcome

pub record AuditRecord : Type 0 where
  pub timestamp : String
  pub principal : String
  pub source_ip : Option String
  pub scope : Option Scope
  pub operation_name : Option String
  pub operation_kinds : List OperationKind
  pub top_level_fields : List String
  pub variables_hash : Option String
  pub variables : Option Value
  pub outcome : Outcome
  pub upstream_status : Option ℕ
  pub latency_ms : Option ℕ

-- `to_vec` of serde_json, empty on an error; the digest of sha2; and the text of hex.
pub record Fingerprint : Type 0 where
  pub to_vec : Value → Bytes
  pub sha256 : Bytes → Bytes
  pub encode : Bytes → String

unfoldable pub hash_variables : Fingerprint → Value → String
hash_variables f variables = f.encode (f.sha256 (f.to_vec variables))

-- The open file of `File` is what is kept of it in `Outputs`.
pub data AuditSink : Type 0 where
  stdout file null : AuditSink

-- The bytes that were written.
pub record Outputs : Type 0 where
  pub stdout_bytes : Bytes
  pub file_bytes : Bytes

-- How a `writeln!` ends: with all bytes of the line and its newline written, or with an error and so
-- many of them written, which counts those that stdout keeps in its buffer and writes later. A file
-- whose lock is poisoned takes none.
pub data Written : Type 0 where
  whole : Written
  partly : ℕ → Written

abbrev pub take : ℕ → Bytes → Bytes
take n [] = []
take zero (b ∷ bs) = []
take (suc n) (b ∷ bs) = b ∷ take n bs

abbrev pub writeln : Bytes → Written → Bytes
writeln line whole = line ++ 10 ∷ []
writeln line (partly n) = take n (line ++ 10 ∷ [])

-- `emit`: `to_json_line` gives the bytes of the record's JSON text. An error of the write is logged
-- and goes no further.
unfoldable pub emit : (AuditRecord → Bytes) → Written → AuditSink → AuditRecord → Outputs → Outputs
emit to_json_line written stdout rec out = record out {
  stdout_bytes = out.stdout_bytes ++ writeln (to_json_line rec) written;
}
emit to_json_line written file rec out = record out {
  file_bytes = out.file_bytes ++ writeln (to_json_line rec) written;
}
emit to_json_line written null rec out = out

-- `AuditSink::file`: `open_file` opens a file in append mode, and makes it if it is not there.
unfoldable pub file_sink : (String → Result {0, 0} String Unit) → String → Result String AuditSink
file_sink open_file path = do opened ← open_file path; ok file
