-- ===== src/Server/Auditing.antt =====
-- What reaches the audit trail.
use mathlib.Core.Option
use indexer_gateway_auth.Prelude.{
  ◌≡◌, refl, ◌⊎◌, inl, inr, false, ◌||◌, Option, none, some, List, [], ◌∷◌, ◌++◌, arith,
}
use indexer_gateway_auth.Prelude.{Bytes, Result, ok, err, if◌then◌else◌, Bool-cases}
use indexer_gateway_auth.Principal.{Principal}
use indexer_gateway_auth.Classify.{Scope, read, write, Classification}
use indexer_gateway_auth.Authz.{denied_text}
use indexer_gateway_auth.Auth.Error.{AuthError}
use indexer_gateway_auth.Proxy.{ProxyResponse, ProxyError, UpstreamRequest}
use indexer_gateway_auth.Audit.{
  AuditRecord, Outcome, denied, rejected, rate_limited, hash_variables,
}
use indexer_gateway_auth.Server.Request.{extract_variables, Response}
use indexer_gateway_auth.Server.{Deps, Inner, World, HttpRequest, Moment, is_write}
use indexer_gateway_auth.Server.Records.{auth_failed_record, pre_upstream_record, forwarded_record}
use indexer_gateway_auth.Server.Handle.{answered, handle}
use indexer_gateway_auth.Server.Ends.{
  authn, body_read, classification_of, rate_check, exchange, Ended, unauthenticated, too_large,
  unclassified, unauthorized, over_budget, passed, handle-Ended,
}

module _ {Key Jwk Limiter : Type 0} (deps : Deps Key Jwk Limiter) (state : Inner Key)
    (req : HttpRequest) (at : Moment) where
  -- The request was handled without a record: its body was too large, or it is a read that the
  -- upstream answered and reads are not audited.
  pub data IsUnrecorded : Type 0 where
    large_body :
        (p : Principal)
        → authn deps state req at ≡ ok p
        → body_read deps state req at ≡ none
        → IsUnrecorded
    plain_read :
        (p : Principal) (body : Bytes) (c : Classification) (answer : ProxyResponse)
        → authn deps state req at ≡ ok p
        → body_read deps state req at ≡ some body
        → classification_of deps state req at body ≡ ok c
        → c.scope ≡ read
        → (exchange deps state req at body).1 ≡ ok answer
        → state.audit_reads ≡ false
        → IsUnrecorded

  -- The record says who, at which address and when; and holds no raw variables unless these are
  -- to be logged.
  pub record IsSound (rec : AuditRecord) : Type 0 where
    pub timestamp : rec.timestamp ≡ at.now_rfc3339
    pub source_ip : rec.source_ip ≡ some req.source_ip
    pub principal :
        ((p : Principal) × (authn deps state req at ≡ ok p) × (rec.principal ≡ p.name))
        ⊎ ((e : AuthError) × (authn deps state req at ≡ err e) × (rec.principal ≡ "-"))
    pub secret : state.log_variables ≡ false → rec.variables ≡ none

  abbrev pub IsRecorded : World Limiter → World Limiter → Type 0
  IsRecorded before after =
      (rec : AuditRecord) × (after.audit ≡ before.audit ++ rec ∷ []) × IsSound rec

  answered-audited :
      (p : Principal) (c : Classification) (body : Bytes)
      (f : List UpstreamRequest × Result ProxyError ProxyResponse) (w : World Limiter)
      → authn deps state req at ≡ ok p
      → IsRecorded w (answered deps state req at p c body f w).1
        ⊎ ((answer : ProxyResponse) × (f.1 ≡ ok answer)
            × (c.scope ≡ read)
            × (state.audit_reads ≡ false)
            × ((answered deps state req at p c body f w).1.audit ≡ w.audit))
  unfolding answered
  answered-audited p c body (rs, err x) w a = inl (
    _,
    refl,
    record { timestamp = refl; source_ip = refl; principal = inl (p, a, refl); secret = λ s. refl },
  )
  answered-audited p c body (rs, ok r) w a =
      elim (Bool-cases (is_write c.scope || state.audit_reads)) [
        | inl e ↦
            let variables = extract_variables deps.from_slice body in
            let hash = Option.map (hash_variables deps.fingerprint) variables in
            let logged = if state.log_variables then variables else none in
            inl (
              forwarded_record req at p c hash logged (some r.status),
              rw e refl,
              record {
                timestamp = refl;
                source_ip = refl;
                principal = inl (p, a, refl);
                secret = λ s. rw s refl;
              },
            )
        | inr e ↦ inr (r, refl, is_read c.scope e, ground arith, rw e refl)
      ]
    where
      is_read : (s : Scope) → (is_write s || state.audit_reads) ≡ false → s ≡ read
      is_read read e = refl
      is_read write e = cc

  pre_upstream-IsSound :
      (p : Principal) (c : Option Classification) (outcome : Outcome)
      → authn deps state req at ≡ ok p
      → IsSound (pre_upstream_record req at p c outcome)
  pre_upstream-IsSound p c outcome a = record {
    timestamp = refl;
    source_ip = refl;
    principal = inl (p, a, refl);
    secret = λ s. refl;
  }

  Ended-audited :
      {w : World Limiter} {r : Response × World Limiter}
      → Ended deps state req at w r
      → IsRecorded w r.1 ⊎ (IsUnrecorded × (r.1.audit ≡ w.audit))
  Ended-audited (unauthenticated e a) = inl (
    auth_failed_record req at e,
    refl,
    record { timestamp = refl; source_ip = refl; principal = inr (e, a, refl); secret = λ s. refl },
  )
  Ended-audited (too_large p a b) = inr (large_body p a b, refl)
  Ended-audited (unclassified p body reason a b k) =
      inl (_, refl, pre_upstream-IsSound p none (rejected reason) a)
  Ended-audited (unauthorized p body c d a b k z) =
      inl (_, refl, pre_upstream-IsSound p (some c) (denied (denied_text d)) a)
  Ended-audited (over_budget p body c required a b k z l) =
      inl (_, refl, pre_upstream-IsSound p (some c) rate_limited a)
  Ended-audited {w} (passed p body c required a b k z l) =
      let w1 = record w { rate_limiters = (rate_check deps state req at w p c).0 } in
      elim (answered-audited p c body (exchange deps state req at body) w1 a) [
        | inl recorded ↦ inl recorded
        | inr (answer, e, s, off, same) ↦ inr (plain_read p body c answer a b k s e off, same)
      ]

  -- A request leaves exactly one audit record, or none; and none only if its body was too large, or
  -- it is a read that the upstream answered while reads are not audited. So every write that passed
  -- and every refusal but the one for size is recorded. The record has the time, the address, and
  -- the caller's name or "-"; and no raw variables unless these are to be logged.
  pub handle_audits :
      (w : World Limiter)
      → IsRecorded w (handle deps state req at w).1
        ⊎ (IsUnrecorded × ((handle deps state req at w).1.audit ≡ w.audit))
  handle_audits w = Ended-audited (handle-Ended deps state req at w)
