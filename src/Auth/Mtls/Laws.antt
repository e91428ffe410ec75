-- ===== src/Auth/Mtls/Laws.antt =====
-- Which mapping a client certificate has.
use indexer_gateway_auth.Prelude.{◌≡◌, refl, ◌↔◌, ◌⊎◌, inl, inr, true, some, List, [], ◌∷◌, arith}
use indexer_gateway_auth.Prelude.{ok, err, All, Bool-cases}
use indexer_gateway_auth.Prelude.Text.{is_some_of_iff}
use indexer_gateway_auth.Prelude.Sets.{any-eq-contains, ◌∈◌}
use indexer_gateway_auth.Auth.Error.{invalid_client_cert}
use indexer_gateway_auth.Auth.Mtls.{
  ClientCert, Mapping, MtlsBackend, matches, mapping_principal, verify_from, verify,
}

-- The certificate's common name, or one of its alternative names, is the mapping's subject.
abbrev pub Identifies : ClientCert → Mapping → Type 0
Identifies cert m = (cert.subject_cn ≡ some m.subject) ⊎ (m.subject ∈ cert.sans)

-- The mapping is the first one in the list that the certificate identifies.
pub data FirstMatch (cert : ClientCert) : List Mapping → Mapping → Type 0 where
  here : {m : Mapping} {ms : List Mapping} → Identifies cert m → FirstMatch cert (m ∷ ms) m
  later :
      {m n : Mapping} {ms : List Mapping}
      → ¬ Identifies cert n
      → FirstMatch cert ms m
      → FirstMatch cert (n ∷ ms) m

matches_iff : (cert : ClientCert) (m : Mapping) → (matches cert m ≡ true) ↔ Identifies cert m
unfolding matches
matches_iff cert m =
    ground (arith, is_some_of_iff cert.subject_cn m.subject, any-eq-contains m.subject cert.sans)

verify_from_cases :
    (cert : ClientCert) (ms : List Mapping)
    → ((m : Mapping) × FirstMatch cert ms m × (verify_from cert ms ≡ ok (mapping_principal m)))
      ⊎ (All (λ m. ¬ Identifies cert m) ms × (verify_from cert ms ≡ err invalid_client_cert))
unfolding verify_from
verify_from_cases cert [] = inr (tt, refl)
verify_from_cases cert (m ∷ ms) = elim (Bool-cases (matches cert m)) [
  | inl e ↦ inl (m, here ((matches_iff cert m).0 e), rw e)
  | inr e ↦
      let differs : ¬ Identifies cert m = λ i. cc (e, (matches_iff cert m).1 i) in
      elim (verify_from_cases cert ms) [
        | inl (n, f, h) ↦ inl (n, later differs f, rw e h)
        | inr (no_match, h) ↦ inr ((differs, no_match), rw e h)
      ]
]

-- A verified certificate gives the principal of the first mapping whose subject is its common name
-- or one of its alternative names; it is refused exactly if there is no such mapping.
pub cert_cases :
    (backend : MtlsBackend) (cert : ClientCert)
    → ((m : Mapping) × FirstMatch cert backend.mappings m
        × (verify backend cert ≡ ok (mapping_principal m)))
      ⊎ (All (λ m. ¬ Identifies cert m) backend.mappings
          × (verify backend cert ≡ err invalid_client_cert))
unfolding verify
cert_cases backend cert = verify_from_cases cert backend.mappings
