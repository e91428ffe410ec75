-- ===== src/Tests/Certificates.antt =====
-- The tests of src/tls.rs. A certificate is a common name and a DNS name, or bytes that are none.
use indexer_gateway_auth.Prelude.{
  String, ◌≡◌, refl, Bool, true, ◌&&◌, ◌==◌, Option, none, some, [], ◌∷◌,
}
use indexer_gateway_auth.Prelude.{All, any, is_none, is_some_of}
use indexer_gateway_auth.Tls.{X509Certificate, dns_name, sans_of, extract_identity}
use indexer_gateway_auth.Tests.{some_and}

abbrev Der : Type 0
Der = Option (String × String)

abbrev from_der : Der → Option X509Certificate
from_der none = none
from_der (some (cn, dns_san)) = some (record {
  common_names = some cn ∷ [];
  subject_alternative_name = some (dns_name dns_san ∷ []);
})

abbrev make_cert : String → String → Der
make_cert cn dns_san = some (cn, dns_san)

abbrev extract_identity_reads_cn_and_san : Bool
extract_identity_reads_cn_and_san =
    some_and (extract_identity from_der (make_cert "operator.indexer.eth" "ci.indexer.eth" ∷ []))
      (λ identity.
        is_some_of identity.subject_cn "operator.indexer.eth"
        && any (λ s. s == "ci.indexer.eth") identity.sans)

abbrev extract_identity_handles_empty_chain : Bool
extract_identity_handles_empty_chain = is_none (extract_identity from_der [])

abbrev extract_identity_rejects_garbage : Bool
extract_identity_rejects_garbage = is_none (extract_identity from_der (none ∷ []))

tls_tests_pass :
    All
      (λ passed. passed ≡ true)
      (extract_identity_reads_cn_and_san ∷ extract_identity_handles_empty_chain
        ∷ extract_identity_rejects_garbage ∷ [])
unfolding extract_identity sans_of
tls_tests_pass = (refl, (refl, (refl, tt)))
