-- ===== src/Tests/Backends.antt =====
-- The tests of src/auth/token.rs, src/auth/mtls.rs and src/ratelimit.rs. The comparison of subtle is
-- equality, and a limiter has as many cells as the budget of its minute.
use indexer_gateway_auth.Prelude.{
  zero, suc, ℕ, String, ◌≡◌, refl, Bool, true, false, not, ◌&&◌, ◌==◌, some, List, [], ◌∷◌,
}
use indexer_gateway_auth.Prelude.{All}
use indexer_gateway_auth.Prelude.Sets.{contains}
use indexer_gateway_auth.Config.{TokenEntry, MtlsMapping}
use indexer_gateway_auth.Principal
use indexer_gateway_auth.Principal.{Principal}
use indexer_gateway_auth.Classify.{Scope}
use indexer_gateway_auth.Auth.Error.{AuthError}
use indexer_gateway_auth.Auth.Token
use indexer_gateway_auth.Auth.Mtls
use indexer_gateway_auth.Auth.Mtls.{ClientCert}
use indexer_gateway_auth.RateLimit
use indexer_gateway_auth.RateLimit.{RateLimiters}
use indexer_gateway_auth.Examples.Samples.{governor}
use indexer_gateway_auth.Tests.{is_ok, ok_and, err_and}

abbrev ct_eq : String → String → Bool
ct_eq a b = a == b

abbrev entry : String → String → List String → TokenEntry
entry name token scopes = record { name = name; token = token; scopes = scopes }

abbrev known_token_maps_to_principal : Bool
known_token_maps_to_principal =
    ok_and
      (Token.verify ct_eq
        (Token.new
          (entry "ci" "tok-ci" ("read" ∷ []) ∷ entry "op" "tok-op" ("read" ∷ "write" ∷ []) ∷ []))
        "tok-op")
      (λ p. p.name == "op" && contains p.scopes "write")

-- `matches!(_, Err(error))`, for the errors without a text.
abbrev is_invalid_token : AuthError → Bool
is_invalid_token AuthError.invalid_token = true
is_invalid_token _ = false

abbrev is_invalid_client_cert : AuthError → Bool
is_invalid_client_cert AuthError.invalid_client_cert = true
is_invalid_client_cert _ = false

abbrev unknown_token_is_rejected : Bool
unknown_token_is_rejected =
    err_and (Token.verify ct_eq (Token.new (entry "ci" "tok-ci" ("read" ∷ []) ∷ [])) "nope")
      is_invalid_token

abbrev empty_backend_rejects_everything : Bool
empty_backend_rejects_everything = not (is_ok (Token.verify ct_eq (Token.new []) "anything"))

abbrev mapping : String → String → List String → MtlsMapping
mapping subject name scopes = record { subject = subject; name = name; scopes = scopes }

abbrev matches_by_common_name : Bool
matches_by_common_name =
    ok_and
      (Mtls.verify (Mtls.new (mapping "operator.indexer.eth" "operator" ("write" ∷ []) ∷ []))
        (record { subject_cn = some "operator.indexer.eth"; sans = [] }))
      (λ p. p.name == "operator")

abbrev matches_by_san : Bool
matches_by_san =
    ok_and
      (Mtls.verify (Mtls.new (mapping "ci.indexer.eth" "ci" ("read" ∷ []) ∷ []))
        (record { subject_cn = some "irrelevant"; sans = "ci.indexer.eth" ∷ [] }))
      (λ p. p.name == "ci")

abbrev unmapped_certificate_is_rejected : Bool
unmapped_certificate_is_rejected =
    err_and
      (Mtls.verify (Mtls.new (mapping "known" "k" ("read" ∷ []) ∷ []))
        (record { subject_cn = some "stranger"; sans = [] }))
      is_invalid_client_cert

abbrev Limits : Type 0
Limits = RateLimiters (String → ℕ)

-- The answers to checks one after another, in the first minute.
abbrev answers : Limits → List (Scope × String) → List Bool
answers limiters [] = []
answers limiters ((scope, key) ∷ rest) =
    let (later, allowed) = RateLimit.check governor limiters 0 scope key in
    allowed ∷ answers later rest

abbrev same_answers : List Bool → List Bool → Bool
same_answers [] [] = true
same_answers (true ∷ as_list) (true ∷ bs) = same_answers as_list bs
same_answers (false ∷ as_list) (false ∷ bs) = same_answers as_list bs
same_answers _ _ = false

abbrev allows_up_to_burst_then_blocks : Bool
allows_up_to_burst_then_blocks =
    same_answers
      (answers (RateLimit.new governor 0 2)
        ((Scope.write, "op") ∷ (Scope.write, "op") ∷ (Scope.write, "op") ∷ []))
      (true ∷ true ∷ false ∷ [])

abbrev budgets_are_per_principal : Bool
budgets_are_per_principal =
    same_answers
      (answers (RateLimit.new governor 0 1)
        ((Scope.write, "alice") ∷ (Scope.write, "alice") ∷ (Scope.write, "bob") ∷ []))
      (true ∷ false ∷ true ∷ [])

abbrev read_and_write_budgets_are_independent : Bool
read_and_write_budgets_are_independent =
    same_answers
      (answers (RateLimit.new governor 5 1)
        ((Scope.write, "p") ∷ (Scope.write, "p") ∷ (Scope.read, "p") ∷ (Scope.read, "p") ∷ []))
      (true ∷ false ∷ true ∷ true ∷ [])

-- A write and a read of "p" pass, and again, so many times.
abbrev always_pass : ℕ → Limits → Bool
always_pass zero limiters = true
always_pass (suc n) limiters =
    let (written, wrote) = RateLimit.check governor limiters 0 Scope.write "p" in
    let (later, has_read) = RateLimit.check governor written 0 Scope.read "p" in
    wrote && has_read && always_pass n later

abbrev zero_means_unlimited : Bool
zero_means_unlimited = always_pass 1000 (RateLimit.new governor 0 0)

rate_limit_tests_pass :
    All
      (λ passed. passed ≡ true)
      (allows_up_to_burst_then_blocks ∷ budgets_are_per_principal
        ∷ read_and_write_budgets_are_independent ∷ zero_means_unlimited ∷ [])
unfolding RateLimit.new RateLimit.build RateLimit.check
rate_limit_tests_pass = (refl, (refl, (refl, (refl, tt))))

auth_tests_pass :
    All
      (λ passed. passed ≡ true)
      (known_token_maps_to_principal ∷ unknown_token_is_rejected ∷ empty_backend_rejects_everything
        ∷ matches_by_common_name ∷ matches_by_san ∷ unmapped_certificate_is_rejected ∷ [])
unfolding Token.verify Token.scan Token.new Mtls.new Mtls.verify Mtls.verify_from Mtls.matches
    Principal.new
auth_tests_pass = (refl, (refl, (refl, (refl, (refl, (refl, tt))))))
