-- ===== src/Auth/Token/Laws.antt =====
-- Which token a presented text is, where the comparison is equality of texts.
use indexer_gateway_auth.Prelude.{
  String, ◌≡◌, refl, ◌≢◌, ◌↔◌, ◌⊎◌, inl, inr, Bool, true, Option, none, some, List, [], ◌∷◌, arith,
}
use indexer_gateway_auth.Prelude.{ok, err, All, Bool-cases, if◌then◌else◌}
use indexer_gateway_auth.Auth.Error.{invalid_token}
use indexer_gateway_auth.Auth.Token.{TokenRecord, StaticTokenBackend, token_principal, scan, verify}

-- The record is the last one in the list with the presented token.
pub data LastMatch (presented : String) : List TokenRecord → TokenRecord → Type 0 where
  here :
      {r : TokenRecord} {rs : List TokenRecord}
      → r.token ≡ presented
      → All (λ s. s.token ≢ presented) rs
      → LastMatch presented (r ∷ rs) r
  later :
      {r s : TokenRecord} {rs : List TokenRecord}
      → LastMatch presented rs r
      → LastMatch presented (s ∷ rs) r

-- `ct_eq_iff` is what `ct_eq` of the crate `subtle` promises: the answer of an equality test.
module _ (ct_eq : String → String → Bool)
    (ct_eq_iff : (a b : String) → (ct_eq a b ≡ true) ↔ (a ≡ b)) (presented : String) where
  scan_cases :
      (rs : List TokenRecord) (matched : Option TokenRecord)
      → ((r : TokenRecord) × LastMatch presented rs r × (scan ct_eq presented matched rs ≡ some r))
        ⊎ (All (λ s. s.token ≢ presented) rs × (scan ct_eq presented matched rs ≡ matched))
  unfolding scan
  scan_cases [] matched = inr (tt, refl)
  scan_cases (r ∷ rs) matched =
      elim (scan_cases rs (if ct_eq r.token presented then some r else matched)) [
        | inl (s, m, e) ↦ inl (s, later m, e)
        | inr (none_later, e) ↦ elim (Bool-cases (ct_eq r.token presented)) [
          | inl same ↦ inl (r, here ((ct_eq_iff _ _).0 same) none_later, ground arith)
          | inr other ↦
              inr ((λ same. cc ((ct_eq_iff r.token presented).1 same), none_later), ground arith)
        ]
      ]

  -- A presented token gives the principal of the last configured record with that token; it is
  -- refused exactly if no record has it.
  pub verify_cases :
      (backend : StaticTokenBackend)
      → ((r : TokenRecord) × LastMatch presented backend.tokens r
          × (verify ct_eq backend presented ≡ ok (token_principal r)))
        ⊎ (All (λ s. s.token ≢ presented) backend.tokens
            × (verify ct_eq backend presented ≡ err invalid_token))
  unfolding verify
  verify_cases backend = elim (scan_cases backend.tokens none) [
    | inl (r, m, e) ↦ inl (r, m, rw e)
    | inr (no_match, e) ↦ inr (no_match, rw e)
  ]
