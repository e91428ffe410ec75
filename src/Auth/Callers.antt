-- ===== src/Auth/Callers.antt =====
-- Whose a request is, in every mode.
use indexer_gateway_auth.Prelude.{
  String, ◌≡◌, refl, sym, subst, ◌∙◌, ◌≢◌, ◌↔◌, ◌⊎◌, inl, inr, Bool, true, Option, none, some, List,
  ap,
}
use indexer_gateway_auth.Prelude.{Result, ok, ◌>>=◌, ok_or, All, Bool-cases}
use indexer_gateway_auth.Json.{Value}
use indexer_gateway_auth.Principal.{Principal, anonymous}
use indexer_gateway_auth.Auth.Error.{AuthError, missing_credentials}
use indexer_gateway_auth.Auth.Token
use indexer_gateway_auth.Auth.Token.{TokenRecord, StaticTokenBackend, token_principal}
use indexer_gateway_auth.Auth.Token.Laws.{LastMatch, here, later, verify_cases}
use indexer_gateway_auth.Auth.Mtls
use indexer_gateway_auth.Auth.Mtls.{ClientCert, Mapping, MtlsBackend, mapping_principal}
use indexer_gateway_auth.Auth.Mtls.Laws.{FirstMatch, Identifies, cert_cases}
use indexer_gateway_auth.Auth.Jwt
use indexer_gateway_auth.Auth.Jwt.{JsonWebToken, principal_from_claims}
use indexer_gateway_auth.Auth.Jwt.Laws.{FirstAccepted, verify_iff}
use indexer_gateway_auth.Auth.{
  Credentials, Authenticator, bearer_auth, jwt_auth, mtls_auth, resolve, authenticate,
}
use indexer_gateway_auth.Auth.Laws.{IsPresented, authenticate-absent, authenticate-presented}

LastMatch-not_absent :
    {t : String} {rs : List TokenRecord} {r : TokenRecord}
    → LastMatch t rs r
    → ¬ All (λ s. s.token ≢ t) rs
LastMatch-not_absent (here e absent) (differs, h) = differs e
LastMatch-not_absent (later m) (differs, h) = LastMatch-not_absent m h

LastMatch-unique :
    {t : String} {rs : List TokenRecord} {r s : TokenRecord}
    → LastMatch t rs r
    → LastMatch t rs s
    → r ≡ s
LastMatch-unique (here e h) (here f k) = refl
LastMatch-unique (here e h) (later m) = absurd (LastMatch-not_absent m h)
LastMatch-unique (later m) (here e h) = absurd (LastMatch-not_absent m h)
LastMatch-unique (later m) (later n) = LastMatch-unique m n

FirstMatch-not_absent :
    {c : ClientCert} {ms : List Mapping} {m : Mapping}
    → FirstMatch c ms m
    → ¬ All (λ n. ¬ Identifies c n) ms
FirstMatch-not_absent (FirstMatch.here i) (differs, h) = differs i
FirstMatch-not_absent (FirstMatch.later n f) (differs, h) = FirstMatch-not_absent f h

FirstMatch-unique :
    {c : ClientCert} {ms : List Mapping} {m n : Mapping}
    → FirstMatch c ms m
    → FirstMatch c ms n
    → m ≡ n
FirstMatch-unique (FirstMatch.here i) (FirstMatch.here j) = refl
FirstMatch-unique (FirstMatch.here i) (FirstMatch.later d f) = absurd (d i)
FirstMatch-unique (FirstMatch.later d f) (FirstMatch.here i) = absurd (d i)
FirstMatch-unique (FirstMatch.later d f) (FirstMatch.later e g) = FirstMatch-unique f g

-- A credential that is taken where it is there.
credential_iff :
    {T A : Type 0} (o : Option T) (verify : T → Result AuthError Principal) (V : T → A → Type 0)
    (W : A → Type 0) (p : Principal)
    → ((t : T) → (verify t ≡ ok p) ↔ ((a : A) × V t a × W a))
    → ((ok_or o missing_credentials >>= verify) ≡ ok p)
      ↔ ((t : T) × (a : A) × (o ≡ some t) × V t a × W a)
credential_iff none verify V W p iff = (λ h. cc, λ (t, a, e, v, w). cc)
credential_iff (some t) verify V W p iff = (
  λ h. let (a, v, w) = (iff t).0 h in (t, a, refl, v, w),
  λ (u, a, e, v, w). let same : u ≡ t = cc in (iff t).1 (a, subst (λ x. V x a) same v, w),
)

presented_or : {A : Type 0} (o : Option A) → (o ≢ none) ⊎ ¬ (o ≢ none)
presented_or none = inr (λ h. h refl)
presented_or (some a) = inl (λ h. cc)

IsPresented-cases :
    {Key : Type 0} (auth : Authenticator Key) (creds : Credentials)
    → IsPresented auth creds ⊎ ¬ IsPresented auth creds
IsPresented-cases (bearer_auth b) creds = presented_or creds.bearer
IsPresented-cases (jwt_auth j) creds = presented_or creds.bearer
IsPresented-cases (mtls_auth m) creds = presented_or creds.client_cert

module _ {Key Jwk : Type 0} (ct_eq : String → String → Bool)
    (ct_eq_iff : (a b : String) → (ct_eq a b ≡ true) ↔ (a ≡ b)) (crate : JsonWebToken Key Jwk) where
  -- Whom the credential that the mode reads identifies: the last record with the presented token;
  -- the claims that the first key which accepts the token gives; or the first mapping that the
  -- client certificate has.
  abbrev pub IsIdentified : Authenticator Key → Credentials → Principal → Type 0
  IsIdentified (bearer_auth b) creds p =
      (t : String) × (r : TokenRecord) × (creds.bearer ≡ some t)
      × LastMatch t b.tokens r
      × (p ≡ token_principal r)
  IsIdentified (jwt_auth j) creds p =
      (t : String) × (claims : Value) × (creds.bearer ≡ some t)
      × FirstAccepted crate t j.validation j.keys claims
      × (p ≡ principal_from_claims j claims)
  IsIdentified (mtls_auth m) creds p =
      (cert : ClientCert) × (mapping : Mapping) × (creds.client_cert ≡ some cert)
      × FirstMatch cert m.mappings mapping
      × (p ≡ mapping_principal mapping)

  token_iff :
      (b : StaticTokenBackend) (t : String) (p : Principal)
      → (Token.verify ct_eq b t ≡ ok p)
        ↔ ((r : TokenRecord) × LastMatch t b.tokens r × (p ≡ token_principal r))
  token_iff b t p = elim (verify_cases ct_eq ct_eq_iff t b) [
    | inl (r, m, e) ↦ (
      λ h. (r, m, cc (e, h)),
      λ (s, n, same).
          e
          ∙ ap (λ (x : TokenRecord). ok (token_principal x)) (LastMatch-unique m n)
          ∙ ap (λ (x : Principal). ok x) (sym same),
    )
    | inr (absent, e) ↦ (λ h. cc (e, h), λ (s, n, _). absurd (LastMatch-not_absent n absent))
  ]

  cert_iff :
      (b : MtlsBackend) (c : ClientCert) (p : Principal)
      → (Mtls.verify b c ≡ ok p)
        ↔ ((m : Mapping) × FirstMatch c b.mappings m × (p ≡ mapping_principal m))
  cert_iff b c p = elim (cert_cases b c) [
    | inl (m, f, e) ↦ (
      λ h. (m, f, cc (e, h)),
      λ (n, g, same).
          e
          ∙ ap (λ (x : Mapping). ok (mapping_principal x)) (FirstMatch-unique f g)
          ∙ ap (λ (x : Principal). ok x) (sym same),
    )
    | inr (absent, e) ↦ (λ h. cc (e, h), λ (n, g, _). absurd (FirstMatch-not_absent g absent))
  ]

  resolve_iff :
      (auth : Authenticator Key) (creds : Credentials) (p : Principal)
      → (resolve ct_eq crate auth creds ≡ ok p) ↔ IsIdentified auth creds p
  unfolding resolve
  resolve_iff (bearer_auth b) creds p =
      credential_iff creds.bearer (λ t. Token.verify ct_eq b t)
        (λ t (r : TokenRecord). LastMatch t b.tokens r) (λ r. p ≡ token_principal r) p
        (λ t. token_iff b t p)
  resolve_iff (jwt_auth j) creds p =
      credential_iff creds.bearer (λ t. Jwt.verify crate j t)
        (λ t (claims : Value). FirstAccepted crate t j.validation j.keys claims)
        (λ claims. p ≡ principal_from_claims j claims) p (λ t. verify_iff crate j t p)
  resolve_iff (mtls_auth m) creds p =
      credential_iff creds.client_cert (λ c. Mtls.verify m c)
        (λ c (n : Mapping). FirstMatch c m.mappings n) (λ n. p ≡ mapping_principal n) p
        (λ c. cert_iff m c p)

  IsIdentified-IsPresented :
      (auth : Authenticator Key) (creds : Credentials) (p : Principal)
      → IsIdentified auth creds p
      → IsPresented auth creds
  IsIdentified-IsPresented (bearer_auth b) creds p (t, r, e, _, _) = λ h. cc (e, h)
  IsIdentified-IsPresented (jwt_auth j) creds p (t, claims, e, _, _) = λ h. cc (e, h)
  IsIdentified-IsPresented (mtls_auth m) creds p (c, n, e, _, _) = λ h. cc (e, h)

  -- Whose a request is, in every mode: that of whom the presented credential identifies; or, where
  -- anonymous reading is allowed, of the anonymous principal if no credential is presented; and of
  -- nobody else.
  pub authenticate_iff :
      (auth : Authenticator Key) (creds : Credentials) (allow : Bool) (p : Principal)
      → (authenticate ct_eq crate auth creds allow ≡ ok p) ↔ (
          IsIdentified auth creds p ⊎ ((allow ≡ true) × ¬ IsPresented auth creds × (p ≡ anonymous)))
  authenticate_iff auth creds allow p = elim (IsPresented-cases auth creds) [
    | inl there ↦
        let (same, _) = authenticate-presented ct_eq crate auth creds allow there in
        let (to, from) = resolve_iff auth creds p in
        (
          λ h. inl (to (sym same ∙ h)),
          elim [ inl i ↦ same ∙ from i | inr (_, absent, _) ↦ absurd (absent there) ],
        )
    | inr absent ↦
        let same = authenticate-absent ct_eq crate auth creds allow absent in
        elim (Bool-cases allow) [
          | inl a ↦ (
            λ h. inr (a, absent, cc (rw a at same, h)),
            elim [
              | inl i ↦ absurd (absent (IsIdentified-IsPresented auth creds p i))
              | inr (_, _, e) ↦ same ∙ rw (a, e) refl
            ],
          )
          | inr a ↦ (
            λ h. absurd (cc (h, rw a at same)),
            elim [
              | inl i ↦ absurd (absent (IsIdentified-IsPresented auth creds p i))
              | inr (b, _, _) ↦ cc (a, b)
            ],
          )
        ]
  ]
