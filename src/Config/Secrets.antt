-- ===== src/Config/Secrets.antt =====
-- What the resolution of `env:NAME` references does to a configuration.
use Prim.Native.String
use indexer_gateway_auth.Prelude.{
  String, ◌≡◌, refl, ◌↔◌, ◌⊎◌, inl, inr, Option, none, some, List, [], ◌∷◌, arith,
}
use indexer_gateway_auth.Prelude.{strip_prefix, strip_prefix-eq-some, ok, Option-cases}
use indexer_gateway_auth.Config.{
  Config, TokenEntry, JwtConfig, resolve_secret, resolve_tokens, resolve_jwt, resolve_secrets,
}

-- `raw` is a reference to the variable.
abbrev pub IsReference : String → String → Type 0
IsReference raw var = raw ≡ String.◌++◌ "env:" var

module _ (env : String → Option String) where
  -- The value that a secret stands for: that of the variable that it names, or itself.
  abbrev pub StandsFor : String → String → Type 0
  StandsFor raw value =
      ((var : String) × IsReference raw var × (env var ≡ some value))
      ⊎ (((var : String) → ¬ IsReference raw var) × (value ≡ raw))

  abbrev pub TokenResolved : TokenEntry → TokenEntry → Type 0
  TokenResolved t u = StandsFor t.token u.token × (u.name ≡ t.name) × (u.scopes ≡ t.scopes)

  abbrev pub TokensResolved : List TokenEntry → List TokenEntry → Type 0
  TokensResolved [] [] = Unit
  TokensResolved (t ∷ ts) (u ∷ us) = TokenResolved t u × TokensResolved ts us
  TokensResolved _ _ = ⊥

  abbrev pub SecretResolved : Option String → Option String → Type 0
  SecretResolved none none = Unit
  SecretResolved (some raw) (some value) = StandsFor raw value
  SecretResolved _ _ = ⊥

  abbrev pub JwtResolved : Option JwtConfig → Option JwtConfig → Type 0
  JwtResolved none none = Unit
  JwtResolved (some j) (some k) =
      SecretResolved j.hs256_secret k.hs256_secret
      × (k ≡ record j { hs256_secret = k.hs256_secret })
  JwtResolved _ _ = ⊥

  -- `c'` is `c` with every secret replaced by what it stands for, and nothing else changed.
  pub record IsResolved (c c' : Config) : Type 0 where
    pub tokens : TokensResolved c.auth.tokens c'.auth.tokens
    pub jwt_secret : JwtResolved c.auth.jwt c'.auth.jwt
    pub rest_same :
        c' ≡ record c { auth = record c.auth { tokens = c'.auth.tokens; jwt = c'.auth.jwt } }

  resolve_secret_iff :
      (raw value : String) → (resolve_secret env raw ≡ ok value) ↔ StandsFor raw value
  unfolding resolve_secret
  resolve_secret_iff raw value = elim (Option-cases (strip_prefix raw "env:")) [
    | inl e ↦ (
      λ h. inr (λ var r. cc (e, (strip_prefix-eq-some raw "env:" var).1 r), ground arith),
      elim [
        | inl (var, r, _) ↦ cc (e, (strip_prefix-eq-some raw "env:" var).1 r)
        | inr (_, same) ↦ rw (e, resolve_secret, same) refl
      ],
    )
    | inr (var, e) ↦
        let r = (strip_prefix-eq-some raw "env:" var).0 e in
        (
          λ h. inl (var, r, ground arith),
          elim [
            | inl (other, r', set) ↦ ground (arith, (strip_prefix-eq-some raw "env:" other).1 r')
            | inr (literal, _) ↦ absurd (literal var r)
          ],
        )
  ]

  resolve_tokens_iff :
      (ts us : List TokenEntry) → (resolve_tokens env ts ≡ ok us) ↔ TokensResolved ts us
  unfolding resolve_tokens
  resolve_tokens_iff [] [] = (λ _. tt, λ _. refl)
  resolve_tokens_iff [] (u ∷ us) = (λ h. cc, λ h. absurd h)
  resolve_tokens_iff (t ∷ ts) [] = (λ h. absurd (ground arith), λ h. absurd h)
  resolve_tokens_iff (t ∷ ts) (u ∷ us) =
      ground (arith, resolve_secret_iff t.token u.token, resolve_tokens_iff ts us)

  resolve_jwt_iff : (j k : Option JwtConfig) → (resolve_jwt env j ≡ ok k) ↔ JwtResolved j k
  unfolding resolve_jwt
  resolve_jwt_iff none none = (λ _. tt, λ _. refl)
  resolve_jwt_iff none (some k) = (λ h. cc, λ h. absurd h)
  resolve_jwt_iff (some j) none = (λ h. absurd (ground arith), λ h. absurd h)
  resolve_jwt_iff (some j) (some k) = elim (Option-cases j.hs256_secret) [
    | inl e ↦ ground arith
    | inr (raw, e) ↦ elim (Option-cases k.hs256_secret) [
      | inl e' ↦ ground arith
      | inr (value, e') ↦ ground (arith, resolve_secret_iff raw value)
    ]
  ]

  -- Resolution succeeds with a configuration exactly if that is the given one with each token and
  -- the JWT secret replaced: a reference `env:NAME` by the value of a variable that is set, any
  -- other text by itself. Nothing else of the configuration changes.
  pub resolve_secrets_iff : (c c' : Config) → (resolve_secrets env c ≡ ok c') ↔ IsResolved c c'
  unfolding resolve_secrets
  resolve_secrets_iff c c' = ground (
    arith,
    resolve_tokens_iff c.auth.tokens c'.auth.tokens,
    resolve_jwt_iff c.auth.jwt c'.auth.jwt,
  )
