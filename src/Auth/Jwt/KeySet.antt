-- ===== src/Auth/Jwt/KeySet.antt =====
-- Which backend a key set gives.
use indexer_gateway_auth.Prelude.{
  ◌≡◌, refl, sym, ap, ◌∙◌, ◌↔◌, ◌⊎◌, inl, inr, true, Option, none, some, List, [], ◌∷◌, arith,
}
use indexer_gateway_auth.Prelude.{ok, Result-cases, Option-cases}
use indexer_gateway_auth.Config.{JwtConfig}
use indexer_gateway_auth.Auth.Jwt.{
  Algorithm, KeyAlgorithm, key_algorithm_to_algorithm, build_validation, JsonWebToken, JwtBackend,
  advertised, first_algorithm, read_jwks, keys_from_jwks, from_jwks, with_keys,
}

-- The algorithm of a key, by its name.
abbrev pub key_algorithm_of : Algorithm → KeyAlgorithm
key_algorithm_of Algorithm.hs256 = KeyAlgorithm.hs256
key_algorithm_of Algorithm.hs384 = KeyAlgorithm.hs384
key_algorithm_of Algorithm.hs512 = KeyAlgorithm.hs512
key_algorithm_of Algorithm.es256 = KeyAlgorithm.es256
key_algorithm_of Algorithm.es384 = KeyAlgorithm.es384
key_algorithm_of Algorithm.rs256 = KeyAlgorithm.rs256
key_algorithm_of Algorithm.rs384 = KeyAlgorithm.rs384
key_algorithm_of Algorithm.rs512 = KeyAlgorithm.rs512
key_algorithm_of Algorithm.ps256 = KeyAlgorithm.ps256
key_algorithm_of Algorithm.ps384 = KeyAlgorithm.ps384
key_algorithm_of Algorithm.ps512 = KeyAlgorithm.ps512
key_algorithm_of Algorithm.ed_dsa = KeyAlgorithm.ed_dsa

key_algorithm_to_algorithm-key_algorithm_of :
    (a : Algorithm) → key_algorithm_to_algorithm (key_algorithm_of a) ≡ some a
unfolding key_algorithm_to_algorithm
key_algorithm_to_algorithm-key_algorithm_of a = ground arith

key_algorithm_of-inverse :
    (k : KeyAlgorithm) (a : Algorithm)
    → key_algorithm_to_algorithm k ≡ some a
    → k ≡ key_algorithm_of a
unfolding key_algorithm_to_algorithm
key_algorithm_of-inverse k a h = ground arith

key_algorithm_to_algorithm-none :
    (k : KeyAlgorithm) → key_algorithm_to_algorithm k ≡ none → k ≡ KeyAlgorithm.other
unfolding key_algorithm_to_algorithm
key_algorithm_to_algorithm-none k h = ground arith

module _ {Key Jwk : Type 0} (crate : JsonWebToken Key Jwk) where
  -- Each JWK has its key, in order.
  abbrev pub KeysOf : List Jwk → List Key → Type 0
  KeysOf [] [] = Unit
  KeysOf (j ∷ js) (k ∷ ks) = (crate.from_jwk j ≡ ok k) × KeysOf js ks
  KeysOf _ _ = ⊥

  -- The algorithm is that of the first JWK which advertises one that is known: those before it
  -- advertise none, or another.
  pub data FirstAdvertised : List Jwk → Algorithm → Type 0 where
    here :
        {j : Jwk} {js : List Jwk} {a : Algorithm}
        → crate.key_algorithm j ≡ some (key_algorithm_of a)
        → FirstAdvertised (j ∷ js) a
    later :
        {j : Jwk} {js : List Jwk} {a : Algorithm}
        → (crate.key_algorithm j ≡ none) ⊎ (crate.key_algorithm j ≡ some KeyAlgorithm.other)
        → FirstAdvertised js a
        → FirstAdvertised (j ∷ js) a

  advertised_iff :
      (j : Jwk) (a : Algorithm)
      → (advertised crate j ≡ some a) ↔ (crate.key_algorithm j ≡ some (key_algorithm_of a))
  advertised_iff j a = (
    λ h. elim (Option-cases (crate.key_algorithm j)) [
      | inl e ↦ cc (rw e at h)
      | inr (k, e) ↦ e ∙ ap (λ x. some x) (key_algorithm_of-inverse k a (rw e at h))
    ],
    λ e. rw e (key_algorithm_to_algorithm-key_algorithm_of a),
  )

  unadvertised_iff :
      (j : Jwk)
      → (advertised crate j ≡ none)
        ↔ ((crate.key_algorithm j ≡ none) ⊎ (crate.key_algorithm j ≡ some KeyAlgorithm.other))
  unfolding key_algorithm_to_algorithm
  unadvertised_iff j = (
    λ h. elim (Option-cases (crate.key_algorithm j)) [
      | inl e ↦ inl e
      | inr (k, e) ↦ inr (e ∙ ap (λ x. some x) (key_algorithm_to_algorithm-none k (rw e at h)))
    ],
    elim [ inl e ↦ rw e refl | inr e ↦ rw e refl ],
  )

  read_jwks-inv :
      (start : Option Algorithm) (j : Jwk) (js : List Jwk) (r : List Key × Option Algorithm)
      → read_jwks crate start (j ∷ js) ≡ ok r
      → (k : Key) × (rest : List Key × Option Algorithm) × (crate.from_jwk j ≡ ok k)
        × (read_jwks crate (first_algorithm crate start j) js ≡ ok rest)
        × (r ≡ (k ∷ rest.0, rest.1))
  unfolding read_jwks
  read_jwks-inv start j js r h = elim (Result-cases (crate.from_jwk j)) [
    | inr (e, p) ↦ absurd (ground arith)
    | inl (k, p) ↦ elim (Result-cases (read_jwks crate (first_algorithm crate start j) js)) [
      | inr (e, q) ↦ absurd (ground arith)
      | inl (rest, q) ↦ (k, rest, p, q, ground arith)
    ]
  ]

  read_jwks-KeysOf :
      (set : List Jwk) (start : Option Algorithm) (keys : List Key) (a : Option Algorithm)
      → read_jwks crate start set ≡ ok (keys, a)
      → KeysOf set keys
  read_jwks-KeysOf [] start [] a h = tt
  read_jwks-KeysOf [] start (k ∷ ks) a h = unfold read_jwks in absurd (ground arith)
  read_jwks-KeysOf (j ∷ js) start keys a h =
      let (k, rest, p, q, same) = read_jwks-inv start j js (keys, a) h in
      let e : keys ≡ k ∷ rest.0 = ap (λ (r : List Key × Option Algorithm). r.0) same in
      rw e (p, read_jwks-KeysOf js (first_algorithm crate start j) rest.0 rest.1 q)

  -- Once an algorithm is known, it stays.
  read_jwks-some :
      (set : List Jwk) (b : Algorithm) (keys : List Key) (a : Option Algorithm)
      → read_jwks crate (some b) set ≡ ok (keys, a)
      → a ≡ some b
  read_jwks-some [] b keys a h = unfold read_jwks in ground arith
  read_jwks-some (j ∷ js) b keys a h =
      let (k, rest, p, q, same) = read_jwks-inv (some b) j js (keys, a) h in
      let e : a ≡ rest.1 = ap (λ (r : List Key × Option Algorithm). r.1) same in
      e ∙ read_jwks-some js b rest.0 rest.1 q

  read_jwks-none :
      (set : List Jwk) (keys : List Key) (a : Algorithm)
      → read_jwks crate none set ≡ ok (keys, some a)
      → FirstAdvertised set a
  read_jwks-none [] keys a h = unfold read_jwks in absurd (ground arith)
  read_jwks-none (j ∷ js) keys a h =
      let (k, rest, p, q, same) = read_jwks-inv none j js (keys, some a) h in
      let e : some a ≡ rest.1 = ap (λ (r : List Key × Option Algorithm). r.1) same in
      elim (Option-cases (advertised crate j)) [
        | inr (b, known) ↦ here (
            (advertised_iff j a).0
              (known ∙ sym (e ∙ read_jwks-some js b rest.0 rest.1 (rw known at q))))
        | inl unknown ↦
            later ((unadvertised_iff j).0 unknown)
              (read_jwks-none js rest.0 a (rw e (rw unknown at q)))
      ]

  read_jwks_complete :
      (set : List Jwk) (start : Option Algorithm) (keys : List Key)
      → KeysOf set keys
      → (a : Option Algorithm) × (read_jwks crate start set ≡ ok (keys, a))
        × (((b : Algorithm) → FirstAdvertised set b → start ≡ none → a ≡ some b))
        × (((b : Algorithm) → start ≡ some b → a ≡ some b))
  unfolding read_jwks
  read_jwks_complete [] start [] h = (start, refl, λ b f e. elim f [ ], λ b e. e)
  read_jwks_complete [] start (k ∷ ks) h = absurd h
  read_jwks_complete (j ∷ js) start [] h = absurd h
  read_jwks_complete (j ∷ js) none (k ∷ ks) (p, h) =
      let (a, q, late, fixed) = read_jwks_complete js (advertised crate j) ks h in
      (a, ground arith, λ b f e. first-known b f a late fixed, λ b e. cc)
    where
      first-known :
          (b : Algorithm)
          → FirstAdvertised (j ∷ js) b
          → (a : Option Algorithm)
          → ((b' : Algorithm) → FirstAdvertised js b' → advertised crate j ≡ none → a ≡ some b')
          → ((b' : Algorithm) → advertised crate j ≡ some b' → a ≡ some b')
          → a ≡ some b
      first-known b (here known) a late fixed = fixed b ((advertised_iff j b).1 known)
      first-known b (later unknown f) a late fixed = late b f ((unadvertised_iff j).1 unknown)
  read_jwks_complete (j ∷ js) (some s) (k ∷ ks) (p, h) =
      let (a, q, late, fixed) = read_jwks_complete js (some s) ks h in
      (a, ground arith, λ b f e. cc, fixed)

  -- The backend is made of all the keys and of the first known algorithm.
  pub from_jwks_made_iff :
      (cfg : JwtConfig) (set : List Jwk) (b : JwtBackend Key)
      → (from_jwks crate cfg set ≡ ok b) ↔ (
          (keys : List Key) × (a : Algorithm) × KeysOf set keys
          × FirstAdvertised set a
          × (b ≡ with_keys cfg keys a))
  unfolding from_jwks keys_from_jwks
  from_jwks_made_iff cfg [] b = (λ h. absurd (ground arith), λ (_, _, _, f, _). elim f [ ])
  from_jwks_made_iff cfg (j ∷ js) b = (
    λ h. elim (Result-cases (read_jwks crate none (j ∷ js))) [
      | inr (e, p) ↦ absurd (ground arith)
      | inl ((keys, found), p) ↦ elim (Option-cases found) [
        | inl e ↦ absurd (ground arith)
        | inr (a, e) ↦ (
          keys,
          a,
          read_jwks-KeysOf (j ∷ js) none keys found p,
          read_jwks-none (j ∷ js) keys a (rw (← e) p),
          ground arith,
        )
      ]
    ],
    λ (keys, a, k, f, same).
        let (found, p, late, _) = read_jwks_complete (j ∷ js) none keys k in
        let e = late a f refl in ground arith,
  )

  -- A key set gives a backend exactly if every JWK has a decoding key and some JWK advertises a
  -- known algorithm. The backend then has all these keys, in order; it validates by the first known
  -- algorithm that is advertised, whatever the families of the keys, and by the issuer and the
  -- audience of the configuration and the start of validity; and it reads the scopes from the
  -- claim that the configuration names.
  pub from_jwks_iff :
      (cfg : JwtConfig) (set : List Jwk) (b : JwtBackend Key)
      → (from_jwks crate cfg set ≡ ok b) ↔ (
          KeysOf set b.keys
          × FirstAdvertised set b.validation.algorithm
          × (b.validation.issuer ≡ cfg.issuer ∷ [])
          × (b.validation.audience ≡ cfg.audience ∷ [])
          × (b.validation.validate_nbf ≡ true)
          × (b.scopes_claim ≡ cfg.scopes_claim))
  unfolding with_keys build_validation
  from_jwks_iff cfg set b = (
    λ h.
        let (keys, a, k, f, same) = (from_jwks_made_iff cfg set b).0 h in
        rw same (k, f, refl, refl, refl, refl),
    λ (k, f, issuer, audience, nbf, claim). (from_jwks_made_iff cfg set b).1 (
      b.keys,
      b.validation.algorithm,
      k,
      f,
      λ i. record {
        keys = b.keys;
        validation = record {
          algorithm = b.validation.algorithm;
          issuer = issuer i;
          audience = audience i;
          validate_nbf = nbf i;
        };
        scopes_claim = claim i;
      },
    ),
  )
