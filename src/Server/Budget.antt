-- ===== src/Server/Budget.antt =====
-- What a check of the limiters takes from the budget of a caller.
use indexer_gateway_auth.Prelude.{
  ℕ, ◌+◌, ◌≤◌, String, ◌≡◌, refl, sym, ◌∙◌, ◌≢◌, inl, inr, Bool, ◌&&◌, Option, some, ◌==◌, arith,
  eq_iff,
}
use indexer_gateway_auth.Prelude.{ltb, Bool-cases, if◌then◌else◌}
use indexer_gateway_auth.Prelude.Gather.{tally}
use indexer_gateway_auth.Classify.{Scope, read, write}
use indexer_gateway_auth.Prelude.{false, nat_eq}
use indexer_gateway_auth.RateLimit.{Governor, RateLimiters, new, build, check}
use indexer_gateway_auth.RateLimit.Laws.{IsGovernor, budget}
use indexer_gateway_auth.Metrics.{Observation, Metrics}
use indexer_gateway_auth.Server.Request.{scope_str}
use indexer_gateway_auth.Server.{Deps}

-- Whether an observation is of a scope and a caller: 1 or 0.
abbrev pub observed_of : Scope → String → Observation → ℕ
observed_of s name o = if o.scope == scope_str s && o.principal == name then 1 else 0

-- The requests that were let through and are answered, as the metrics tell.
abbrev pub forwarded : Scope → String → Metrics → ℕ
forwarded s name m = tally (observed_of s name) m.requests

abbrev pub limiter_of : {Limiter : Type 0} → Scope → RateLimiters Limiter → Option Limiter
limiter_of read limiters = limiters.read
limiter_of write limiters = limiters.write

-- What an observation of a scope and a caller weighs, if it is made.
abbrev pub weight : Scope → String → Scope → String → Bool → ℕ
weight s name scope key passes =
    let one = if scope_str scope == scope_str s && key == name then 1 else 0 in
    if passes then one else 0

module _ {Key Jwk Limiter : Type 0} (deps : Deps Key Jwk Limiter) (laws : IsGovernor deps.governor)
    (name : String) (now : ℕ) where
  open laws use {cells, check_key-allows, cells-check_self, cells-check_other}

  takes_self :
      (l : Limiter) (passes : Bool)
      → (deps.governor.check_key l now name).1 ≡ passes
      → cells (deps.governor.check_key l now name).0 now name + (if passes then 1 else 0)
        ≤ cells l now name
  takes_self l passes e =
      let some_left : ltb 0 (cells l now name) ≡ passes = sym (check_key-allows l now name) ∙ e in
      ground (arith, some_left, cells-check_self l now name)

  -- A check of a key takes what it lets pass.
  check_key-takes :
      (l : Limiter) (key : String) (passes : Bool)
      → (deps.governor.check_key l now key).1 ≡ passes
      → cells (deps.governor.check_key l now key).0 now name
          + (if passes then (if key == name then 1 else 0) else 0)
        ≤ cells l now name
  check_key-takes l key passes e = elim (Bool-cases (key == name)) [
    | inl same ↦
        let key_is : key ≡ name = (eq_iff key name).0 same in
        rw (same, key_is) (takes_self l passes (rw key_is at e))
    | inr other ↦
        let apart : name ≢ key = λ h. ground (arith, eq_iff key name) in
        rw other (ground (arith, cells-check_other l now key now name apart))
  ]

  abbrev pub Takes : Scope → ℕ → Limiter → RateLimiters Limiter → Type 0
  Takes s taken l limiters =
      (l' : Limiter) × (limiter_of s limiters ≡ some l')
      × (cells l' now name + taken ≤ cells l now name)

  pub check-Takes :
      (s scope : Scope) (key : String) (passes : Bool) (limiters : RateLimiters Limiter)
      (l : Limiter)
      → limiter_of s limiters ≡ some l
      → (check deps.governor limiters now scope key).1 ≡ passes
      → Takes s (weight s name scope key passes) l (check deps.governor limiters now scope key).0
  unfolding check
  check-Takes read read key passes limiters l h e =
      let e' = (rw h at e) in rw h (_, refl, check_key-takes l key passes e')
  check-Takes write write key passes limiters l h e =
      let e' = (rw h at e) in rw h (_, refl, check_key-takes l key passes e')
  check-Takes read write key passes limiters l h e = (l, h, ground arith)
  check-Takes write read key passes limiters l h e = (l, h, ground arith)

module _ {Limiter : Type 0} (governor : Governor Limiter) (laws : IsGovernor governor)
    (name : String) (now : ℕ) where
  -- A fresh limiter has the whole budget of its scope.
  pub new-limiter_of :
      (read_per_minute write_per_minute : ℕ) (s : Scope)
      → budget governor laws read_per_minute write_per_minute s ≢ 0
      → (l : Limiter) × (limiter_of s (new governor read_per_minute write_per_minute) ≡ some l)
        × (laws.cells l now name ≡ budget governor laws read_per_minute write_per_minute s)
  unfolding new build
  new-limiter_of r b read h =
      let e : nat_eq r 0 ≡ false = ground arith in
      (governor.keyed r, rw e refl, laws.cells-keyed r now name)
  new-limiter_of r b write h =
      let e : nat_eq b 0 ≡ false = ground arith in
      (governor.keyed b, rw e refl, laws.cells-keyed b now name)
