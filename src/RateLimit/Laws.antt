-- ===== src/RateLimit/Laws.antt =====
-- Budgets: how many requests pass at one instant, and that budgets do not touch one another.
use indexer_gateway_auth.Prelude.{
  ℕ, zero, suc, ◌-◌, String, ◌≡◌, refl, ◌≢◌, ◌⊎◌, inl, inr, Bool, true, false, Option, none, some,
  List, [], ◌∷◌, arith,
}
use indexer_gateway_auth.Prelude.{nat_eq, ltb, All}
use indexer_gateway_auth.Classify.{Scope, read, write}
use indexer_gateway_auth.RateLimit.{Governor, RateLimiters, new, check, check_limiter}

-- What governor promises of a keyed limiter, by the number of cells that a key has left at an
-- instant: a fresh key has the whole burst; a check passes exactly if a cell is left, and takes it;
-- and it leaves the other keys alone, at every instant.
pub record IsGovernor {Limiter : Type 0} (governor : Governor Limiter) : Type 0 where
  pub cells : Limiter → ℕ → String → ℕ
  pub cells-keyed : (n now : ℕ) (key : String) → cells (governor.keyed n) now key ≡ n
  pub check_key-allows :
      (l : Limiter) (now : ℕ) (key : String)
      → (governor.check_key l now key).1 ≡ ltb 0 (cells l now key)
  pub cells-check_self :
      (l : Limiter) (now : ℕ) (key : String)
      → cells (governor.check_key l now key).0 now key ≡ cells l now key - 1
  pub cells-check_other :
      (l : Limiter) (now : ℕ) (key : String) (later : ℕ) (other : String)
      → other ≢ key
      → cells (governor.check_key l now key).0 later other ≡ cells l later other

different : {s : Scope} {name key : String} → (s ≢ s) ⊎ (name ≢ key) → name ≢ key
different (inl p) = absurd (p refl)
different (inr d) = d

module _ {Limiter : Type 0} (governor : Governor Limiter) (laws : IsGovernor governor) where
  open laws use {cells, cells-keyed, check_key-allows, cells-check_self, cells-check_other}

  -- Whether a check would pass.
  abbrev pub allows : RateLimiters Limiter → ℕ → Scope → String → Bool
  allows limiters now scope key = (check governor limiters now scope key).1

  -- The answers of as many checks at one instant.
  abbrev pub burst : ℕ → RateLimiters Limiter → ℕ → Scope → String → List Bool
  burst zero limiters now scope key = []
  burst (suc m) limiters now scope key =
      let (next, allowed) = check governor limiters now scope key in
      allowed ∷ burst m next now scope key

  -- `true` as often as a budget allows, then `false`.
  abbrev pub first_pass : ℕ → ℕ → List Bool
  first_pass zero budget = []
  first_pass (suc m) budget = ltb 0 budget ∷ first_pass m (budget - 1)

  burst_write :
      (m : ℕ) (r : Option Limiter) (l : Limiter) (now : ℕ) (key : String)
      → burst m (record { read = r; write = some l }) now write key ≡ first_pass m (cells l now key)
  unfolding check
  burst_write zero r l now key = refl
  burst_write (suc m) r l now key =
      rw
        (
          check_key-allows l now key,
          burst_write m r (governor.check_key l now key).0 now key,
          cells-check_self l now key,
        )
        refl

  burst_read :
      (m : ℕ) (w : Option Limiter) (l : Limiter) (now : ℕ) (key : String)
      → burst m (record { read = some l; write = w }) now read key ≡ first_pass m (cells l now key)
  unfolding check
  burst_read zero w l now key = refl
  burst_read (suc m) w l now key =
      rw
        (
          check_key-allows l now key,
          burst_read m w (governor.check_key l now key).0 now key,
          cells-check_self l now key,
        )
        refl

  burst-none :
      (m : ℕ) (limiters : RateLimiters Limiter) (now : ℕ) (scope : Scope) (key : String)
      → ((scope ≡ read) × (limiters.read ≡ none)) ⊎ ((scope ≡ write) × (limiters.write ≡ none))
      → All (λ passed. passed ≡ true) (burst m limiters now scope key)
  unfolding check
  burst-none zero limiters now scope key h = tt
  burst-none (suc m) limiters now read key (inl (_, e)) =
      rw e (refl, burst-none m _ now read key (inl (refl, refl)))
  burst-none (suc m) limiters now write key (inr (_, e)) =
      rw e (refl, burst-none m _ now write key (inr (refl, refl)))
  burst-none (suc m) limiters now read key (inr (e, _)) = cc
  burst-none (suc m) limiters now write key (inl (e, _)) = cc

  -- The configured budget of a scope.
  abbrev pub budget : ℕ → ℕ → Scope → ℕ
  budget read_per_minute write_per_minute read = read_per_minute
  budget read_per_minute write_per_minute write = write_per_minute

  -- At one instant a fresh gateway lets a principal pass exactly as often as the budget of the scope
  -- says, if that is not 0, and then refuses.
  pub burst-new :
      (m read_per_minute write_per_minute now : ℕ) (scope : Scope) (key : String)
      → budget read_per_minute write_per_minute scope ≢ 0
      → burst m (new governor read_per_minute write_per_minute) now scope key
        ≡ first_pass m (budget read_per_minute write_per_minute scope)
  unfolding new
  burst-new m r w now read key h =
      let e : nat_eq r 0 ≡ false = ground arith in
      rw e (rw (burst_read m _ (governor.keyed r) now key, cells-keyed r now key) refl)
  burst-new m r w now write key h =
      let e : nat_eq w 0 ≡ false = ground arith in
      rw e (rw (burst_write m _ (governor.keyed w) now key, cells-keyed w now key) refl)

  -- With a budget of 0 for the scope every request of it passes, however many there are.
  pub burst-unlimited :
      (m read_per_minute write_per_minute now : ℕ) (scope : Scope) (key : String)
      → budget read_per_minute write_per_minute scope ≡ 0
      → All
          (λ passed. passed ≡ true)
          (burst m (new governor read_per_minute write_per_minute) now scope key)
  unfolding new
  burst-unlimited m r w now read key h =
      let e : nat_eq r 0 ≡ true = ground arith in
      rw e (burst-none m _ now read key (inl (refl, refl)))
  burst-unlimited m r w now write key h =
      let e : nat_eq w 0 ≡ true = ground arith in
      rw e (burst-none m _ now write key (inr (refl, refl)))

  other_key :
      (o : Option Limiter) (now later : ℕ) (key name : String)
      → name ≢ key
      → (check_limiter governor (check_limiter governor o now key).0 later name).1
        ≡ (check_limiter governor o later name).1
  other_key none now later key name h = refl
  other_key (some l) now later key name h =
      rw
        (
          check_key-allows (governor.check_key l now key).0 later name,
          cells-check_other l now key later name h,
          check_key-allows l later name,
        )
        refl

  -- The scopes have separate budgets, and so have the principals: a check of one does not change
  -- whether a later check of the other passes, whenever that is.
  pub check_separate :
      (limiters : RateLimiters Limiter) (now later : ℕ) (scope other : Scope) (key name : String)
      → (other ≢ scope) ⊎ (name ≢ key)
      → allows (check governor limiters now scope key).0 later other name
        ≡ allows limiters later other name
  unfolding check
  check_separate limiters now later read write key name h = refl
  check_separate limiters now later write read key name h = refl
  check_separate limiters now later read read key name h =
      other_key limiters.read now later key name (different h)
  check_separate limiters now later write write key name h =
      other_key limiters.write now later key name (different h)
