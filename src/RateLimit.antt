-- ===== src/RateLimit.antt =====
-- src/ratelimit.rs: separate budgets of requests for reads and writes, by principal. The keyed
-- limiter of the crate governor is an argument.
pub mod Laws
use indexer_gateway_auth.Prelude.{ℕ, String, Bool, true, Option, none, some}
use indexer_gateway_auth.Prelude.{nat_eq, if◌then◌else◌}
use indexer_gateway_auth.Classify.{Scope, read, write}

-- `keyed n` is a limiter of a burst of n cells, which are full again after a minute; `check_key` at
-- an instant answers whether a cell was left, and takes it.
pub record Governor (Limiter : Type 0) : Type 0 where
  pub keyed : ℕ → Limiter
  pub check_key : Limiter → ℕ → String → Limiter × Bool

pub record RateLimiters (Limiter : Type 0) : Type 0 where
  pub read : Option Limiter
  pub write : Option Limiter

module _ {Limiter : Type 0} (governor : Governor Limiter) where
  unfoldable pub build : ℕ → Option Limiter
  build per_minute = if nat_eq per_minute 0 then none else some (governor.keyed per_minute)

  -- `RateLimiters::new`
  unfoldable pub new : ℕ → ℕ → RateLimiters Limiter
  unfolding build
  new read_per_minute write_per_minute = record {
    read = build read_per_minute;
    write = build write_per_minute;
  }

  abbrev pub check_limiter : Option Limiter → ℕ → String → Option Limiter × Bool
  check_limiter none now key = (none, true)
  check_limiter (some l) now key =
      let (l', allowed) = governor.check_key l now key in (some l', allowed)

  -- `RateLimiters::check`, with the limiters that it leaves.
  unfoldable pub check : RateLimiters Limiter → ℕ → Scope → String → RateLimiters Limiter × Bool
  check limiters now read key =
      let (l, allowed) = check_limiter limiters.read now key in
      (record limiters { read = l }, allowed)
  check limiters now write key =
      let (l, allowed) = check_limiter limiters.write now key in
      (record limiters { write = l }, allowed)
