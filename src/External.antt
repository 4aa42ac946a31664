-- ===== src/External.antt =====
-- The limits of the external mode: `Check` and `Reset` of internal/app/ratelimit_service.go over
-- internal/storage/redisdb/buckets_repo.go, for the attempts of all instances at one Redis.
pub mod Chain
pub mod Attempts
pub mod Calls
pub mod Bruteforce
use otus_anti_bruteforce.Base.{
  ℕ, suc, ◌*◌, Bool, true, List, [], ◌∷◌, ◌++◌, Result, ok, Exec, ◌&&◌, if◌then◌else◌,
}
use otus_anti_bruteforce.Base.Int.{ℤ, pos, ◌≤ℤ◌}
use otus_anti_bruteforce.Base.Text.{Bytes, beq}
use otus_anti_bruteforce.Base.Time.{unix_milli, nanos_per_milli}
use otus_anti_bruteforce.Domain.{
  PolicyDecision, decision_continue, login_limit, password_limit, ip_limit,
}
use otus_anti_bruteforce.Ports.{LimiterRepo, SubnetPolicer, LimitChecker}
use otus_anti_bruteforce.Redis
use otus_anti_bruteforce.Redis.{Client}
use otus_anti_bruteforce.RateLimit.Checker.{
  Limits, LimitsConfig, limits_from_config, new_limit_checker, limit_checker,
}
use otus_anti_bruteforce.App.Password.{hash_password}
use otus_anti_bruteforce.App.RateLimiter
use otus_anti_bruteforce.App.RateLimiter.{RateLimiterUseCase, rate_limiter_use_case}
use otus_anti_bruteforce.Local.Events.{is_judged, is_passed}

-- How many random numbers have been drawn, and Redis.
abbrev pub Shared : Type 0 → Type 0
Shared R = ℕ × R

-- An attempt at a time in nanoseconds, with what the lists of its instance say of the address, or a
-- reset.
pub data Event (Ip : Type 0) : Type 0 where
  attempt : ℤ → PolicyDecision → Bytes → Bytes → Ip → Event Ip
  forget : Bytes → Bytes → Ip → Event Ip

-- The clock does not run backwards between the attempts, and does not stand before 1970.
abbrev pub IsOrdered : {Ip : Type 0} → ℤ → List (Event Ip) → Type 0
IsOrdered clock [] = Unit
IsOrdered clock (attempt now decision login password ip ∷ events) =
    (pos 0 ≤ℤ now) × (clock ≤ℤ now) × IsOrdered now events
IsOrdered clock (forget login password ip ∷ events) = IsOrdered clock events

-- The lists of an instance, as they are when it asks them.
abbrev pub deciding : {Ip S : Type 0} → PolicyDecision → SubnetPolicer Ip S
deciding decision = record { check = λ ip s. decision; reload_subnets = λ s. (ok tt, s) }

module _ {R : Type 0} (client : Client R) (random : ℕ → ℕ) where
  abbrev drawn : {A : Type 0} → ℕ → Result A × R → Result A × Shared R
  drawn i (a, r) = (a, (i, r))

  -- `BucketsRepo`, with a random number for each attempt
  abbrev pub limiter_repo : ℤ → LimiterRepo (Shared R)
  limiter_repo now = record {
    allow = λ key limit window s.
        drawn (suc s.0) (Redis.allow client now (ok (random s.0)) key limit window s.1);
    reset = λ key s. drawn s.0 (Redis.reset client key s.1);
  }

  abbrev pub checker : (Limits → Limits) → LimitsConfig → ℤ → LimitChecker (Shared R)
  checker order cfg now =
      limit_checker (new_limit_checker (limiter_repo now) order (limits_from_config cfg))

  module _ {Ip : Type 0} (ip_string : Ip → Bytes) (sum256 : Bytes → List ℕ)
      (order : Limits → Limits) (cfg : LimitsConfig) where
    abbrev pub rate_limiter : ℤ → PolicyDecision → RateLimiterUseCase Ip (Shared R)
    rate_limiter now decision =
        rate_limiter_use_case (hash_password sum256) ip_string (deciding decision)
          (checker order cfg now)

    -- The shared state after an event.
    abbrev pub next : Event Ip → Shared R → Shared R
    next (attempt now decision login password ip) s =
        ((rate_limiter now decision).check login password ip s).1
    next (forget login password ip) s =
        ((rate_limiter (pos 0) decision_continue).reset login password ip s).1

    -- The attempts on the login that no list decides and that `Check` lets through.
    abbrev pub noted : Bytes → Event Ip → Shared R → List ℤ → List ℤ
    noted login (attempt now decision l password ip) s acc =
        let reply = ((rate_limiter now decision).check l password ip s).0 in
        if beq l login && is_judged decision && is_passed reply
        then acc ++ unix_milli now ∷ []
        else acc
    noted login (forget l password ip) s acc = if beq l login then [] else acc

    -- These attempts since the last reset of the login, in milliseconds.
    abbrev pub let_through : Bytes → List ℤ → List (Event Ip) → Shared R → List ℤ
    let_through login acc [] s = acc
    let_through login acc (e ∷ events) s = let_through login (noted login e s acc) events (next e s)
