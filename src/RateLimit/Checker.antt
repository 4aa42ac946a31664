-- ===== src/RateLimit/Checker.antt =====
-- internal/domain/ratelimit/limit_checker.go, and the limits that subnetlist/config.go makes of the
-- configuration.
use otus_anti_bruteforce.Base.{Bool, false, [], ◌∷◌, none, some, ok, Exec}
use otus_anti_bruteforce.Base.Int.{ℤ}
use otus_anti_bruteforce.Base.Text.{Bytes}
use otus_anti_bruteforce.Base.GoMap.{GoMap, lookup, insert}
use otus_anti_bruteforce.Domain.{LimitType, login_limit, password_limit, ip_limit}
use otus_anti_bruteforce.Ports.{LimiterRepo}
use otus_anti_bruteforce.Ports
use otus_anti_bruteforce.RateLimit.Limiter
use otus_anti_bruteforce.RateLimit.Limiter.{Rule, Limiter, new_limiter}

-- internal/config/config.go: `Limits`
pub record LimitsConfig : Type 0 where
  pub login_attempts : ℤ
  pub password_attempts : ℤ
  pub ip_attempts : ℤ
  pub window : ℤ

abbrev pub Limits : Type 0
Limits = GoMap Rule

abbrev pub limits_from_config : LimitsConfig → Limits
limits_from_config cfg =
    (login_limit, record { limit = cfg.login_attempts; window = cfg.window })
    ∷ (password_limit, record { limit = cfg.password_attempts; window = cfg.window })
    ∷ (ip_limit, record { limit = cfg.ip_attempts; window = cfg.window })
    ∷ []

pub record LimitChecker (S : Type 0) : Type 0 where
  pub limiters : GoMap (Limiter S)

module _ {S : Type 0} where
  -- the loop of `NewLimitChecker`
  unfoldable pub fill_limiters : LimiterRepo S → Limits → GoMap (Limiter S) → GoMap (Limiter S)
  fill_limiters storage [] limiters = limiters
  fill_limiters storage ((lt, rule) ∷ limits) limiters =
      fill_limiters storage limits (insert lt (new_limiter storage lt rule) limiters)

  -- `order` is the order of the loop over the limits.
  unfoldable pub new_limit_checker : LimiterRepo S → (Limits → Limits) → Limits → LimitChecker S
  new_limit_checker storage order limits = record {
    limiters = fill_limiters storage (order limits) [];
  }

  -- A type without a limiter is refused.
  unfoldable pub allow : LimitChecker S → LimitType → Bytes → Exec S Bool
  allow lc lt key s = elim (lookup lt lc.limiters) [
    | none ↦ (ok false, s)
    | some limiter ↦ Limiter.allow limiter key s
  ]

  unfoldable pub reset : LimitChecker S → LimitType → Bytes → Exec S (Unit {0})
  reset lc lt key s = elim (lookup lt lc.limiters) [
    | none ↦ (ok tt, s)
    | some limiter ↦ Limiter.reset limiter key s
  ]

  abbrev pub limit_checker : LimitChecker S → Ports.LimitChecker S
  limit_checker lc = record { allow = allow lc; reset = reset lc }
