-- ===== src/App/RateLimiter.antt =====
-- internal/app/ratelimit_service.go: the subnet policy first, then the three limits.
pub mod Outcomes
use otus_anti_bruteforce.Base.{
  Bool, true, false, ok, Exec, pure, ◌>>=◌, ◌>>◌, wrapping, if◌then◌else◌,
}
use otus_anti_bruteforce.Base.Text.{Bytes, codes}
use otus_anti_bruteforce.Domain.{
  PolicyDecision, decision_continue, decision_deny, decision_allow, login_limit, password_limit,
  ip_limit,
}
use otus_anti_bruteforce.Ports.{SubnetPolicer, LimitChecker}

pub record RateLimiterUseCase (Ip S : Type 0) : Type 0 where
  pub check : Bytes → Bytes → Ip → Exec S Bool
  pub reset : Bytes → Bytes → Ip → Exec S (Unit {0})

-- `hash` is `hashPassword`, and `show` is the method `String` of an address.
module _ {Ip S : Type 0} (hash : Bytes → Bytes) (show : Ip → Bytes) (policer : SubnetPolicer Ip S)
    (checker : LimitChecker S) where
  -- `if ok, err := …; err != nil || !ok { return false, err }`
  abbrev pub require : Exec S Bool → Exec S Bool → Exec S Bool
  require m rest = do passed ← m; if passed then rest else pure false

  unfoldable pub check_limits : Bytes → Bytes → Ip → Exec S Bool
  check_limits login password ip = require (checker.allow login_limit login) (
      require (checker.allow password_limit (hash password))
        (require (checker.allow ip_limit (show ip)) (pure true)))

  unfoldable pub check : Bytes → Bytes → Ip → Exec S Bool
  unfolding check_limits
  check login password ip s = elim (policer.check ip s) [
    | decision_deny ↦ (ok false, s)
    | decision_allow ↦ (ok true, s)
    | decision_continue ↦ check_limits login password ip s
  ]

  unfoldable pub reset : Bytes → Bytes → Ip → Exec S (Unit {0})
  reset login password ip = do
    checker.reset login_limit login
    checker.reset password_limit (hash password)
    checker.reset ip_limit (show ip)

  unfoldable pub init : Exec S (Unit {0})
  init s = wrapping (codes "initial subnet lists load") (policer.reload_subnets s)

  unfoldable pub reload_subnets : Exec S (Unit {0})
  reload_subnets = policer.reload_subnets

  abbrev pub rate_limiter_use_case : RateLimiterUseCase Ip S
  rate_limiter_use_case = record { check = check; reset = reset }
