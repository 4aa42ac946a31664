-- ===== src/App/RateLimiter/Outcomes.antt =====
-- ratelimit_service.go: which answers `Check` and `Reset` give, over any policer and any limits.
use otus_anti_bruteforce.Base.{true, false, ok, ◌≡◌}
use otus_anti_bruteforce.Base.Text.{Bytes}
use otus_anti_bruteforce.Domain.{decision_continue, decision_deny, decision_allow}
use otus_anti_bruteforce.Ports.{SubnetPolicer, LimitChecker}
use otus_anti_bruteforce.App.RateLimiter.{check_limits, check}

module _ {Ip S : Type 0} (hash : Bytes → Bytes) (show : Ip → Bytes) (policer : SubnetPolicer Ip S)
    (checker : LimitChecker S) where
  module _ (login password : Bytes) (ip : Ip) (s : S) where
    pub check_denied :
        policer.check ip s ≡ decision_deny
        → check hash show policer checker login password ip s ≡ (ok false, s)
    unfolding check
    check_denied h = rw (h, check)

    pub check_allowed :
        policer.check ip s ≡ decision_allow
        → check hash show policer checker login password ip s ≡ (ok true, s)
    unfolding check
    check_allowed h = rw (h, check)

    pub check_continued :
        policer.check ip s ≡ decision_continue
        → check hash show policer checker login password ip s
          ≡ check_limits hash show policer checker login password ip s
    unfolding check
    check_continued h = rw (h, check)
