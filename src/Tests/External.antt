-- ===== src/Tests/External.antt =====
-- Attempts on one login at instances that share a Redis.
use otus_anti_bruteforce.Base.{ℕ, ◌*◌, ◌+◌, ◌≤◌, List, [], ◌∷◌, refl, arith}
use otus_anti_bruteforce.Base.Int.{pos, ◌-ℤ◌, ◌+ℤ◌}
use otus_anti_bruteforce.Base.Text.{Bytes, codes, beq}
use otus_anti_bruteforce.Base.GoMap.{lookup, insert}
use otus_anti_bruteforce.Base.Time.{nanos_per_milli, unix_milli, milliseconds}
use otus_anti_bruteforce.Base.Decimal.{digits, show_int, show_nat}
use otus_anti_bruteforce.Domain.{decision_continue, decision_allow}
use otus_anti_bruteforce.Memory.Buckets.Safety.{count_between}
use otus_anti_bruteforce.Redis.{member}
use otus_anti_bruteforce.Redis as Redis
use otus_anti_bruteforce.Redis.Server.{no_set, serve}
use otus_anti_bruteforce.Redis.Window.{IsFresh}
use otus_anti_bruteforce.RateLimit.Limiter as Limiter
use otus_anti_bruteforce.RateLimit.Checker as Checker
use otus_anti_bruteforce.RateLimit.Checker.{fill_limiters, new_limit_checker}
use otus_anti_bruteforce.App.Password.{hash_password}
use otus_anti_bruteforce.App.RateLimiter as RateLimiter
use otus_anti_bruteforce.External.{Event, attempt, IsOrdered, let_through}
use otus_anti_bruteforce.External.Attempts.{limits}
use otus_anti_bruteforce.External.Calls.{all_made}
use otus_anti_bruteforce.External.Bruteforce.{passed_attempts_le_limit}
use otus_anti_bruteforce.Tests.Fixtures.{as_they_stand, stand_visits, digest}
use otus_anti_bruteforce.Tests.Buckets.{seconds, store, store-Serves}

abbrev drawn_numbers : ℕ → ℕ
drawn_numbers i = i + 7

abbrev name : Bytes → Bytes
name ip = ip

-- Two attempts pass, one is let through by a whitelist, and one is refused.
abbrev events : List (Event Bytes)
events =
    attempt (pos (1000 * nanos_per_milli)) decision_continue (codes "ann") (codes "a") (codes "::1")
    ∷ attempt (pos (2000 * nanos_per_milli)) decision_continue (codes "ann") (codes "b")
        (codes "::1")
    ∷ attempt (pos (2500 * nanos_per_milli)) decision_allow (codes "ann") (codes "b") (codes "::2")
    ∷ attempt (pos (3000 * nanos_per_milli)) decision_continue (codes "ann") (codes "c")
        (codes "::1")
    ∷ []

events-IsOrdered : IsOrdered (pos 0) events
events-IsOrdered = (
  omega arith,
  omega arith,
  (omega arith, omega arith, (omega arith, omega arith, (omega arith, omega arith, tt))),
)

events-IsFresh : IsFresh [] (
    all_made store drawn_numbers name digest as_they_stand stand_visits 2
      (pos 100)
      (pos 1000)
      60000
      events
      (0, λ key. no_set))
unfolding member unix_milli beq digits show_int show_nat lookup insert fill_limiters
    new_limit_checker Checker.allow Limiter.allow Redis.allow serve hash_password RateLimiter.check
    ◌-ℤ◌ milliseconds otus_anti_bruteforce.App.Password.hex
    otus_anti_bruteforce.App.Password.hex_digit ◌+ℤ◌
events-IsFresh = (refl, (refl, (refl, (refl, (refl, (refl, (refl, tt)))))))

passed_attempts_le_limit_example :
    count_between (pos 3000 -ℤ pos 60000) (pos 3000) (
      let_through store drawn_numbers name digest as_they_stand
        (limits 2 (pos 100) (pos 1000) 60000)
        (codes "ann")
        []
        events
        (0, λ key. no_set))
    ≤ 2
passed_attempts_le_limit_example =
    passed_attempts_le_limit store drawn_numbers name digest as_they_stand stand_visits 2 (pos 100)
      (pos 1000) 60000 seconds (λ sets. sets) store-Serves (omega arith) (codes "ann") events
      (pos 0) (λ key. no_set) (λ key. refl) events-IsOrdered events-IsFresh (pos 3000)
