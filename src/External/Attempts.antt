-- ===== src/External/Attempts.antt =====
-- `Check` and `Reset` in the external mode as calls of buckets_repo.go.
use mathlib.Core.Path.{fun_ext}
use otus_anti_bruteforce.Base.{ℕ, some, ◌*◌, true, false, List, [], ◌∷◌, ok, ◌≡◌, refl, ◌∙◌, ap}
use otus_anti_bruteforce.Base.Int.{ℤ, pos}
use otus_anti_bruteforce.Base.Text.{Bytes, beq}
use otus_anti_bruteforce.Base.GoMap.{lookup, HasDistinctKeys, Visits}
use otus_anti_bruteforce.Base.Time.{nanos_per_milli}
use otus_anti_bruteforce.Domain.{
  LimitType, PolicyDecision, decision_continue, decision_deny, decision_allow, login_limit,
  password_limit, ip_limit,
}
use otus_anti_bruteforce.Redis
use otus_anti_bruteforce.Redis.{Client}
use otus_anti_bruteforce.Redis.Server.{Sets, Serves}
use otus_anti_bruteforce.RateLimit.Limiter.{Rule, bucket_key}
use otus_anti_bruteforce.RateLimit.Checker.{Limits, LimitsConfig, limits_from_config}
use otus_anti_bruteforce.RateLimit.Keys.{allow-new_limit_checker, reset-new_limit_checker}
use otus_anti_bruteforce.App.Password.{hash_password}
use otus_anti_bruteforce.App.RateLimiter.{check_limits}
use otus_anti_bruteforce.App.RateLimiter
use otus_anti_bruteforce.App.RateLimiter.Outcomes.{check_denied, check_allowed, check_continued}
use otus_anti_bruteforce.Local.Chain.{Buckets}
use otus_anti_bruteforce.Local.Events.{is_judged}
use otus_anti_bruteforce.External.{
  Shared, attempt, limiter_repo, deciding, checker, rate_limiter, next,
}
use otus_anti_bruteforce.External.Chain.{chain}

-- The limits of a configuration, with a window of `w` milliseconds.
abbrev pub limits : ℕ → ℤ → ℤ → ℕ → LimitsConfig
limits n p i w = record {
  login_attempts = pos n;
  password_attempts = p;
  ip_attempts = i;
  window = pos (w * nanos_per_milli);
}

distinct : (cfg : LimitsConfig) → HasDistinctKeys (limits_from_config cfg)
unfolding lookup beq
distinct cfg = (refl, (refl, (refl, tt)))

pub judged_continues :
    (decision : PolicyDecision) → is_judged decision ≡ true → decision ≡ decision_continue
judged_continues decision_continue h = refl
judged_continues decision_deny h = cc
judged_continues decision_allow h = cc

module _ {Ip : Type 0} (ip_string : Ip → Bytes) (sum256 : Bytes → List ℕ) (n : ℕ) (p i : ℤ) where
  -- The buckets of an attempt, in the order in which they are asked.
  abbrev pub asked_next : Bytes → Ip → Buckets
  asked_next password ip =
      (bucket_key password_limit (hash_password sum256 password), p)
      ∷ (bucket_key ip_limit (ip_string ip), i)
      ∷ []

  abbrev pub asked : Bytes → Bytes → Ip → Buckets
  asked login password ip = (bucket_key login_limit login, pos n) ∷ asked_next password ip

module _ {R : Type 0} (client : Client R) (random : ℕ → ℕ) {Ip : Type 0} (ip_string : Ip → Bytes)
    (sum256 : Bytes → List ℕ) (order : Limits → Limits) (visits : Visits order) (n : ℕ) (p i : ℤ)
    (w : ℕ) where
  abbrev cfg : LimitsConfig
  cfg = limits n p i w

  abbrev hash : Bytes → Bytes
  hash = hash_password sum256

  abbrev asking : Bytes → Bytes → Ip → Buckets
  asking = asked ip_string sum256 n p i

  allowing :
      (now : ℤ) (lt : LimitType) (rule : Rule) (key : Bytes)
      → lookup lt (limits_from_config cfg) ≡ some rule
      → (checker client random order cfg now).allow lt key
        ≡ (limiter_repo client random now).allow (bucket_key lt key) rule.limit rule.window
  allowing now lt rule key found = fun_ext (λ s.
      allow-new_limit_checker (limiter_repo client random now) order (limits_from_config cfg) visits
        (distinct cfg) lt rule found key s)

  resetting :
      (now : ℤ) (lt : LimitType) (rule : Rule) (key : Bytes)
      → lookup lt (limits_from_config cfg) ≡ some rule
      → (checker client random order cfg now).reset lt key
        ≡ (limiter_repo client random now).reset (bucket_key lt key)
  resetting now lt rule key found = fun_ext (λ s.
      reset-new_limit_checker (limiter_repo client random now) order (limits_from_config cfg) visits
        (distinct cfg) lt rule found key s)

  check_limits-chain :
      (now : ℤ) (decision : PolicyDecision) (login password : Bytes) (ip : Ip)
      → check_limits hash ip_string
          (deciding decision)
          (checker client random order cfg now)
          login
          password
          ip
        ≡ chain client random w now (asking login password ip)
  unfolding check_limits lookup beq
  check_limits-chain now decision login password ip =
      rw
        (
          allowing now login_limit _ login refl,
          allowing now password_limit _ (hash password) refl,
          allowing now ip_limit _ (ip_string ip) refl,
        )
        refl

  pub checked :
      (now : ℤ) (decision : PolicyDecision) (login password : Bytes) (ip : Ip) (s : Shared R)
      → decision ≡ decision_continue
      → (rate_limiter client random ip_string sum256 order cfg now decision).check login password ip
          s
        ≡ chain client random w now (asking login password ip) s
  checked now decision login password ip s h =
      check_continued hash ip_string (deciding decision) (checker client random order cfg now) login
        password ip s h
      ∙ ap (λ m. m s) (check_limits-chain now decision login password ip)

  pub listed_keeps :
      (now : ℤ) (decision : PolicyDecision) (login password : Bytes) (ip : Ip) (s : Shared R)
      → is_judged decision ≡ false
      → next client random ip_string sum256 order cfg (attempt now decision login password ip) s ≡ s
  listed_keeps now decision_continue login password ip s h = cc
  listed_keeps now decision_deny login password ip s h =
      ap (λ x. x.1)
        (check_denied hash ip_string (deciding decision_deny) (checker client random order cfg now)
          login password ip s refl)
  listed_keeps now decision_allow login password ip s h =
      ap (λ x. x.1)
        (check_allowed hash ip_string (deciding decision_allow)
          (checker client random order cfg now) login password ip s refl)

  module _ (ttl : ℤ → ℤ) (view : R → Sets) (serves : Serves client ttl view) where
    abbrev pub without : Bytes → R → R
    without key r = (Redis.reset client key r).1

    reset_ok :
        (now : ℤ) (key : Bytes) (s : Shared R)
        → (limiter_repo client random now).reset key s ≡ (ok tt, (s.0, without key s.1))
    unfolding Redis.reset
    reset_ok now key s = rw (Redis.reset, serves.del_ok key s.1) refl

    reset_one :
        (lt : LimitType) (rule : Rule) (key : Bytes) (s : Shared R)
        → lookup lt (limits_from_config cfg) ≡ some rule
        → (checker client random order cfg (pos 0)).reset lt key s
          ≡ (ok tt, (s.0, without (bucket_key lt key) s.1))
    reset_one lt rule key s found =
        ap (λ m. m s) (resetting (pos 0) lt rule key found) ∙ reset_ok (pos 0) (bucket_key lt key) s

    abbrev pub forgotten : Bytes → Bytes → Ip → R → R
    forgotten login password ip r = without (bucket_key ip_limit (ip_string ip)) (
        without (bucket_key password_limit (hash password))
          (without (bucket_key login_limit login) r))

    pub reset_forgotten :
        (login password : Bytes) (ip : Ip) (s : Shared R)
        → (rate_limiter client random ip_string sum256 order cfg (pos 0) decision_continue).reset
            login password ip s
          ≡ (ok tt, (s.0, forgotten login password ip s.1))
    unfolding RateLimiter.reset lookup beq
    reset_forgotten login password ip s = rw (reset_one login_limit _ login s refl) (
        rw (reset_one password_limit _ (hash password) _ refl)
          (rw (reset_one ip_limit _ (ip_string ip) _ refl) refl))
