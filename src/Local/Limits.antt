-- ===== src/Local/Limits.antt =====
-- The limits in the local mode: what the calls of `LimitChecker` do to the timelines.
use otus_anti_bruteforce.Base.{
  ℕ, List, Bool, ◌||◌, [], some, ok, ◌≡◌, ◌∙◌, refl, if◌then◌else◌, arith,
}
use otus_anti_bruteforce.Base.Text.{Bytes, beq}
use otus_anti_bruteforce.Base.GoMap.{lookup, HasDistinctKeys, Visits}
use otus_anti_bruteforce.Domain.{LimitType, login_limit, password_limit, ip_limit}
use otus_anti_bruteforce.Net.{NetPackage}
use otus_anti_bruteforce.Memory.Buckets.Defs as Buckets
use otus_anti_bruteforce.Memory.Buckets.Timelines.{times_of, times_of-reset, reply-reset}
use otus_anti_bruteforce.RateLimit.Limiter.{Rule, bucket_key}
use otus_anti_bruteforce.RateLimit.Checker.{LimitsConfig, limits_from_config}
use otus_anti_bruteforce.RateLimit.Keys.{allow-new_limit_checker, reset-new_limit_checker}
use otus_anti_bruteforce.App.Password.{hash_password}
use otus_anti_bruteforce.App.RateLimiter
use otus_anti_bruteforce.Local.World.{World, LoopOrders, checker, rate_limiter, limiter_repo}

module _ (net : NetPackage) (sum256 : Bytes → List ℕ) where
  -- The three buckets of an attempt.
  abbrev pub bucket_of : Bytes → Bytes → net.Ip → Bytes → Bool
  bucket_of login password ip k =
      beq (bucket_key login_limit login) k
      || beq (bucket_key password_limit (hash_password sum256 password)) k
      || beq (bucket_key ip_limit (net.ip_string ip)) k

module _ (net : NetPackage) (orders : LoopOrders net.IpNet) (limits_visited : Visits orders.limits)
    (sum256 : Bytes → List ℕ) (cfg : LimitsConfig) where
  open net use {Ip, IpNet}

  distinct : HasDistinctKeys (limits_from_config cfg)
  unfolding lookup beq
  distinct = (refl, (refl, (refl, tt)))

  pub checker-allow :
      (lt : LimitType) (rule : Rule) (key : Bytes) (w : World IpNet)
      → lookup lt (limits_from_config cfg) ≡ some rule
      → (checker net orders sum256 cfg).allow lt key w
        ≡ limiter_repo.allow (bucket_key lt key) rule.limit rule.window w
  checker-allow lt rule key w found =
      allow-new_limit_checker limiter_repo orders.limits (limits_from_config cfg) limits_visited
        distinct lt rule found key w

  checker-reset :
      (lt : LimitType) (rule : Rule) (key : Bytes) (w : World IpNet)
      → lookup lt (limits_from_config cfg) ≡ some rule
      → (checker net orders sum256 cfg).reset lt key w ≡ limiter_repo.reset (bucket_key lt key) w
  checker-reset lt rule key w found =
      reset-new_limit_checker limiter_repo orders.limits (limits_from_config cfg) limits_visited
        distinct lt rule found key w

  -- The world once a bucket has been emptied.
  abbrev emptied : Bytes → World IpNet → World IpNet
  emptied key w = record w { buckets = (Buckets.reset key w.buckets).1 }

  repo-reset : (key : Bytes) (w : World IpNet) → limiter_repo.reset key w ≡ (ok tt, emptied key w)
  repo-reset key w = rw reply-reset

  reset_one :
      (lt : LimitType) (rule : Rule) (key : Bytes) (w : World IpNet)
      → lookup lt (limits_from_config cfg) ≡ some rule
      → (checker net orders sum256 cfg).reset lt key w ≡ (ok tt, emptied (bucket_key lt key) w)
  reset_one lt rule key w h = checker-reset lt rule key w h ∙ repo-reset (bucket_key lt key) w

  abbrev pub forgotten : Bytes → Bytes → Ip → World IpNet → World IpNet
  forgotten login password ip w = emptied (bucket_key ip_limit (net.ip_string ip)) (
      emptied (bucket_key password_limit (hash_password sum256 password))
        (emptied (bucket_key login_limit login) w))

  pub reset_forgotten :
      (login password : Bytes) (ip : Ip) (w : World IpNet)
      → (rate_limiter net orders sum256 cfg).reset login password ip w
        ≡ (ok tt, forgotten login password ip w)
  unfolding RateLimiter.reset lookup beq
  reset_forgotten login password ip w = rw (reset_one login_limit _ login w refl) (
      rw (reset_one password_limit _ (hash_password sum256 password) _ refl)
        (rw (reset_one ip_limit _ (net.ip_string ip) _ refl)))

  pub times_of-forgotten :
      (login password : Bytes) (ip : Ip) (w : World IpNet) (k : Bytes)
      → times_of (forgotten login password ip w).buckets k
        ≡ (if bucket_of net sum256 login password ip k then [] else times_of w.buckets k)
  times_of-forgotten login password ip w k = simp times_of-reset (ground arith)

  -- In the local mode, `Reset` succeeds and empties just the three buckets of its login, password
  -- and address, whatever the order of the loop over the limits.
  pub times_of-reset_attempt :
      (login password : Bytes) (ip : Ip) (w : World IpNet)
      → let (r, w') = (rate_limiter net orders sum256 cfg).reset login password ip w in
        (r ≡ ok tt)
        × ((k : Bytes)
            → times_of w'.buckets k
              ≡ (if bucket_of net sum256 login password ip k then [] else times_of w.buckets k))
  times_of-reset_attempt login password ip w =
      rw reset_forgotten (refl, times_of-forgotten login password ip w)
