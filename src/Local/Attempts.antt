-- ===== src/Local/Attempts.antt =====
-- `Check` in the local mode as a chain of calls of bucketsdb.go, one for each limit that it asks.
use otus_anti_bruteforce.Base.{
  ℕ, Bool, some, List, [], ◌∷◌, Result, ok, Exec, ◌≡◌, refl, Bool-cases, inl, inr,
}
use otus_anti_bruteforce.Base.Text.{Bytes, beq}
use otus_anti_bruteforce.Base.GoMap.{lookup, Visits}
use otus_anti_bruteforce.Domain.{LimitType, login_limit, password_limit, ip_limit}
use otus_anti_bruteforce.Net.{NetPackage}
use otus_anti_bruteforce.Memory.Buckets.Timelines.{reply-allow}
use otus_anti_bruteforce.RateLimit.Limiter.{Rule, bucket_key}
use otus_anti_bruteforce.RateLimit.Checker.{LimitsConfig, limits_from_config}
use otus_anti_bruteforce.App.Password.{hash_password}
use otus_anti_bruteforce.App.RateLimiter.{check_limits, require}
use otus_anti_bruteforce.Local.World.{World, LoopOrders, subnet_policer, checker}
use otus_anti_bruteforce.Local.Limits.{checker-allow}
use otus_anti_bruteforce.Local.Chain.{Buckets, passes, all_pass, after_calls}

module _ (net : NetPackage) (sum256 : Bytes → List ℕ) (cfg : LimitsConfig) where
  open net use {Ip, IpNet}

  -- The buckets of an attempt, in the order in which they are asked.
  abbrev asked_last : Ip → Buckets
  asked_last ip = (bucket_key ip_limit (net.ip_string ip), cfg.ip_attempts) ∷ []

  abbrev pub asked_next : Bytes → Ip → Buckets
  asked_next password ip =
      (bucket_key password_limit (hash_password sum256 password), cfg.password_attempts)
      ∷ asked_last ip

  abbrev pub asked : Bytes → Bytes → Ip → Buckets
  asked login password ip =
      (bucket_key login_limit login, cfg.login_attempts) ∷ asked_next password ip

  -- What a chain of limits answers, and the world after it.
  abbrev pub outcome : Buckets → World IpNet → Result Bool × World IpNet
  outcome keys w = (
    ok (all_pass cfg.window w.clock keys w.buckets),
    record w { buckets = after_calls cfg.window w.clock keys w.buckets },
  )

module _ (net : NetPackage) (orders : LoopOrders net.IpNet) (limits_visited : Visits orders.limits)
    (sum256 : Bytes → List ℕ) (cfg : LimitsConfig) where
  open net use {Ip, IpNet}

  abbrev require' : Exec (World IpNet) Bool → Exec (World IpNet) Bool → Exec (World IpNet) Bool
  require' =
      require (hash_password sum256) net.ip_string (subnet_policer net orders)
        (checker net orders sum256 cfg)

  require_allow :
      (lt : LimitType) (rule : Rule) (key : Bytes) (keys : Buckets) (rest : Exec (World IpNet) Bool)
      (w : World IpNet)
      → lookup lt (limits_from_config cfg) ≡ some rule
      → rule.window ≡ cfg.window
      → ((w' : World IpNet) → rest w' ≡ outcome net sum256 cfg keys w')
      → require' ((checker net orders sum256 cfg).allow lt key) rest w
        ≡ outcome net sum256 cfg ((bucket_key lt key, rule.limit) ∷ keys) w
  require_allow lt rule key keys rest w found same go =
      rw (checker-allow net orders limits_visited sum256 cfg lt rule key w found, same, reply-allow)
        (elim (Bool-cases (passes cfg.window w.clock (bucket_key lt key) rule.limit w.buckets)) [
          | inl lets ↦ rw (lets, go)
          | inr stops ↦ rw stops
        ])

  pub check_limits-asked :
      (login password : Bytes) (ip : Ip) (w : World IpNet)
      → check_limits
          (hash_password sum256)
          net.ip_string
          (subnet_policer net orders)
          (checker net orders sum256 cfg)
          login
          password
          ip
          w
        ≡ outcome net sum256 cfg (asked net sum256 cfg login password ip) w
  unfolding check_limits lookup beq
  check_limits-asked login password ip w =
      require_allow login_limit _ login (asked_next net sum256 cfg password ip) _ w refl refl (λ w'.
        require_allow password_limit _ (hash_password sum256 password)
          (asked_last net sum256 cfg ip) _ w' refl refl
          (λ w'. require_allow ip_limit _ (net.ip_string ip) [] _ w' refl refl (λ w'. refl)))
