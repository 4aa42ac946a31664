-- ===== src/RateLimit/Limiter.antt =====
-- internal/domain/ratelimit/limiter.go: one limiter, for one type of limit.
use otus_anti_bruteforce.Base.{Bool, ◌++◌, Exec}
use otus_anti_bruteforce.Base.Int.{ℤ}
use otus_anti_bruteforce.Base.Text.{Bytes, codes}
use otus_anti_bruteforce.Ports.{LimiterRepo}

pub record Rule : Type 0 where
  pub limit : ℤ
  pub window : ℤ

pub record Limiter (S : Type 0) : Type 0 where
  pub storage : LimiterRepo S
  pub limit_type : Bytes
  pub rule : Rule

-- `l.limitType + ":" + key`
abbrev pub bucket_key : Bytes → Bytes → Bytes
bucket_key limit_type key = limit_type ++ codes ":" ++ key

module _ {S : Type 0} where
  abbrev pub new_limiter : LimiterRepo S → Bytes → Rule → Limiter S
  new_limiter st limit_type r = record { storage = st; limit_type = limit_type; rule = r }

  unfoldable pub allow : Limiter S → Bytes → Exec S Bool
  allow l key = l.storage.allow (bucket_key l.limit_type key) l.rule.limit l.rule.window

  unfoldable pub reset : Limiter S → Bytes → Exec S (Unit {0})
  reset l key = l.storage.reset (bucket_key l.limit_type key)
