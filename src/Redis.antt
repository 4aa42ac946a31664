-- ===== src/Redis.antt =====
-- internal/storage/redisdb/buckets_repo.go: a sorted set of attempts for each key, kept by Redis.
-- The transactions of the Redis client and the random numbers are parameters.
pub mod Server
pub mod Window
pub mod Members
pub mod Transaction
pub mod Keeps
pub mod Refinement
pub mod Bound
use otus_anti_bruteforce.Base.{ℕ, Bool, List, [], ◌∷◌, ◌++◌, Result, ok, err, Exec, if◌then◌else◌}
use otus_anti_bruteforce.Base.Int.{ℤ, pos, ◌+ℤ◌, ◌-ℤ◌, leb_ℤ}
use otus_anti_bruteforce.Base.Text.{Bytes, codes}
use otus_anti_bruteforce.Base.Time.{unix_milli, milliseconds}
use otus_anti_bruteforce.Base.Decimal.{show_int, show_nat}
use otus_anti_bruteforce.Ports.{LimiterRepo}

-- The commands that the store queues. A score is the `float64` of a number of milliseconds, which
-- is exact below 2^53; the bounds of a range are texts that spell the numbers here.
pub data Command : Type 0 where
  -- key, score, member
  z_add : Bytes → ℤ → Bytes → Command
  -- key, lowest and highest score
  z_rem_range_by_score : Bytes → ℤ → ℤ → Command
  z_card : Bytes → Command
  -- key, nanoseconds
  expire : Bytes → ℤ → Command

-- `*redis.Client`: a transaction, at the time in milliseconds at which Redis runs it, answers each
-- of its commands in turn. `allow` passes the time that it read itself.
pub record Client (R : Type 0) : Type 0 where
  pub exec : ℤ → List Command → Exec R (List ℤ)
  pub del : Bytes → Exec R (Unit {0})

-- `fmt.Sprintf("%d:%d", now, sfx)`
unfoldable pub member : ℤ → ℕ → Bytes
member now sfx = show_int now ++ codes ":" ++ show_nat sfx

-- The commands of `Allow`, at a time in milliseconds.
unfoldable pub transaction : ℤ → ℕ → Bytes → ℤ → List Command
transaction now sfx key window =
    z_add key now (member now sfx)
    ∷ z_rem_range_by_score key (pos 0) (now -ℤ milliseconds window)
    ∷ z_card key
    ∷ expire key (window +ℤ window)
    ∷ []

-- `n, _ := count.Result()`: the reply to the third command
abbrev pub count_of : List ℤ → ℤ
count_of (added ∷ removed ∷ n ∷ replies) = n
count_of _ = pos 0

module _ {R : Type 0} (client : Client R) where
  -- `now` is `time.Now()`, and `sfx` is what `rand.Int` returns, a number below a million.
  unfoldable pub allow : ℤ → Result ℕ → Bytes → ℤ → ℤ → Exec R Bool
  unfolding transaction
  allow now (err e) key limit window r = (err e, r)
  allow now (ok sfx) key limit window r =
      let (replies, r') =
        client.exec (unix_milli now) (transaction (unix_milli now) sfx key window) r in
      elim replies [ err e ↦ (err e, r') | ok ns ↦ (ok (leb_ℤ (count_of ns) limit), r') ]

  unfoldable pub reset : Bytes → Exec R (Unit {0})
  reset key = client.del key

  abbrev pub redis_limiter_repo : ℤ → Result ℕ → LimiterRepo R
  redis_limiter_repo now sfx = record { allow = allow now sfx; reset = reset }
