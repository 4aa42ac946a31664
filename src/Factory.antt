-- ===== src/Factory.antt =====
-- internal/factory/redisclient.go: the two clients of Redis. The Redis library is a parameter.
use otus_anti_bruteforce.Base.{ℕ, Bool, false, ◌||◌, ◌==◌, Result, Exec, ◌≡◌}
use otus_anti_bruteforce.Base.Int.{ℤ, pos}
use otus_anti_bruteforce.Base.Text.{Bytes}
use otus_anti_bruteforce.Config.{DatabaseConfig}
use otus_anti_bruteforce.Connect.{Driver, pinged, Closes, open_after, open-pinged}

-- The fields of `redis.Options` that the program sets; 0 stands for those that it leaves out.
pub record Options : Type 0 where
  pub addr : Bytes
  pub password : Bytes
  pub db : ℤ
  pub dial_timeout : ℤ
  pub read_timeout : ℤ
  pub write_timeout : ℤ
  pub pool_size : ℤ

-- `redis.NewClient`, which connects later and does not fail, and the methods of a client. A ping
-- is given up after two seconds.
pub record RedisLibrary (D : Type 0) : Type 0 where
  pub driver : Driver D
  pub new_client : Options → D → ℕ × D

module _ {D : Type 0} (redis : RedisLibrary D) where
  -- the second half of both functions: the ping
  abbrev pinged_client : ℕ × D → Result ℕ × D
  pinged_client (h, d) = pinged redis.driver h d

  unfoldable pub new_client_policer : DatabaseConfig → Exec D ℕ
  new_client_policer cfg d = pinged_client (
      redis.new_client
        (record {
          addr = cfg.redis.address;
          password = cfg.redis.password;
          db = cfg.redis.db;
          dial_timeout = cfg.redis.policer.dial_timeout;
          read_timeout = cfg.redis.policer.read_timeout;
          write_timeout = cfg.redis.policer.write_timeout;
          pool_size = cfg.redis.policer.pool_size;
        })
        d)

  unfoldable pub new_client_subscriber : DatabaseConfig → Exec D ℕ
  new_client_subscriber cfg d = pinged_client (
      redis.new_client
        (record {
          addr = cfg.redis.address;
          password = cfg.redis.password;
          db = cfg.redis.db;
          dial_timeout = pos 0;
          read_timeout = cfg.redis.subscriber.read_timeout;
          write_timeout = pos 0;
          pool_size = cfg.redis.subscriber.pool_size;
        })
        d)

-- What the library documents of the open clients.
pub record Connects {D : Type 0} (redis : RedisLibrary D) (is_open : D → ℕ → Bool) : Type 0 where
  pub closes : Closes redis.driver is_open
  pub new_fresh : (options : Options) (d : D) → is_open d (redis.new_client options d).0 ≡ false
  pub new_open :
      (options : Options) (d : D) (k : ℕ)
      → is_open (redis.new_client options d).1 k
        ≡ (is_open d k || (redis.new_client options d).0 == k)

module _ {D : Type 0} (redis : RedisLibrary D) (is_open : D → ℕ → Bool) (c : Connects redis is_open)
    (cfg : DatabaseConfig) (d : D) (k : ℕ) where
  -- If the Redis library opens and closes clients as it documents: each of the two functions that
  -- make a client leaves one more client open, the one that it returns, and if it fails just those
  -- that were open before.
  pub open-new_client :
      (is_open (new_client_policer redis cfg d).1 k
        ≡ open_after (is_open d) (new_client_policer redis cfg d).0 k)
      × (is_open (new_client_subscriber redis cfg d).1 k
          ≡ open_after (is_open d) (new_client_subscriber redis cfg d).0 k)
  unfolding new_client_policer new_client_subscriber
  open-new_client = (
    open-pinged redis.driver is_open c.closes _ (is_open d) _ (c.new_fresh _ d) (c.new_open _ d) k,
    open-pinged redis.driver is_open c.closes _ (is_open d) _ (c.new_fresh _ d) (c.new_open _ d) k,
  )
