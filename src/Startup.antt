-- ===== src/Startup.antt =====
-- `run` of cmd/anti-bruteforce/main.go from its beginning to the registration of the server: which
-- stores, clients and services it makes, in both modes. The drivers, the files, the network and the
-- memory of the process are parameters over its state `S`.
pub mod Modes
pub mod LocalServer
pub mod Program
pub mod Serving
use otus_anti_bruteforce.Base.{
  ℕ, Bool, true, false, List, Option, none, some, [], ◌∷◌, ◌++◌, Result, ok, err, Error, new, Exec,
  pure, raise, ◌>>=◌, ◌>>◌, wrapping, ◌≡◌, refl, if◌then◌else◌,
}
use otus_anti_bruteforce.Base.Int.{ℤ}
use otus_anti_bruteforce.Base.Text.{Bytes, codes, beq}
use otus_anti_bruteforce.Base.Decimal.{show_int}
use otus_anti_bruteforce.Base.GoMap.{GoMap}
use otus_anti_bruteforce.Net.{NetPackage}
use otus_anti_bruteforce.Ports
use otus_anti_bruteforce.Ports.{LimiterRepo, SubnetRepo, SubnetUpdatesPublisher}
use otus_anti_bruteforce.Config.{Config, DatabaseConfig}
use otus_anti_bruteforce.Connect.{Driver}
use otus_anti_bruteforce.Postgres.{postgres_subnet_repo}
use otus_anti_bruteforce.Postgres.Sql.{Database}
use otus_anti_bruteforce.Postgres.Open.{Sqlx, new_subnet_list_db}
use otus_anti_bruteforce.Factory.{RedisLibrary, new_client_policer, new_client_subscriber}
use otus_anti_bruteforce.Redis
use otus_anti_bruteforce.Subnet.Policer.Defs.{SubnetPolicer, new_subnet_policer}
use otus_anti_bruteforce.Subnet.Policer.Defs as Policer
use otus_anti_bruteforce.RateLimit.Checker.{
  Limits, LimitsConfig, limits_from_config, new_limit_checker, limit_checker,
}
use otus_anti_bruteforce.App.Password.{hash_password}
use otus_anti_bruteforce.App.RateLimiter
use otus_anti_bruteforce.App.RateLimiter.{rate_limiter_use_case}
use otus_anti_bruteforce.App.SubnetLists.{subnet_list_use_case}
use otus_anti_bruteforce.Adapters.LocalPublisher.{new_local_publisher}
use otus_anti_bruteforce.Adapters.Redis.{new_redis_publisher}
use otus_anti_bruteforce.Delivery.Server.{Server, new_server}

-- The libraries of the external mode: sqlx and go-redis, and what their clients, known by a number,
-- do: the queries, the transactions, and `Publish`.
pub record Drivers (S : Type 0) : Type 0 where
  pub sqlx : Sqlx S
  pub redis : RedisLibrary S
  pub database : ℕ → Database S
  pub redis_client : ℕ → Redis.Client S
  pub publish : ℕ → Bytes → Bytes → Exec S (Unit {0})

-- The rest of the process: files and sockets, the clock and the random numbers, the memory stores as
-- `NewSubnetListDB` and `NewBucketsDB` make them, and the policer, which it holds in its memory.
pub record Process (IpNet S : Type 0) : Type 0 where
  pub open_file : Bytes → Exec S ℕ
  pub close_file : ℕ → S → S
  pub listen : Bytes → Exec S (Unit {0})
  pub clock : S → ℤ
  pub random : S → Result ℕ × S
  pub memory_subnets : SubnetRepo S
  pub memory_buckets : LimiterRepo S
  pub policer_of : S → SubnetPolicer IpNet
  pub set_policer : SubnetPolicer IpNet → S → S

-- What is there when the server starts to serve: the server, the client and the channel of the
-- subscriber, and what the subscriber calls for a message.
pub record Started (Ip S : Type 0) : Type 0 where
  pub server : Server Ip S
  pub subscriber : Option (ℕ × Bytes)
  pub reload_subnets : Exec S (Unit {0})

module _ (net : NetPackage) (nets : GoMap net.IpNet → GoMap net.IpNet) (order : Limits → Limits)
    (sum256 : Bytes → List ℕ) (join_host_port : Bytes → Bytes → Bytes) {S : Type 0}
    (drivers : Drivers S) (process : Process net.IpNet S) (cfg : Config) where
  open net use {Ip, IpNet}

  abbrev pub is_local : Bool
  is_local = beq cfg.database.workmode (codes "local")

  -- A file for the log, if the configuration names one.
  abbrev pub opened_log : Exec S (Option ℕ)
  opened_log s =
      if beq cfg.logger.file []
      then (ok none, s)
      else wrapping (codes "failed to open log file")
          ((process.open_file cfg.logger.file >>= λ f. pure (some f)) s)

  -- the repository of the lists
  abbrev pub chosen_subnet_repo : Exec S (SubnetRepo S)
  chosen_subnet_repo s =
      if is_local
      then (ok process.memory_subnets, s)
      else wrapping (codes "failed to initialize PostgreSQL subnet repository") (
          (new_subnet_list_db drivers.sqlx cfg.database >>= λ db.
          pure (postgres_subnet_repo (drivers.database db)))
            s)

  -- `redisdb.NewBucketsRepo`, each call with the time and a random number of its own
  abbrev pub buckets_repo : ℕ → LimiterRepo S
  buckets_repo client = record {
    allow = λ key limit window s.
        let (sfx, s') = process.random s in
        Redis.allow (drivers.redis_client client) (process.clock s) sfx key limit window s';
    reset = Redis.reset (drivers.redis_client client);
  }

  -- the client for the limits, which the publisher uses too
  abbrev pub policer_client : Exec S (Option ℕ)
  policer_client s =
      if is_local
      then (ok none, s)
      else wrapping (codes "failed to initialize Redis client for rate limit repository")
          ((new_client_policer drivers.redis cfg.database >>= λ c. pure (some c)) s)

  abbrev pub chosen_limit_repo : Option ℕ → LimiterRepo S
  chosen_limit_repo none = process.memory_buckets
  chosen_limit_repo (some client) = buckets_repo client

  -- `NewRateLimiterService`: the policer and the limits over the repositories
  module _ (subnet_repo : SubnetRepo S) (limit_repo : LimiterRepo S) where
    abbrev pub reload : Exec S (Unit {0})
    reload s =
        let (r, (sp, s')) = Policer.reload_subnets net subnet_repo (process.policer_of s, s) in
        (r, process.set_policer sp s')

    abbrev pub subnet_policer : Ports.SubnetPolicer Ip S
    subnet_policer = record {
      check = λ ip s. Policer.check net nets ip (process.policer_of s);
      reload_subnets = reload;
    }

    abbrev pub checker : Ports.LimitChecker S
    checker = limit_checker (new_limit_checker limit_repo order (limits_from_config cfg.limits))

    abbrev pub loaded : Exec S (Unit {0})
    loaded s = wrapping (codes "rate limiter service init") (
        RateLimiter.init (hash_password sum256) net.ip_string subnet_policer checker
          (process.set_policer new_subnet_policer s))

    abbrev pub service_reload : Exec S (Unit {0})
    service_reload =
        RateLimiter.reload_subnets (hash_password sum256) net.ip_string subnet_policer checker

    abbrev pub local_publisher : SubnetUpdatesPublisher S
    local_publisher = new_local_publisher service_reload

    abbrev pub registered : SubnetUpdatesPublisher S → Server Ip S
    registered publisher =
        new_server
          (rate_limiter_use_case (hash_password sum256) net.ip_string subnet_policer checker)
          (subnet_list_use_case subnet_repo publisher)

  abbrev pub channel : Bytes
  channel = cfg.database.redis.subscriber.subnets_channel

  -- the client of the subscriber
  abbrev pub chosen_subscriber : Exec S (Option (ℕ × Bytes))
  chosen_subscriber s =
      if is_local
      then (ok none, s)
      else wrapping (codes "failed to initialize Redis client for subscriber")
          ((new_client_subscriber drivers.redis cfg.database >>= λ c. pure (some (c, channel))) s)

  abbrev pub external_publisher : Option ℕ → Exec S (SubnetUpdatesPublisher S)
  external_publisher none = raise (new (codes "redis client for publisher is nil"))
  external_publisher (some client) = pure (new_redis_publisher (drivers.publish client) channel)

  abbrev pub chosen_publisher :
      SubnetUpdatesPublisher S → Option ℕ → Exec S (SubnetUpdatesPublisher S)
  chosen_publisher at_once client = if is_local then pure at_once else external_publisher client

  abbrev pub listening : Exec S (Unit {0})
  listening s =
      let addr = join_host_port cfg.server.address (show_int cfg.server.port) in
      wrapping (codes "listen " ++ addr) (process.listen addr s)

  -- `run` after the log is open
  unfoldable pub started : Exec S (Started Ip S)
  started = do
    subnet_repo ← chosen_subnet_repo
    client ← policer_client
    loaded subnet_repo (chosen_limit_repo client)
    subscriber ← chosen_subscriber
    publisher ← chosen_publisher (local_publisher subnet_repo (chosen_limit_repo client)) client
    listening
    pure (record {
      server = registered subnet_repo (chosen_limit_repo client) publisher;
      subscriber = subscriber;
      reload_subnets = service_reload subnet_repo (chosen_limit_repo client);
    })

  -- `defer f.Close()`, for a start that fails
  abbrev pub or_close : Option ℕ → Result (Started Ip S) × S → Result (Started Ip S) × S
  or_close (some f) (err e, s) = (err e, process.close_file f s)
  or_close (some f) (ok app, s) = (ok app, s)
  or_close none r = r

  unfoldable pub start : Exec S (Started Ip S)
  unfolding started
  start = do log ← opened_log; λ s. or_close log (started s)
