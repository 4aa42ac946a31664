-- ===== src/Config.antt =====
-- internal/config/config.go: the configuration as a structure, its defaults, and how it is loaded.
-- Viper, mapstructure and the file system are parameters.
pub mod Documented
pub mod Defaults
use otus_anti_bruteforce.Base.{
  ℕ, Bool, true, false, List, [], ◌∷◌, ◌++◌, Result, ok, err, Error, new, if◌then◌else◌,
}
use otus_anti_bruteforce.Base.Int.{ℤ}
use otus_anti_bruteforce.Base.Text.{Bytes, codes, beq}
use otus_anti_bruteforce.RateLimit.Checker.{LimitsConfig}

abbrev pub err_file_not_found : Error
err_file_not_found = new (codes " file not found")

pub record AppConfig : Type 0 where
  pub name : Bytes

pub record TlsConfig : Type 0 where
  pub enabled : Bool
  pub cert_file : Bytes
  pub key_file : Bytes

pub record ServerConfig : Type 0 where
  pub address : Bytes
  pub port : ℤ
  pub tls : TlsConfig

pub record LoggerConfig : Type 0 where
  pub level : Bytes
  pub file : Bytes

pub record PoolConfig : Type 0 where
  pub max_open_conns : ℤ
  pub max_idle_conns : ℤ
  pub conn_max_lifetime : ℤ
  pub conn_max_idle_time : ℤ

pub record PostgresqlConfig : Type 0 where
  pub dsn : Bytes
  pub user : Bytes
  pub password : Bytes
  pub host : Bytes
  pub port : ℤ
  pub name : Bytes
  pub pool : PoolConfig

pub record PolicerConfig : Type 0 where
  pub read_timeout : ℤ
  pub write_timeout : ℤ
  pub dial_timeout : ℤ
  pub pool_size : ℤ

pub record SubscriberConfig : Type 0 where
  pub read_timeout : ℤ
  pub pool_size : ℤ
  pub subnets_channel : Bytes

pub record RedisConfig : Type 0 where
  pub address : Bytes
  pub password : Bytes
  pub db : ℤ
  pub policer : PolicerConfig
  pub subscriber : SubscriberConfig

pub record DatabaseConfig : Type 0 where
  pub workmode : Bytes
  pub postgresql : PostgresqlConfig
  pub redis : RedisConfig

pub record Config : Type 0 where
  pub app : AppConfig
  pub limits : LimitsConfig
  pub server : ServerConfig
  pub logger : LoggerConfig
  pub database : DatabaseConfig

-- The tags that lead to a field, joined by points.
abbrev pub dotted : Bytes → Bytes → Bytes
dotted outer inner = outer ++ codes "." ++ inner

abbrev pub workmode_key : Bytes
workmode_key = dotted (codes "database") (codes "workmode")

abbrev pub level_key : Bytes
level_key = dotted (codes "logger") (codes "level")

abbrev pub redis_key : Bytes
redis_key = dotted (codes "database") (codes "redis")

abbrev pub address_key : Bytes
address_key = dotted redis_key (codes "address")

abbrev pub subscriber_key : Bytes
subscriber_key = dotted redis_key (codes "subscriber")

abbrev pub subnets_channel_key : Bytes
subnets_channel_key = dotted subscriber_key (codes "subnets_channel")

-- A default is a text or a number.
pub data Setting : Type 0 where
  text : Bytes → Setting
  number : ℕ → Setting

-- `*viper.Viper`, whose settings are the states `V`; what it reads is the environment and files.
-- `decode` is mapstructure's decoder with the options of `LoadConfig`.
pub record Viper (V : Type 0) : Type 0 where
  pub new_viper : V
  pub set_env_prefix : Bytes → V → V
  pub set_env_key_replacer : List (Bytes × Bytes) → V → V
  pub automatic_env : V → V
  pub set_default : Bytes → Setting → V → V
  pub set_config_name : Bytes → V → V
  pub set_config_type : Bytes → V → V
  pub add_config_path : Bytes → V → V
  pub set_config_file : Bytes → V → V
  pub read_in_config : V → Result V
  pub new_decoder : Result (Unit {0})
  pub decode : V → Result Config

-- `os.Stat` and `os.IsNotExist`
pub record Files : Type 0 where
  pub stat : Bytes → Result (Unit {0})
  pub is_not_exist : Error → Bool

abbrev pub file_exists : Files → Bytes → Bool
file_exists files path = elim (files.stat path) [
  | ok _ ↦ true
  | err e ↦ if files.is_not_exist e then false else false
]

-- the calls of `SetDefault`, in order
abbrev pub defaults : List (Bytes × Setting)
defaults =
    (codes "database.workmode", text (codes "local"))
    ∷ (codes "database.postgresql.host", text (codes "localhost"))
    ∷ (codes "database.postgresql.port", number 5432)
    ∷ (codes "database.postgresql.name", text (codes "anti_bruteforce"))
    ∷ (codes "database.postgresql.pool.max_open_conns", number 20)
    ∷ (codes "database.postgresql.pool.max_idle_conns", number 10)
    ∷ (codes "database.postgresql.pool.conn_max_lifetime", text (codes "1h"))
    ∷ (codes "database.postgresql.pool.conn_max_idle_time", text (codes "10m"))
    ∷ (codes "server.port", number 50051)
    ∷ (codes "logger.level", text (codes "info"))
    ∷ (codes "limits.login_attempts", number 10)
    ∷ (codes "limits.password_attempts", number 100)
    ∷ (codes "limits.ip_attempts", number 1000)
    ∷ (codes "limits.window", text (codes "1m"))
    ∷ (codes "redis.address", text (codes "localhost:6379"))
    ∷ (codes "redis.password", text [])
    ∷ (codes "redis.db", number 0)
    ∷ (codes "redis.policer.dial_timeout", text (codes "5s"))
    ∷ (codes "redis.policer.read_timeout", text (codes "3s"))
    ∷ (codes "redis.policer.write_timeout", text (codes "3s"))
    ∷ (codes "redis.policer.pool_size", number 100)
    ∷ (codes "redis.subscriber.read_timeout", text (codes "0s"))
    ∷ (codes "redis.subscriber.pool_size", number 2)
    ∷ (codes "redis.subscriber.subnets_channel", text (codes "abf.subnets.updated"))
    ∷ []

module _ {V : Type 0} (viper : Viper V) where
  unfoldable pub fill_defaults : List (Bytes × Setting) → V → V
  fill_defaults [] v = v
  fill_defaults ((key, s) ∷ rest) v = fill_defaults rest (viper.set_default key s v)

  abbrev pub set_defaults : V → V
  set_defaults = fill_defaults defaults

  -- `v` until the choice of the file
  abbrev pub prepared : V
  prepared =
      let v = viper.set_env_prefix (codes "ABF") viper.new_viper in
      let replaced = (codes ".", codes "__") ∷ (codes "-", codes "_") ∷ [] in
      set_defaults (viper.automatic_env (viper.set_env_key_replacer replaced v))

  -- Where the file is looked for if none is given.
  abbrev pub standard_paths : V → V
  standard_paths v =
      let named = viper.set_config_type (codes "yaml") (viper.set_config_name (codes "config") v) in
      let local_paths =
        viper.add_config_path (codes "./configs") (viper.add_config_path (codes ".") named) in
      viper.add_config_path (codes "/etc/calendar") local_paths

  abbrev pub decoded : Result (Unit {0}) → V → Result Config
  decoded (err e) v = err e
  decoded (ok _) v = viper.decode v

  -- the part of `LoadConfig` from the reading of the file on
  abbrev pub loaded_from : Result V → Result Config
  loaded_from (err e) = err e
  loaded_from (ok v) = decoded viper.new_decoder v

  unfoldable pub load_config : Files → Bytes → Result Config
  load_config files path =
      if beq path []
      then loaded_from (viper.read_in_config (standard_paths prepared))
      else if file_exists files path
      then loaded_from (viper.read_in_config (viper.set_config_file path prepared))
      else err err_file_not_found
