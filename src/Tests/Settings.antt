-- ===== src/Tests/Settings.antt =====
-- A configuration file that names an address and leaves the rest to the defaults.
use otus_anti_bruteforce.Base.{
  Bool, true, false, [], Option, some, ok, err, new, ◌≡◌, refl, sym, ap, if◌then◌else◌,
}
use otus_anti_bruteforce.Base.Int.{pos}
use otus_anti_bruteforce.Base.Text.{Bytes, codes, beq}
use otus_anti_bruteforce.Base.GoMap.{GoMap, lookup, insert, lookup-insert}
use otus_anti_bruteforce.Config.{
  Config, DatabaseConfig, Setting, text, number, Viper, Files, load_config, fill_defaults,
  err_file_not_found,
}
use otus_anti_bruteforce.Config.Documented.{Documented, text_of}
use otus_anti_bruteforce.Config.Defaults.{load_config-defaults}

abbrev in_file : Bytes → Bool
in_file k = beq (codes "server.address") k

abbrev setting : GoMap Setting → Bytes → Option Setting
setting v k = if in_file k then some (text (codes "0.0.0.0")) else lookup k v

abbrev value : GoMap Setting → Bytes → Bytes
value v k = text_of (setting v k)

abbrev pub database_of : GoMap Setting → DatabaseConfig
database_of v = record {
  workmode = value v (codes "database.workmode");
  postgresql = record {
    dsn = value v (codes "database.postgresql.dsn");
    user = value v (codes "database.postgresql.user");
    password = value v (codes "database.postgresql.password");
    host = value v (codes "database.postgresql.host");
    port = pos 5432;
    name = value v (codes "database.postgresql.name");
    pool = record {
      max_open_conns = pos 20;
      max_idle_conns = pos 10;
      conn_max_lifetime = pos 3600000000000;
      conn_max_idle_time = pos 600000000000;
    };
  };
  redis = record {
    address = value v (codes "database.redis.address");
    password = value v (codes "database.redis.password");
    db = pos 0;
    policer = record {
      read_timeout = pos 0;
      write_timeout = pos 0;
      dial_timeout = pos 0;
      pool_size = pos 0;
    };
    subscriber = record {
      read_timeout = pos 0;
      pool_size = pos 0;
      subnets_channel = value v (codes "database.redis.subscriber.subnets_channel");
    };
  };
}

abbrev pub config_of : GoMap Setting → Config
config_of v = record {
  app = record { name = value v (codes "app.name") };
  limits = record {
    login_attempts = pos 10;
    password_attempts = pos 100;
    ip_attempts = pos 1000;
    window = pos 60000000000;
  };
  server = record {
    address = value v (codes "server.address");
    port = pos 50051;
    tls = record { enabled = false; cert_file = []; key_file = [] };
  };
  logger = record { level = value v (codes "logger.level"); file = value v (codes "logger.file") };
  database = database_of v;
}

abbrev pub viper : Viper (GoMap Setting)
viper = record {
  new_viper = [];
  set_env_prefix = λ p v. v;
  set_env_key_replacer = λ r v. v;
  automatic_env = λ v. v;
  set_default = insert;
  set_config_name = λ name v. v;
  set_config_type = λ type_name v. v;
  add_config_path = λ path v. v;
  set_config_file = λ path v. v;
  read_in_config = λ v. ok v;
  new_decoder = ok tt;
  decode = λ v. ok (config_of v);
}

-- Only `config.yml` is there.
abbrev pub files : Files
files = record {
  stat = λ path. if beq path (codes "config.yml") then ok tt else err (new (codes "ENOENT"));
  is_not_exist = λ e. true;
}

abbrev pub defaulted : GoMap Setting
defaulted = fill_defaults viper otus_anti_bruteforce.Config.defaults []

config_field : (v : GoMap Setting) (cfg : Config) → viper.decode v ≡ ok cfg → config_of v ≡ cfg
config_field v cfg e = cc

viper-Documented : Documented viper (λ v k. lookup k v) setting (λ v k. in_file k)
unfolding lookup
viper-Documented = record {
  new_none = λ k. refl;
  env_prefix = λ p v k. refl;
  env_replacer = λ r v k. refl;
  env = λ v k. refl;
  default_set = λ j s v k. lookup-insert j k s v;
  config_name = λ p v k. refl;
  config_type = λ p v k. refl;
  config_path = λ p v k. refl;
  config_file = λ p v k. refl;
  read_default = λ v v' k e. let same : v ≡ v' = cc in ap (λ x. lookup k x) (sym same);
  unset = λ v k h. rw h refl;
  workmode = λ v cfg e. rw⁻¹ (config_field v cfg e) refl;
  level = λ v cfg e. rw⁻¹ (config_field v cfg e) refl;
  redis_address = λ v cfg e. rw⁻¹ (config_field v cfg e) refl;
  subnets_channel = λ v cfg e. rw⁻¹ (config_field v cfg e) refl;
}

loaded_config : load_config viper files (codes "config.yml") ≡ ok (config_of defaulted)
unfolding load_config fill_defaults beq
loaded_config = refl

load_config-defaults_example :
    ((config_of defaulted).database.workmode ≡ codes "local")
    × ((config_of defaulted).logger.level ≡ codes "info")
    × ((config_of defaulted).database.redis.address ≡ [])
    × ((config_of defaulted).database.redis.subscriber.subnets_channel ≡ [])
unfolding beq
load_config-defaults_example =
    load_config-defaults viper (λ v k. lookup k v) setting (λ v k. in_file k) viper-Documented files
      (codes "config.yml") (config_of defaulted) loaded_config (λ v. refl) (λ v. refl) (λ v. refl)
      (λ v. refl)
