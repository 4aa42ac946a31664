-- ===== src/Config/Documented.antt =====
-- What the program relies on of viper and mapstructure.
use otus_anti_bruteforce.Base.{Bool, false, List, [], Option, none, some, ok, ◌≡◌, if◌then◌else◌}
use otus_anti_bruteforce.Base.Text.{Bytes, beq}
use otus_anti_bruteforce.Base.Decimal.{show_nat}
use otus_anti_bruteforce.Config.{
  Config, Setting, text, number, Viper, workmode_key, level_key, address_key, subnets_channel_key,
}

-- A missing text is empty, and a number is written out.
abbrev pub text_of : Option Setting → Bytes
text_of none = []
text_of (some (text s)) = s
text_of (some (number n)) = show_nat n

-- What viper and mapstructure document: `SetDefault` sets the default of one key, the other calls
-- none; what neither the environment nor the file sets has its default; a field is filled from
-- its key and keeps its zero value if the key has no value.
pub record Documented {V : Type 0} (viper : Viper V) (default_of : V → Bytes → Option Setting)
    (setting : V → Bytes → Option Setting) (is_set : V → Bytes → Bool) : Type 0 where
  pub new_none : (k : Bytes) → default_of viper.new_viper k ≡ none
  pub env_prefix :
      (p : Bytes) (v : V) (k : Bytes) → default_of (viper.set_env_prefix p v) k ≡ default_of v k
  pub env_replacer :
      (r : List (Bytes × Bytes)) (v : V) (k : Bytes)
      → default_of (viper.set_env_key_replacer r v) k ≡ default_of v k
  pub env : (v : V) (k : Bytes) → default_of (viper.automatic_env v) k ≡ default_of v k
  pub default_set :
      (j : Bytes) (s : Setting) (v : V) (k : Bytes)
      → default_of (viper.set_default j s v) k ≡ (if beq j k then some s else default_of v k)
  pub config_name :
      (p : Bytes) (v : V) (k : Bytes) → default_of (viper.set_config_name p v) k ≡ default_of v k
  pub config_type :
      (p : Bytes) (v : V) (k : Bytes) → default_of (viper.set_config_type p v) k ≡ default_of v k
  pub config_path :
      (p : Bytes) (v : V) (k : Bytes) → default_of (viper.add_config_path p v) k ≡ default_of v k
  pub config_file :
      (p : Bytes) (v : V) (k : Bytes) → default_of (viper.set_config_file p v) k ≡ default_of v k
  pub read_default :
      (v v' : V) (k : Bytes) → viper.read_in_config v ≡ ok v' → default_of v' k ≡ default_of v k
  pub unset : (v : V) (k : Bytes) → is_set v k ≡ false → setting v k ≡ default_of v k
  pub workmode :
      (v : V) (cfg : Config)
      → viper.decode v ≡ ok cfg
      → cfg.database.workmode ≡ text_of (setting v workmode_key)
  pub level :
      (v : V) (cfg : Config)
      → viper.decode v ≡ ok cfg
      → cfg.logger.level ≡ text_of (setting v level_key)
  pub redis_address :
      (v : V) (cfg : Config)
      → viper.decode v ≡ ok cfg
      → cfg.database.redis.address ≡ text_of (setting v address_key)
  pub subnets_channel :
      (v : V) (cfg : Config)
      → viper.decode v ≡ ok cfg
      → cfg.database.redis.subscriber.subnets_channel ≡ text_of (setting v subnets_channel_key)
