-- ===== src/Config/Defaults.antt =====
-- Which of the defaults of config.go reach the structure.
use otus_anti_bruteforce.Base.{
  Bool, false, List, [], ◌∷◌, Option, none, some, Result, ok, err, ◌≡◌, refl, ◌∙◌, Bool-cases, inl,
  inr, arith,
}
use otus_anti_bruteforce.Base.Text.{Bytes, codes, beq, beq_iff}
use otus_anti_bruteforce.Base.GoMap.{lookup, HasDistinctKeys}
use otus_anti_bruteforce.Config.{
  Config, Setting, Viper, Files, file_exists, defaults, fill_defaults, prepared, decoded,
  loaded_from, load_config,
}
use otus_anti_bruteforce.Config.Documented.{Documented}

abbrev or_else : Option Setting → Option Setting → Option Setting
or_else none o = o
or_else (some s) o = some s

module _ {V : Type 0} (viper : Viper V) (default_of : V → Bytes → Option Setting)
    (setting : V → Bytes → Option Setting) (is_set : V → Bytes → Bool)
    (doc : Documented viper default_of setting is_set) where
  default_of-fill_defaults :
      (ds : List (Bytes × Setting)) (v : V) (k : Bytes)
      → HasDistinctKeys ds
      → default_of (fill_defaults viper ds v) k ≡ or_else (lookup k ds) (default_of v k)
  unfolding fill_defaults lookup
  default_of-fill_defaults [] v k d = refl
  default_of-fill_defaults ((j, s) ∷ ds) v k (new, d) = elim (Bool-cases (beq j k)) [
    | inl same ↦ rw same (
        rw
          (
            default_of-fill_defaults ds (viper.set_default j s v) k d,
            doc.default_set,
            same,
            ← (beq_iff j k).0 same,
            new,
          )
          refl)
    | inr other ↦ rw other (
        rw (default_of-fill_defaults ds (viper.set_default j s v) k d, doc.default_set, other) refl)
  ]

  defaults-HasDistinctKeys : HasDistinctKeys defaults
  unfolding lookup beq
  defaults-HasDistinctKeys = (
    refl,
    (
      refl,
      (
        refl,
        (
          refl,
          (
            refl,
            (
              refl,
              (
                refl,
                (
                  refl,
                  (
                    refl,
                    (
                      refl,
                      (
                        refl,
                        (
                          refl,
                          (
                            refl,
                            (
                              refl,
                              (
                                refl,
                                (
                                  refl,
                                  (
                                    refl,
                                    (refl, (refl, (refl, (refl, (refl, (refl, (refl, tt))))))),
                                  ),
                                ),
                              ),
                            ),
                          ),
                        ),
                      ),
                    ),
                  ),
                ),
              ),
            ),
          ),
        ),
      ),
    ),
  )

  default_of-prepared : (k : Bytes) → default_of (prepared viper) k ≡ lookup k defaults
  default_of-prepared k =
      rw
        (
          default_of-fill_defaults defaults _ k defaults-HasDistinctKeys,
          doc.env,
          doc.env_replacer,
          doc.env_prefix,
          doc.new_none,
        )
        (or_none (lookup k defaults))
    where
      or_none : (o : Option Setting) → or_else o none ≡ o
      or_none none = refl
      or_none (some s) = refl

  decoded-ok :
      (r : Result (Unit {0})) (v : V) (cfg : Config)
      → decoded viper r v ≡ ok cfg
      → viper.decode v ≡ ok cfg
  decoded-ok (ok _) v cfg h = h
  decoded-ok (err e) v cfg h = cc

  loaded_from-ok :
      (r : Result V) (cfg : Config)
      → loaded_from viper r ≡ ok cfg
      → (v : V) × (r ≡ ok v) × (viper.decode v ≡ ok cfg)
  loaded_from-ok (ok v) cfg h = (v, refl, decoded-ok viper.new_decoder v cfg h)
  loaded_from-ok (err e) cfg h = ground arith

  -- What a successful load decoded has the defaults.
  loaded-defaults :
      (files : Files) (path : Bytes) (cfg : Config)
      → load_config viper files path ≡ ok cfg
      → (v : V) × (viper.decode v ≡ ok cfg) × ((k : Bytes) → default_of v k ≡ lookup k defaults)
  unfolding load_config
  loaded-defaults files path cfg = elim (Bool-cases (beq path [])) [
    | inl standard ↦
        rw (load_config, standard)
          (λ h.
            let (v, read, decoded_v) = loaded_from-ok _ cfg h in
            (
              v,
              decoded_v,
              λ k.
                  doc.read_default _ v k read
                  ∙ simp (doc.config_path, doc.config_type, doc.config_name)
                      (default_of-prepared k),
            ))
    | inr given ↦ elim (Bool-cases (file_exists files path)) [
      | inl there ↦
          rw (load_config, given, there)
            (λ h.
              let (v, read, decoded_v) = loaded_from-ok _ cfg h in
              (
                v,
                decoded_v,
                λ k. doc.read_default _ v k read ∙ rw (doc.config_file) (default_of-prepared k),
              ))
      | inr missing ↦ rw (load_config, given, missing) (λ h. ground arith)
    ]
  ]

  -- If viper and mapstructure do what they document, the configuration loads, and neither the
  -- environment nor the file sets the mode, the level of the log, the address of Redis or the
  -- channel of the subscriber: the mode is `local` and the level `info`, but the address and the
  -- channel are empty, although defaults for them stand in the code.
  pub load_config-defaults :
      (files : Files) (path : Bytes) (cfg : Config)
      → load_config viper files path ≡ ok cfg
      → ((v : V) → is_set v (codes "database.workmode") ≡ false)
      → ((v : V) → is_set v (codes "logger.level") ≡ false)
      → ((v : V) → is_set v (codes "database.redis.address") ≡ false)
      → ((v : V) → is_set v (codes "database.redis.subscriber.subnets_channel") ≡ false)
      → (cfg.database.workmode ≡ codes "local")
        × (cfg.logger.level ≡ codes "info")
        × (cfg.database.redis.address ≡ [])
        × (cfg.database.redis.subscriber.subnets_channel ≡ [])
  unfolding lookup beq
  load_config-defaults files path cfg h no_mode no_level no_address no_channel =
      let (v, decoded_v, of_key) = loaded-defaults files path cfg h in
      (
        rw (doc.workmode v cfg decoded_v, doc.unset v _ (no_mode v), of_key) refl,
        rw (doc.level v cfg decoded_v, doc.unset v _ (no_level v), of_key) refl,
        rw (doc.redis_address v cfg decoded_v, doc.unset v _ (no_address v), of_key) refl,
        rw (doc.subnets_channel v cfg decoded_v, doc.unset v _ (no_channel v), of_key) refl,
      )
