-- ===== src/Migrator/Rejection.antt =====
-- cmd/migrator/main.go on a command that it does not know, or without a version that it needs.
use otus_anti_bruteforce.Base.{
  ℕ, Bool, false, not, ◌&&◌, ◌||◌, List, [], ◌∷◌, any, Option, Result, ok, err, is_ok, Keeps,
  bind-Keeps, wrapping-Keeps, bind-fails, ◌≡◌, refl, ap, ◌∙◌, arith,
}
use otus_anti_bruteforce.Base.Int.{ℤ}
use otus_anti_bruteforce.Base.Text.{Bytes, codes, beq}
use otus_anti_bruteforce.Base.GoMap.{lookup}
use otus_anti_bruteforce.Config.{Config, Viper, Files, load_config}
use otus_anti_bruteforce.Postgres.Open.{Sqlx, open_db, SqlxKeeps, open_db-Keeps}
use otus_anti_bruteforce.Migrator.{
  Goose, must_parse_int64, cases, dispatch, and_close, dialect_set, config_loaded, db_opened,
  migrate_with, run_configured, run_migration, flag_or, exited, main,
}

-- The commands that take no version, and those that take one.
abbrev plain_commands : List Bytes
plain_commands =
    codes "up" ∷ codes "down" ∷ codes "redo" ∷ codes "reset" ∷ codes "status" ∷ codes "version" ∷ []

abbrev version_commands : List Bytes
version_commands = codes "up-to" ∷ codes "down-to" ∷ []

module _ {D : Type 0} (goose : Goose D) (to_lower : Bytes → Bytes) (sscan : Bytes → Result ℤ) where
  abbrev pub is_valid : Bytes → Bytes → Bool
  is_valid command arg =
      any (λ name. beq name (to_lower command)) plain_commands
      || any (λ name. beq name (to_lower command)) version_commands
        && not (beq arg [])
        && is_ok (sscan arg)

  module _ (dir command arg : Bytes) (db : ℕ) (d : D) where
    dispatch-invalid :
        is_valid command arg ≡ false
        → (is_ok (dispatch goose to_lower sscan dir command arg db d).0 ≡ false)
          × ((dispatch goose to_lower sscan dir command arg db d).1 ≡ d)
    unfolding dispatch cases must_parse_int64 lookup
    dispatch-invalid h = ground arith

  module _ (sqlx : Sqlx D) {V : Type 0} (viper : Viper V) (files : Files) {X : Type 0}
      (schema : D → X) (keeps : SqlxKeeps sqlx schema)
      (dialect : Keeps schema (goose.set_dialect (codes "postgres"))) (dir command arg : Bytes)
      (invalid : is_valid command arg ≡ false) where
    migrate_with-invalid :
        (cfg : Config)
        → ((d : D)
            → is_ok (migrate_with goose to_lower sscan sqlx viper files dir command arg cfg d).0
              ≡ false)
          × Keeps schema (migrate_with goose to_lower sscan sqlx viper files dir command arg cfg)
    unfolding migrate_with
    migrate_with-invalid cfg =
        let opened = db_opened goose to_lower sscan sqlx viper files cfg in
        let rest =
          and_close goose to_lower sscan sqlx viper files
            (dispatch goose to_lower sscan dir command arg) in
        (
          bind-fails opened rest (λ db d. (dispatch-invalid dir command arg db d invalid).0),
          bind-Keeps schema opened rest
              (wrapping-Keeps schema (codes "DB open error") (open_db sqlx cfg.database)
                (open_db-Keeps sqlx schema keeps cfg.database))
              (λ db d.
                keeps.close db _ ∙ ap schema (dispatch-invalid dir command arg db d invalid).1),
        )

    -- For a command that the migrator does not know, or one that needs a version with an argument
    -- that is empty or cannot be read, the run fails and leaves the schema as it was, if neither
    -- connecting nor setting the dialect changes the schema.
    pub run_migration-invalid :
        (config_file : Bytes) (d : D)
        → (is_ok
              (run_migration goose to_lower sscan sqlx viper files config_file dir command arg d).0
            ≡ false)
          × (schema
                (run_migration goose to_lower sscan sqlx viper files config_file dir command arg
                  d).1
              ≡ schema d)
    unfolding run_migration run_configured
    run_migration-invalid config_file d =
        let start = dialect_set goose to_lower sscan sqlx viper files in
        let loading = config_loaded goose to_lower sscan sqlx viper files config_file in
        let migrating = migrate_with goose to_lower sscan sqlx viper files dir command arg in
        let rest = λ (_ : Unit {0}).
          run_configured goose to_lower sscan sqlx viper files config_file dir command arg in
        (
          bind-fails start rest
              (λ _. bind-fails loading migrating (λ cfg. (migrate_with-invalid cfg).0)) d,
          bind-Keeps schema start rest
              (wrapping-Keeps schema (codes "set dialect") (goose.set_dialect (codes "postgres"))
                dialect)
              (λ _.
                bind-Keeps schema loading migrating
                  (wrapping-Keeps schema (codes "config load")
                    (λ d. (load_config viper files config_file, d)) (λ d. refl))
                  (λ cfg. (migrate_with-invalid cfg).1))
              d,
        )

  module _ (sqlx : Sqlx D) {V : Type 0} (viper : Viper V) (files : Files) {X : Type 0}
      (schema : D → X) where
    exited-failed :
        (x : Result (Unit {0}) × D) (d : D)
        → is_ok x.0 ≡ false
        → schema x.1 ≡ schema d
        → ((exited goose to_lower sscan sqlx viper files x).0 ≡ 1)
          × (schema (exited goose to_lower sscan sqlx viper files x).1 ≡ schema d)
    exited-failed (ok _, d') d h k = cc
    exited-failed (err e, d') d h k = (refl, k)

    -- For a command that the migrator does not know, or one that needs a version with an argument
    -- that is missing, empty or cannot be read, where a flag that is not given has its default: the
    -- migrator exits with 1 and leaves the schema as it was, if neither connecting nor setting the
    -- dialect changes the schema.
    pub main-invalid :
        (config_file dir command arg : Option Bytes) (d : D)
        → SqlxKeeps sqlx schema
        → Keeps schema (goose.set_dialect (codes "postgres"))
        → is_valid (flag_or (codes "up") command) (flag_or [] arg) ≡ false
        → ((main goose to_lower sscan sqlx viper files config_file dir command arg d).0 ≡ 1)
          × (schema (main goose to_lower sscan sqlx viper files config_file dir command arg d).1
              ≡ schema d)
    unfolding main
    main-invalid config_file dir command arg d keeps dialect invalid =
        let (failed, kept) =
          run_migration-invalid sqlx viper files schema keeps dialect
            (flag_or (codes "./migrations") dir) (flag_or (codes "up") command) (flag_or [] arg)
            invalid (flag_or (codes "config.yaml") config_file) d in
        exited-failed _ d failed kept
