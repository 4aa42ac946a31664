-- ===== src/Migrator.antt =====
-- cmd/migrator/main.go: the command of goose that is run, between the opening and the closing of the
-- database. Goose, `strings.ToLower` and `fmt.Sscan` are parameters.
pub mod Closing
pub mod Rejection
use otus_anti_bruteforce.Base.{
  ℕ, Bool, List, [], ◌∷◌, Option, none, some, ◌++◌, Result, ok, err, Error, new, wrap, Exec, pure,
  raise, ◌>>=◌, ◌>>◌, wrapping, if◌then◌else◌,
}
use otus_anti_bruteforce.Base.Int.{ℤ}
use otus_anti_bruteforce.Base.Text.{Bytes, codes, beq}
use otus_anti_bruteforce.Base.GoMap.{GoMap, lookup}
use otus_anti_bruteforce.Base.Decimal.{show_int}
use otus_anti_bruteforce.Config.{Config, Viper, Files, load_config}
use otus_anti_bruteforce.Connect.{Driver}
use otus_anti_bruteforce.Postgres.Open.{Sqlx, open_db}

-- The functions of goose that the program calls, on a connection and the directory of the
-- migrations, and `fmt.Printf`.
pub record Goose (D : Type 0) : Type 0 where
  pub set_dialect : Bytes → Exec D (Unit {0})
  pub up : ℕ → Bytes → Exec D (Unit {0})
  pub down : ℕ → Bytes → Exec D (Unit {0})
  pub redo : ℕ → Bytes → Exec D (Unit {0})
  pub reset : ℕ → Bytes → Exec D (Unit {0})
  pub status : ℕ → Bytes → Exec D (Unit {0})
  pub get_db_version : ℕ → Exec D ℤ
  pub up_to : ℕ → Bytes → ℤ → Exec D (Unit {0})
  pub down_to : ℕ → Bytes → ℤ → Exec D (Unit {0})
  pub print : Bytes → D → D

-- The value of a flag; one that is not given has its default.
abbrev pub flag_or : Bytes → Option Bytes → Bytes
flag_or default none = default
flag_or default (some value) = value

module _ {D : Type 0} (goose : Goose D) (to_lower : Bytes → Bytes) (sscan : Bytes → Result ℤ) where
  unfoldable pub must_parse_int64 : Bytes → Result ℤ
  must_parse_int64 s =
      if beq s [] then err (new (codes "arg is required for this command")) else sscan s

  -- an error of goose
  abbrev pub migrated : Exec D (Unit {0}) → Exec D (Unit {0})
  migrated m d = wrapping (codes "migration error") (m d)

  abbrev pub print_version : ℕ → Exec D (Unit {0})
  print_version db = do
    v ← λ d. wrapping (codes "get DB version") (goose.get_db_version db d)
    λ d. (ok tt, goose.print (codes "Current version: " ++ show_int v ++ codes "\n") d)

  abbrev pub to_version : (ℤ → Exec D (Unit {0})) → Result ℤ → Exec D (Unit {0})
  to_version m (ok v) = migrated (m v)
  to_version m (err e) = raise (wrap (codes "parse version error") e)

  -- the cases of the `switch` of `runMigration`
  unfoldable pub cases : Bytes → Bytes → ℕ → GoMap (Exec D (Unit {0}))
  unfolding must_parse_int64
  cases dir arg db =
      (codes "up", migrated (goose.up db dir))
      ∷ (codes "down", migrated (goose.down db dir))
      ∷ (codes "redo", migrated (goose.redo db dir))
      ∷ (codes "reset", migrated (goose.reset db dir))
      ∷ (codes "status", migrated (goose.status db dir))
      ∷ (codes "version", print_version db)
      ∷ (codes "up-to", to_version (goose.up_to db dir) (must_parse_int64 arg))
      ∷ (codes "down-to", to_version (goose.down_to db dir) (must_parse_int64 arg))
      ∷ []

  -- and its `default`
  abbrev pub or_unknown : Bytes → Option (Exec D (Unit {0})) → Exec D (Unit {0})
  or_unknown command none = raise (new (codes "unknown command: " ++ command))
  or_unknown command (some m) = m

  unfoldable pub dispatch : Bytes → Bytes → Bytes → ℕ → Exec D (Unit {0})
  unfolding cases
  dispatch dir command arg db = or_unknown command (lookup (to_lower command) (cases dir arg db))

  module _ (sqlx : Sqlx D) {V : Type 0} (viper : Viper V) (files : Files) where
    -- `defer dbx.Close()`
    abbrev pub and_close : (ℕ → Exec D (Unit {0})) → ℕ → Exec D (Unit {0})
    and_close m db d = let (r, d') = m db d in (r, sqlx.driver.close db d')

    abbrev pub dialect_set : Exec D (Unit {0})
    dialect_set d = wrapping (codes "set dialect") (goose.set_dialect (codes "postgres") d)

    abbrev pub config_loaded : Bytes → Exec D Config
    config_loaded config_file d =
        wrapping (codes "config load") (load_config viper files config_file, d)

    abbrev pub db_opened : Config → Exec D ℕ
    db_opened cfg d = wrapping (codes "DB open error") (open_db sqlx cfg.database d)

    -- the part of `runMigration` after the configuration is loaded
    unfoldable pub migrate_with : Bytes → Bytes → Bytes → Config → Exec D (Unit {0})
    unfolding dispatch
    migrate_with dir command arg cfg = do
      db ← db_opened cfg
      and_close (dispatch dir command arg) db

    unfoldable pub run_configured : Bytes → Bytes → Bytes → Bytes → Exec D (Unit {0})
    run_configured config_file dir command arg = do
      cfg ← config_loaded config_file
      migrate_with dir command arg cfg

    unfoldable pub run_migration : Bytes → Bytes → Bytes → Bytes → Exec D (Unit {0})
    run_migration config_file dir command arg = do
      dialect_set
      run_configured config_file dir command arg

    -- After a run: `log.Fatalf` exits with 1.
    abbrev pub exited : Result (Unit {0}) × D → ℕ × D
    exited (ok _, d) = (0, goose.print (codes "migration completed successfully\n") d)
    exited (err e, d) = (1, d)

    unfoldable pub main : Option Bytes → Option Bytes → Option Bytes → Option Bytes → D → ℕ × D
    main config_file dir command arg d = exited (
        run_migration (flag_or (codes "config.yaml") config_file)
          (flag_or (codes "./migrations") dir) (flag_or (codes "up") command) (flag_or [] arg) d)
