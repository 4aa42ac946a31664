-- ===== src/Migrator/Closing.antt =====
-- cmd/migrator/main.go leaves no connection behind.
use otus_anti_bruteforce.Base.{
  ℕ, Bool, ◌==◌, Result, ok, err, Exec, ◌>>=◌, bind_ok, bind_err, wrapping, Keeps, bind-Keeps,
  wrapping-Keeps, All, Option-cases, inl, inr, ◌≡◌, refl, ap, arith,
}
use otus_anti_bruteforce.Base.Int.{ℤ}
use otus_anti_bruteforce.Base.Text.{Bytes, codes}
use otus_anti_bruteforce.Base.GoMap.{lookup, lookup-All}
use otus_anti_bruteforce.Config.{Config, Viper, Files, load_config}
use otus_anti_bruteforce.Connect.{open_after, dropped}
use otus_anti_bruteforce.Postgres.Open.{Sqlx, open_db, Opens, open-open_db, open_db_fresh}
use otus_anti_bruteforce.Migrator.{
  Goose, must_parse_int64, migrated, print_version, to_version, cases, dispatch, and_close,
  dialect_set, config_loaded, db_opened, migrate_with, run_configured, run_migration,
}

-- A call of goose keeps what `look` sees, such as the open connections or the schema.
pub record GooseKeeps {D X : Type 0} (goose : Goose D) (look : D → X) : Type 0 where
  pub set_dialect : (s : Bytes) → Keeps look (goose.set_dialect s)
  pub up : (db : ℕ) (dir : Bytes) → Keeps look (goose.up db dir)
  pub down : (db : ℕ) (dir : Bytes) → Keeps look (goose.down db dir)
  pub redo : (db : ℕ) (dir : Bytes) → Keeps look (goose.redo db dir)
  pub reset : (db : ℕ) (dir : Bytes) → Keeps look (goose.reset db dir)
  pub status : (db : ℕ) (dir : Bytes) → Keeps look (goose.status db dir)
  pub get_db_version : (db : ℕ) → Keeps look (goose.get_db_version db)
  pub up_to : (db : ℕ) (dir : Bytes) (v : ℤ) → Keeps look (goose.up_to db dir v)
  pub down_to : (db : ℕ) (dir : Bytes) (v : ℤ) → Keeps look (goose.down_to db dir v)
  pub print : (s : Bytes) (d : D) → look (goose.print s d) ≡ look d

module _ {D : Type 0} (goose : Goose D) (to_lower : Bytes → Bytes) (sscan : Bytes → Result ℤ) where
  module _ {X : Type 0} (look : D → X) (keeps : GooseKeeps goose look) where
    migrated-Keeps :
        (m : Exec D (Unit {0})) → Keeps look m → Keeps look (migrated goose to_lower sscan m)
    migrated-Keeps m = wrapping-Keeps look (codes "migration error") m

    to_version-Keeps :
        (m : ℤ → Exec D (Unit {0})) (r : Result ℤ)
        → ((v : ℤ) → Keeps look (m v))
        → Keeps look (to_version goose to_lower sscan m r)
    to_version-Keeps m (ok v) k = migrated-Keeps (m v) (k v)
    to_version-Keeps m (err e) k = λ d. refl

    print_version-Keeps : (db : ℕ) → Keeps look (print_version goose to_lower sscan db)
    print_version-Keeps db =
        bind-Keeps look _ _
          (wrapping-Keeps look _ (goose.get_db_version db) (keeps.get_db_version db))
          (λ v d. keeps.print _ d)

    cases-Keeps :
        (dir arg : Bytes) (db : ℕ)
        → All (λ e. Keeps look e.1) (cases goose to_lower sscan dir arg db)
    unfolding cases
    cases-Keeps dir arg db = (
      migrated-Keeps _ (keeps.up db dir),
      (
        migrated-Keeps _ (keeps.down db dir),
        (
          migrated-Keeps _ (keeps.redo db dir),
          (
            migrated-Keeps _ (keeps.reset db dir),
            (
              migrated-Keeps _ (keeps.status db dir),
              (
                print_version-Keeps db,
                (
                  to_version-Keeps _ (must_parse_int64 goose to_lower sscan arg)
                      (keeps.up_to db dir),
                  (
                    to_version-Keeps _ (must_parse_int64 goose to_lower sscan arg)
                        (keeps.down_to db dir),
                    tt,
                  ),
                ),
              ),
            ),
          ),
        ),
      ),
    )

    pub dispatch-Keeps :
        (dir command arg : Bytes) (db : ℕ)
        → Keeps look (dispatch goose to_lower sscan dir command arg db)
    unfolding dispatch
    dispatch-Keeps dir command arg db =
        elim (Option-cases (lookup (to_lower command) (cases goose to_lower sscan dir arg db))) [
          | inl unknown ↦ rw (dispatch, unknown) (λ d. refl)
          | inr (m, known) ↦
              rw (dispatch, known)
                (lookup-All (Keeps look) (to_lower command) _ m (cases-Keeps dir arg db) known)
        ]

  module _ (sqlx : Sqlx D) {V : Type 0} (viper : Viper V) (files : Files) (is_open : D → ℕ → Bool)
      (opens : Opens sqlx is_open) (keeps : (k : ℕ) → GooseKeeps goose (λ d. is_open d k))
      (k : ℕ) where
    abbrev opened : Config → Exec D ℕ
    opened = db_opened goose to_lower sscan sqlx viper files

    abbrev closing : (ℕ → Exec D (Unit {0})) → ℕ → Exec D (Unit {0})
    closing = and_close goose to_lower sscan sqlx viper files

    closed_after :
        (m : ℕ → Exec D (Unit {0})) (cfg : Config) (d : D) (x : Result ℕ × D)
        → open_db sqlx cfg.database d ≡ x
        → is_open x.1 k ≡ open_after (is_open d) x.0 k
        → ((h : ℕ) → Keeps (λ d. is_open d k) (m h))
        → is_open ((opened cfg >>= closing m) d).1 k ≡ is_open d k
    closed_after m cfg d (ok h, d') e now kept =
        rw (bind_ok (opened cfg) (closing m) (ap (wrapping (codes "DB open error")) e)) (
          rw (opens.closes.close_open h (m h d').1 k, kept h d', now)
            (dropped (is_open d k) (h == k) (λ same.
              let at : h ≡ k = ground arith in
              rw⁻¹ at (open_db_fresh sqlx is_open opens cfg.database d h (ap (λ r. r.0) e)))))
    closed_after m cfg d (err f, d') e now kept =
        rw (bind_err (opened cfg) (closing m) (ap (wrapping (codes "DB open error")) e)) now

    migrate_with-Keeps :
        (dir command arg : Bytes) (cfg : Config)
        → Keeps
            (λ d. is_open d k)
            (migrate_with goose to_lower sscan sqlx viper files dir command arg cfg)
    unfolding migrate_with
    migrate_with-Keeps dir command arg cfg d =
        closed_after (dispatch goose to_lower sscan dir command arg) cfg d _ refl
          (open-open_db sqlx is_open opens cfg.database d k)
          (dispatch-Keeps (λ d. is_open d k) (keeps k) dir command arg)

    -- If the drivers open and close connections as they document and goose leaves them alone, a run
    -- of the migrator leaves just the connections open that were open before, whatever its
    -- arguments and whichever step fails.
    pub open-run_migration :
        (config_file dir command arg : Bytes) (d : D)
        → is_open
            (run_migration goose to_lower sscan sqlx viper files config_file dir command arg d).1
            k
          ≡ is_open d k
    unfolding run_migration run_configured
    open-run_migration config_file dir command arg =
        bind-Keeps (λ d. is_open d k) (dialect_set goose to_lower sscan sqlx viper files)
          (λ _. run_configured goose to_lower sscan sqlx viper files config_file dir command arg)
          (wrapping-Keeps (λ d. is_open d k) (codes "set dialect")
            (goose.set_dialect (codes "postgres")) ((keeps k).set_dialect (codes "postgres")))
          (λ _.
            bind-Keeps (λ d. is_open d k)
              (config_loaded goose to_lower sscan sqlx viper files config_file)
              (migrate_with goose to_lower sscan sqlx viper files dir command arg)
              (wrapping-Keeps (λ d. is_open d k) (codes "config load")
                (λ d. (load_config viper files config_file, d)) (λ d. refl))
              (migrate_with-Keeps dir command arg))
