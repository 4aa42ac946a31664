-- ===== src/Tests/Machines.antt =====
-- A machine with clients that are open, a service that is up or down, and the version of a schema.
use otus_anti_bruteforce.Base.{
  none, some, ℕ, suc, ◌+◌, ◌-◌, Bool, true, false, not, ◌&&◌, ◌==◌, List, [], ◌∷◌, Result, ok, err,
  foreign, Exec, ◌≡◌, refl, any, if◌then◌else◌, arith,
}
use otus_anti_bruteforce.Base.Int.{ℤ, pos, pos_part}
use otus_anti_bruteforce.Base.Text.{Bytes, codes, beq}
use otus_anti_bruteforce.Connect.{Driver, Closes}
use otus_anti_bruteforce.Postgres.Open.{Sqlx, Opens, SqlxKeeps}
use otus_anti_bruteforce.Migrator.{main, Goose, run_migration}
use otus_anti_bruteforce.Migrator.Closing.{GooseKeeps, open-run_migration}
use otus_anti_bruteforce.Migrator.Rejection.{main-invalid}
use otus_anti_bruteforce.Tests.Settings.{viper, files}

pub record Machine : Type 0 where
  pub clients : List ℕ
  pub is_up : Bool
  pub schema : ℕ

abbrev pub is_open : Machine → ℕ → Bool
is_open d k = any (λ j. j == k) d.clients

abbrev pub without : ℕ → List ℕ → List ℕ
without h [] = []
without h (j ∷ js) = if h == j then without h js else j ∷ without h js

abbrev pub total : List ℕ → ℕ
total [] = 0
total (j ∷ js) = j + total js

abbrev pub driver : Driver Machine
driver = record {
  ping = λ h d. if d.is_up then (ok tt, d) else (err (foreign 1), d);
  close = λ h d. record d { clients = without h d.clients };
}

abbrev pub added : Machine → ℕ × Machine
added d = let h = suc (total d.clients) in (h, record d { clients = h ∷ d.clients })

any-without :
    (h k : ℕ) (js : List ℕ)
    → any (λ j. j == k) (without h js) ≡ (any (λ j. j == k) js && not (h == k))
any-without h k [] = refl
any-without h k (j ∷ js) = ground (arith, any-without h k js)

pub above_total : (n k : ℕ) (js : List ℕ) → total js + n + 1 ≡ k → any (λ j. j == k) js ≡ false
above_total n k [] h = refl
above_total n k (j ∷ js) h = ground (arith, above_total (n + j) k js)

ping_open : (h : ℕ) (d : Machine) (k : ℕ) → is_open (driver.ping h d).1 k ≡ is_open d k
ping_open h d k = ground arith

driver-Closes : Closes driver is_open
driver-Closes = record { ping_open = ping_open; close_open = λ h d k. any-without h k d.clients }

abbrev pub sqlx : Sqlx Machine
sqlx = record {
  driver = driver;
  open_pgx = λ dsn d. let (h, d') = added d in (ok h, d');
  set_max_open_conns = λ h n d. d;
  set_max_idle_conns = λ h n d. d;
  set_conn_max_lifetime = λ h n d. d;
  set_conn_max_idle_time = λ h n d. d;
}

added_fresh : (d : Machine) (h : ℕ) → suc (total d.clients) ≡ h → is_open d h ≡ false
added_fresh d h e = above_total 0 h d.clients (omega arith)

sqlx-Opens : Opens sqlx is_open
sqlx-Opens = record {
  closes = driver-Closes;
  open_fresh = λ dsn d h d' e. added_fresh d h cc;
  open_open = λ dsn d k. ground arith;
  pool_open = λ cfg h d k. refl;
}

abbrev pub migrate : (ℕ → ℕ) → Exec Machine (Unit {0})
migrate f d = (ok tt, record d { schema = f d.schema })

abbrev pub goose : Goose Machine
goose = record {
  set_dialect = λ s d. (ok tt, d);
  up = λ db dir. migrate suc;
  down = λ db dir. migrate (λ v. v - 1);
  redo = λ db dir. migrate (λ v. v);
  reset = λ db dir. migrate (λ v. 0);
  status = λ db dir d. (ok tt, d);
  get_db_version = λ db d. (ok (pos d.schema), d);
  up_to = λ db dir v. migrate (λ old. pos_part v);
  down_to = λ db dir v. migrate (λ old. pos_part v);
  print = λ s d. d;
}

goose-GooseKeeps : (k : ℕ) → GooseKeeps goose (λ d. is_open d k)
goose-GooseKeeps k = record {
  set_dialect = λ s d. refl;
  up = λ db dir d. refl;
  down = λ db dir d. refl;
  redo = λ db dir d. refl;
  reset = λ db dir d. refl;
  status = λ db dir d. refl;
  get_db_version = λ db d. refl;
  up_to = λ db dir v d. refl;
  down_to = λ db dir v d. refl;
  print = λ s d. refl;
}

sqlx-SqlxKeeps : SqlxKeeps sqlx (λ d. d.schema)
sqlx-SqlxKeeps = record {
  open_pgx = λ dsn d. refl;
  ping = λ h d. ground arith;
  close = λ h d. refl;
}

abbrev pub down : Machine
down = record { clients = 3 ∷ []; is_up = false; schema = 2 }

abbrev pub running : Machine
running = record { clients = 3 ∷ []; is_up = true; schema = 2 }

abbrev scan : Bytes → Result ℤ
scan s = err (foreign 2)

open-run_migration_example :
    is_open
      (run_migration goose
        (λ s. s)
        scan
        sqlx
        viper
        files
        (codes "config.yml")
        (codes "m")
        (codes "up")
        []
        running).1
      4
    ≡ is_open running 4
open-run_migration_example =
    open-run_migration goose (λ s. s) scan sqlx viper files is_open sqlx-Opens goose-GooseKeeps 4
      (codes "config.yml") (codes "m") (codes "up") [] running

-- `up-to` with the version left out, as in the usage text of the program
main-invalid_example :
    ((main goose
        (λ s. s)
        scan
        sqlx
        viper
        files
        (some (codes "config.yml"))
        none
        (some (codes "up-to"))
        none
        running).0
      ≡ 1)
    × ((main goose
          (λ s. s)
          scan
          sqlx
          viper
          files
          (some (codes "config.yml"))
          none
          (some (codes "up-to"))
          none
          running).1.schema
        ≡ 2)
unfolding beq
main-invalid_example =
    main-invalid goose (λ s. s) scan sqlx viper files (λ d. d.schema) (some (codes "config.yml"))
      none (some (codes "up-to")) none running sqlx-SqlxKeeps (λ d. refl) refl
