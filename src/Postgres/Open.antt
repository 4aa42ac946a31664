-- ===== src/Postgres/Open.antt =====
-- The opening of the database in internal/storage/postgresdb/subnetlistdb.go.
use otus_anti_bruteforce.Base.{
  ℕ, Bool, false, [], ◌++◌, Result, ok, err, Error, new, Exec, ◌>>=◌, bind_ok, bind_err, Keeps,
  bind-Keeps, ◌∙◌, ◌≡◌, refl, if◌then◌else◌, Bool-cases, inl, inr,
}
use otus_anti_bruteforce.Base.Int.{ℤ}
use otus_anti_bruteforce.Base.Text.{Bytes, codes, beq}
use otus_anti_bruteforce.Base.Decimal.{show_int}
use otus_anti_bruteforce.Config.{DatabaseConfig, PostgresqlConfig}
use otus_anti_bruteforce.Connect.{
  Driver, pinged, Closes, open_after, open-bind, bind-fresh, pinged-Keeps,
}

-- sqlx over the driver `pgx`: `Open`, the methods of a connection, and those of its pool.
pub record Sqlx (D : Type 0) : Type 0 where
  pub driver : Driver D
  pub open_pgx : Bytes → Exec D ℕ
  pub set_max_open_conns : ℕ → ℤ → D → D
  pub set_max_idle_conns : ℕ → ℤ → D → D
  pub set_conn_max_lifetime : ℕ → ℤ → D → D
  pub set_conn_max_idle_time : ℕ → ℤ → D → D

abbrev pub err_empty_dsn : Error
err_empty_dsn = new (codes "empty DSN")

-- `fmt.Sprintf("postgres://%s:%s@%s:%d/%s", …)`
unfoldable pub built_dsn : PostgresqlConfig → Bytes
built_dsn pg =
    codes "postgres://"
    ++ pg.user
    ++ codes ":"
    ++ pg.password
    ++ codes "@"
    ++ pg.host
    ++ codes ":"
    ++ show_int pg.port
    ++ codes "/"
    ++ pg.name

-- the text that names the database, or the error
unfoldable pub chosen_dsn : PostgresqlConfig → Result Bytes
chosen_dsn pg =
    if beq pg.dsn []
    then (if beq (built_dsn pg) [] then err err_empty_dsn else ok (built_dsn pg))
    else ok pg.dsn

module _ {D : Type 0} (sqlx : Sqlx D) where
  unfoldable pub open_db : DatabaseConfig → Exec D ℕ
  unfolding chosen_dsn
  open_db cfg d = elim (chosen_dsn cfg.postgresql) [
    | err e ↦ (err e, d)
    | ok dsn ↦ (sqlx.open_pgx dsn >>= pinged sqlx.driver) d
  ]

  -- the limits of the pool
  abbrev pub pooled : DatabaseConfig → ℕ → D → D
  pooled cfg h d =
      let pool = cfg.postgresql.pool in
      let opened =
        sqlx.set_max_idle_conns h pool.max_idle_conns
          (sqlx.set_max_open_conns h pool.max_open_conns d) in
      sqlx.set_conn_max_idle_time h pool.conn_max_idle_time
        (sqlx.set_conn_max_lifetime h pool.conn_max_lifetime opened)

  unfoldable pub new_subnet_list_db : DatabaseConfig → Exec D ℕ
  unfolding open_db
  new_subnet_list_db cfg = do h ← open_db cfg; λ d. (ok h, pooled cfg h d)

  unfoldable pub close : ℕ → D → D
  close h = sqlx.driver.close h

-- What `sqlx.Open` and the setters of the pool document of the open connections.
pub record Opens {D : Type 0} (sqlx : Sqlx D) (is_open : D → ℕ → Bool) : Type 0 where
  pub closes : Closes sqlx.driver is_open
  pub open_fresh :
      (dsn : Bytes) (d : D) (h : ℕ) (d' : D)
      → sqlx.open_pgx dsn d ≡ (ok h, d')
      → is_open d h ≡ false
  pub open_open :
      (dsn : Bytes) (d : D) (k : ℕ)
      → is_open (sqlx.open_pgx dsn d).1 k ≡ open_after (is_open d) (sqlx.open_pgx dsn d).0 k
  pub pool_open :
      (cfg : DatabaseConfig) (h : ℕ) (d : D) (k : ℕ) → is_open (pooled sqlx cfg h d) k ≡ is_open d k

chosen_dsn-ok : (pg : PostgresqlConfig) → (dsn : Bytes) × (chosen_dsn pg ≡ ok dsn)
unfolding chosen_dsn built_dsn beq
chosen_dsn-ok pg = elim (Bool-cases (beq pg.dsn [])) [
  | inl none_given ↦ (built_dsn pg, rw (chosen_dsn, none_given) refl)
  | inr given ↦ (pg.dsn, rw given refl)
]

-- What `look` sees is nothing that connections change, such as the tables.
pub record SqlxKeeps {D X : Type 0} (sqlx : Sqlx D) (look : D → X) : Type 0 where
  pub open_pgx : (dsn : Bytes) → Keeps look (sqlx.open_pgx dsn)
  pub ping : (h : ℕ) → Keeps look (sqlx.driver.ping h)
  pub close : (h : ℕ) (d : D) → look (sqlx.driver.close h d) ≡ look d

pub open_db-Keeps :
    {D X : Type 0} (sqlx : Sqlx D) (look : D → X)
    → SqlxKeeps sqlx look
    → (cfg : DatabaseConfig) → Keeps look (open_db sqlx cfg)
unfolding open_db
open_db-Keeps sqlx look keeps cfg d =
    let (dsn, chosen) = chosen_dsn-ok cfg.postgresql in
    rw (open_db, chosen)
      (bind-Keeps look (sqlx.open_pgx dsn) (pinged sqlx.driver) (keeps.open_pgx dsn)
        (pinged-Keeps sqlx.driver look keeps.ping keeps.close) d)

module _ {D : Type 0} (sqlx : Sqlx D) (is_open : D → ℕ → Bool) (o : Opens sqlx is_open)
    (cfg : DatabaseConfig) (d : D) where
  pub open-open_db :
      (k : ℕ) → is_open (open_db sqlx cfg d).1 k ≡ open_after (is_open d) (open_db sqlx cfg d).0 k
  unfolding open_db
  open-open_db k =
      let (dsn, chosen) = chosen_dsn-ok cfg.postgresql in
      rw (open_db, chosen)
        (open-bind sqlx.driver is_open o.closes (sqlx.open_pgx dsn) d _ refl (o.open_fresh dsn d)
          (o.open_open dsn d) k)

  pub open_db_fresh : (h : ℕ) → (open_db sqlx cfg d).0 ≡ ok h → is_open d h ≡ false
  unfolding open_db
  open_db_fresh h =
      let (dsn, chosen) = chosen_dsn-ok cfg.postgresql in
      rw (open_db, chosen)
        (bind-fresh sqlx.driver is_open (sqlx.open_pgx dsn) d _ refl (o.open_fresh dsn d) h)

  open_pooled :
      (x : Result ℕ × D)
      → open_db sqlx cfg d ≡ x
      → ((k : ℕ) → is_open x.1 k ≡ open_after (is_open d) x.0 k)
      → (k : ℕ)
      → is_open (new_subnet_list_db sqlx cfg d).1 k
        ≡ open_after (is_open d) (new_subnet_list_db sqlx cfg d).0 k
  unfolding new_subnet_list_db
  open_pooled (ok h, d') e opened k =
      rw (new_subnet_list_db, bind_ok (open_db sqlx cfg) (λ h d. (ok h, pooled sqlx cfg h d)) e)
        (o.pool_open cfg h d' k ∙ opened k)
  open_pooled (err f, d') e opened k =
      rw (new_subnet_list_db, bind_err (open_db sqlx cfg) (λ h d. (ok h, pooled sqlx cfg h d)) e)
        (opened k)

  -- If the drivers open and close connections as they document: `NewSubnetListDB` leaves one more
  -- connection open, the one that it returns, and if it fails just those that were open before.
  pub open-new_subnet_list_db :
      (k : ℕ)
      → is_open (new_subnet_list_db sqlx cfg d).1 k
        ≡ open_after (is_open d) (new_subnet_list_db sqlx cfg d).0 k
  open-new_subnet_list_db = open_pooled (open_db sqlx cfg d) refl open-open_db
