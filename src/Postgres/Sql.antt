-- ===== src/Postgres/Sql.antt =====
-- The queries of internal/storage/postgresdb/subnetlistdb.go on the one table of migrations, and
-- what PostgreSQL and sqlx document of such queries, for a database that can be reached.
use otus_anti_bruteforce.Base.{
  Bool, true, false, not, ◌&&◌, ◌||◌, List, [], ◌∷◌, Option, none, some, ok, Exec, ◌≡◌, is_ok, any,
  all, if◌then◌else◌,
}
use otus_anti_bruteforce.Base.Text.{Bytes, beq}
use otus_anti_bruteforce.Domain.{ListType, whitelist, blacklist}

pub data Column : Type 0 where
  cidr_column list_type_column : Column

-- `:cidr` and `:list_type`, and `$1`
pub data Param : Type 0 where
  colon : Column → Param
  dollar_1 : Param

-- `column = parameter`; several are joined by AND.
abbrev pub Condition : Type 0
Condition = Column × Param

-- `SELECT column FROM subnets WHERE …`, `INSERT INTO subnets (…) VALUES (…)` with or without
-- `ON CONFLICT (…) DO NOTHING`, and `DELETE FROM subnets WHERE …`.
pub data Query : Type 0 where
  select_from : Column → List Condition → Query
  insert_into : List Column → List Param → Option (List Column) → Query
  delete_from : List Condition → Query

-- internal/storage/postgresdb/dto.go
pub record SubnetRow : Type 0 where
  pub cidr : Bytes
  pub list_type : ListType

abbrev pub Args : Type 0
Args = Param → Option Bytes

-- The values of a row under the tags of its fields.
abbrev pub tagged : SubnetRow → Args
tagged row (colon cidr_column) = some row.cidr
tagged row (colon list_type_column) = some row.list_type
tagged row dollar_1 = none

abbrev pub first_arg : Bytes → Args
first_arg v (colon c) = none
first_arg v dollar_1 = some v

-- What the table holds; its primary key is the pair of both columns.
abbrev pub Table : Type 0
Table = ListType → Bytes → Bool

-- `CHECK (list_type IN ('blacklist', 'whitelist'))`
unfoldable pub is_list_type : ListType → Bool
is_list_type l = beq l blacklist || beq l whitelist

-- `PRIMARY KEY (CIDR, LIST_TYPE)`
abbrev pub is_primary_key : List Column → Bool
is_primary_key (cidr_column ∷ list_type_column ∷ []) = true
is_primary_key (list_type_column ∷ cidr_column ∷ []) = true
is_primary_key _ = false

abbrev pub value_in : Column → ListType → Bytes → Bytes
value_in cidr_column l k = k
value_in list_type_column l k = l

abbrev pub equals : Option Bytes → Bytes → Bool
equals none v = false
equals (some w) v = beq w v

abbrev pub meets : List Condition → Args → ListType → Bytes → Bool
meets conditions args l k = all (λ (c : Condition). equals (args c.1) (value_in c.0 l k)) conditions

abbrev same_column : Column → Column → Bool
same_column cidr_column cidr_column = true
same_column list_type_column list_type_column = true
same_column _ _ = false

abbrev value_of : Column → List Column → List Param → Args → Option Bytes
value_of c (d ∷ ds) (p ∷ ps) args = if same_column c d then args p else value_of c ds ps args
value_of c _ _ args = none

-- Both columns are NOT NULL.
abbrev checked_row : Option Bytes → Option ListType → Option SubnetRow
checked_row (some k) (some l) =
    if is_list_type l then some (record { cidr = k; list_type = l }) else none
checked_row _ _ = none

abbrev and_row : Option SubnetRow → Option (List SubnetRow) → Option (List SubnetRow)
and_row (some row) (some rows) = some (row ∷ rows)
and_row _ _ = none

unfoldable pub new_rows : List Column → List Param → List Args → Option (List SubnetRow)
new_rows columns params [] = some []
new_rows columns params (args ∷ more) =
    and_row
      (checked_row (value_of cidr_column columns params args)
        (value_of list_type_column columns params args))
      (new_rows columns params more)

abbrev pub is_row : ListType → Bytes → SubnetRow → Bool
is_row l k row = beq row.list_type l && beq row.cidr k

abbrev pub added : List SubnetRow → Table → Table
added rows t l k = t l k || any (is_row l k) rows

-- Without a clause for conflicts, no row may be there already.
abbrev pub all_fresh : List SubnetRow → Table → Bool
all_fresh [] t = true
all_fresh (row ∷ rows) t = not (t row.list_type row.cidr) && all_fresh rows (added (row ∷ []) t)

-- A clause for conflicts must name the columns of a unique index.
abbrev pub is_insertable : Option (List Column) → List SubnetRow → Table → Bool
is_insertable (some target) rows t = is_primary_key target
is_insertable none rows t = all_fresh rows t

abbrev pub inserted : Option (List Column) → Option (List SubnetRow) → Table → Option Table
inserted conflict none t = none
inserted conflict (some rows) t =
    if is_insertable conflict rows t then some (added rows t) else none

abbrev pub is_some : {A : Type 0} → Option A → Bool
is_some none = false
is_some (some a) = true

abbrev pub or_kept : {A : Type 0} → A → Option A → A
or_kept a none = a
or_kept a (some b) = b

-- What a query makes of the table; `none` is an error, after which the table is as it was.
abbrev pub run : Query → List Args → Table → Option Table
run (select_from column conditions) more t = some t
run (insert_into columns params conflict) more t =
    inserted conflict (new_rows columns params more) t
run (delete_from conditions) more t =
    some (λ l k. t l k && not (any (λ (args : Args). meets conditions args l k) more))

-- `sqlx.DB`: `SelectContext` and `ExecContext` with one argument, and `NamedExecContext` with some
-- structures.
pub record Database (D : Type 0) : Type 0 where
  pub select_context : Query → Args → Exec D (List Bytes)
  pub exec_context : Query → Args → Exec D (Unit {0})
  pub named_exec_context : Query → List Args → Exec D (Unit {0})

-- Just the values in a column of the rows that meet the conditions.
pub record Selected (column : Column) (conditions : List Condition) (args : Args) (t : Table)
    (texts : List Bytes) : Type 0 where
  pub sound :
      (v : Bytes)
      → any (λ j. beq j v) texts ≡ true
      → (l : ListType) × (k : Bytes) × (t l k ≡ true)
        × (meets conditions args l k ≡ true)
        × (value_in column l k ≡ v)
  pub complete :
      (l : ListType) (k : Bytes)
      → t l k ≡ true
      → meets conditions args l k ≡ true
      → any (λ j. beq j (value_in column l k)) texts ≡ true

-- A database that can be reached, seen through the rows that its table holds.
pub record Runs {D : Type 0} (db : Database D) (holds : D → Table) : Type 0 where
  pub named_reply :
      (q : Query) (args : Args) (more : List Args) (d : D)
      → is_ok (db.named_exec_context q (args ∷ more) d).0 ≡ is_some (run q (args ∷ more) (holds d))
  pub named_holds :
      (q : Query) (args : Args) (more : List Args) (d : D) (l : ListType) (k : Bytes)
      → holds (db.named_exec_context q (args ∷ more) d).1 l k
        ≡ or_kept (holds d) (run q (args ∷ more) (holds d)) l k
  pub exec_reply :
      (q : Query) (args : Args) (d : D)
      → is_ok (db.exec_context q args d).0 ≡ is_some (run q (args ∷ []) (holds d))
  pub exec_holds :
      (q : Query) (args : Args) (d : D) (l : ListType) (k : Bytes)
      → holds (db.exec_context q args d).1 l k ≡ or_kept (holds d) (run q (args ∷ []) (holds d)) l k
  pub select_texts :
      (column : Column) (conditions : List Condition) (args : Args) (d : D)
      → (texts : List Bytes) × (db.select_context (select_from column conditions) args d
          ≡ (ok texts, d))
        × Selected column conditions args (holds d) texts
