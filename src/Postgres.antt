-- ===== src/Postgres.antt =====
-- internal/storage/postgresdb: the subnet lists as rows of a table. The queries are those of the
-- source; the database that runs them is a parameter.
pub mod Open
pub mod Sql
pub mod Contents
pub mod Agreement
use otus_anti_bruteforce.Base.{
  List, [], ◌∷◌, some, Error, new, Exec, map, if◌then◌else◌, pure, raise,
}
use otus_anti_bruteforce.Base.Text.{Bytes, codes, beq}
use otus_anti_bruteforce.Domain.{ListType}
use otus_anti_bruteforce.Ports.{SubnetRepo}
use otus_anti_bruteforce.Postgres.Sql.{
  cidr_column, list_type_column, colon, dollar_1, Query, select_from, insert_into, delete_from,
  SubnetRow, tagged, first_arg, Database,
}

-- internal/storage/postgresdb/errors.go
abbrev pub err_empty_cidr : Error
err_empty_cidr = new (codes "cidr is empty")

-- the query of `GetSubnetLists`
abbrev pub select_cidrs : Query
select_cidrs = select_from cidr_column ((list_type_column, dollar_1) ∷ [])

-- the query of `SaveSubnetList`
abbrev pub insert_rows : Query
insert_rows =
    insert_into (cidr_column ∷ list_type_column ∷ [])
      (colon cidr_column ∷ colon list_type_column ∷ []) (some (cidr_column ∷ list_type_column ∷ []))

-- the query of `ClearSubnetList`
abbrev pub delete_list : Query
delete_list = delete_from ((list_type_column, dollar_1) ∷ [])

-- the query of `AddCIDRToSubnetList`
abbrev pub insert_row : Query
insert_row =
    insert_into (cidr_column ∷ list_type_column ∷ [])
      (colon cidr_column ∷ colon list_type_column ∷ []) (some (cidr_column ∷ list_type_column ∷ []))

-- the query of `RemoveCIDRFromSubnetList`
abbrev pub delete_row : Query
delete_row =
    delete_from ((cidr_column, colon cidr_column) ∷ (list_type_column, colon list_type_column) ∷ [])

-- the loop of `SaveSubnetList`
abbrev pub rows_of : ListType → List Bytes → List SubnetRow
rows_of list_type = map (λ cidr. record { cidr = cidr; list_type = list_type })

module _ {D : Type 0} (db : Database D) where
  unfoldable pub get_subnet_lists : ListType → Exec D (List Bytes)
  get_subnet_lists list_type = db.select_context select_cidrs (first_arg list_type)

  -- No text, no query.
  unfoldable pub save_subnet_list : ListType → List Bytes → Exec D (Unit {0})
  save_subnet_list list_type [] = pure tt
  save_subnet_list list_type (cidr ∷ cidrs) =
      db.named_exec_context insert_rows (map tagged (rows_of list_type (cidr ∷ cidrs)))

  unfoldable pub clear_subnet_list : ListType → Exec D (Unit {0})
  clear_subnet_list list_type = db.exec_context delete_list (first_arg list_type)

  unfoldable pub add_cidr_to_subnet_list : ListType → Bytes → Exec D (Unit {0})
  add_cidr_to_subnet_list list_type cidr =
      if beq cidr []
      then raise err_empty_cidr
      else db.named_exec_context insert_row
          (tagged (record { cidr = cidr; list_type = list_type }) ∷ [])

  unfoldable pub remove_cidr_from_subnet_list : ListType → Bytes → Exec D (Unit {0})
  remove_cidr_from_subnet_list list_type cidr =
      if beq cidr []
      then raise err_empty_cidr
      else db.named_exec_context delete_row
          (tagged (record { cidr = cidr; list_type = list_type }) ∷ [])

  abbrev pub postgres_subnet_repo : SubnetRepo D
  postgres_subnet_repo = record {
    get_subnet_lists = get_subnet_lists;
    save_subnet_list = save_subnet_list;
    clear_subnet_list = clear_subnet_list;
    add_cidr_to_subnet_list = add_cidr_to_subnet_list;
    remove_cidr_from_subnet_list = remove_cidr_from_subnet_list;
  }
