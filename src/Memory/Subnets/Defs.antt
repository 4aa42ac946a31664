-- ===== src/Memory/Subnets/Defs.antt =====
-- internal/storage/memory/subnetlistdb.go: the CIDR texts of each list, as a map of sets. The mutex
-- makes each call atomic. The inner maps are written back where Go changes them in place.
use otus_anti_bruteforce.Base.{List, [], ◌∷◌, none, some, ok, Exec}
use otus_anti_bruteforce.Base.Text.{Bytes}
use otus_anti_bruteforce.Base.GoMap.{GoMap, lookup, insert, delete, keys}
use otus_anti_bruteforce.Domain.{ListType}
use otus_anti_bruteforce.Ports.{SubnetRepo}

-- `map[string]struct{}`
abbrev pub CidrSet : Type 0
CidrSet = GoMap (Unit {0})

pub record SubnetListDb : Type 0 where
  pub data_of : GoMap CidrSet

abbrev pub new_subnet_list_db : SubnetListDb
new_subnet_list_db = record { data_of = [] }

-- `order` is the order of the loop over the map.
unfoldable pub get_subnet_lists : (CidrSet → CidrSet) → ListType → Exec SubnetListDb (List Bytes)
get_subnet_lists order list_type db = elim (lookup list_type db.data_of) [
  | none ↦ (ok [], db)
  | some cidrs ↦ (ok (keys (order cidrs)), db)
]

-- the loop of `SaveSubnetList`
unfoldable pub fill : List Bytes → CidrSet → CidrSet
fill [] set = set
fill (cidr ∷ cidrs) set = fill cidrs (insert cidr tt set)

unfoldable pub save_subnet_list : ListType → List Bytes → Exec SubnetListDb (Unit {0})
unfolding fill
save_subnet_list list_type cidrs db =
    (ok tt, record { data_of = insert list_type (fill cidrs []) db.data_of })

unfoldable pub clear_subnet_list : ListType → Exec SubnetListDb (Unit {0})
clear_subnet_list list_type db = (ok tt, record { data_of = delete list_type db.data_of })

unfoldable pub add_cidr_to_subnet_list : ListType → Bytes → Exec SubnetListDb (Unit {0})
add_cidr_to_subnet_list list_type cidr db = elim (lookup list_type db.data_of) [
  | none ↦ (ok tt, record { data_of = insert list_type (insert cidr tt []) db.data_of })
  | some cidrs ↦ (ok tt, record { data_of = insert list_type (insert cidr tt cidrs) db.data_of })
]

unfoldable pub remove_cidr_from_subnet_list : ListType → Bytes → Exec SubnetListDb (Unit {0})
remove_cidr_from_subnet_list list_type cidr db = elim (lookup list_type db.data_of) [
  | none ↦ (ok tt, db)
  | some cidrs ↦ (ok tt, record { data_of = insert list_type (delete cidr cidrs) db.data_of })
]

abbrev pub memory_subnet_repo : (CidrSet → CidrSet) → SubnetRepo SubnetListDb
memory_subnet_repo order = record {
  get_subnet_lists = get_subnet_lists order;
  save_subnet_list = save_subnet_list;
  clear_subnet_list = clear_subnet_list;
  add_cidr_to_subnet_list = add_cidr_to_subnet_list;
  remove_cidr_from_subnet_list = remove_cidr_from_subnet_list;
}
