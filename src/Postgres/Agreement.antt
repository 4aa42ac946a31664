-- ===== src/Postgres/Agreement.antt =====
-- The PostgreSQL store of the lists and the one in memory, behind the same port.
use otus_anti_bruteforce.Base.{
  Bool, true, false, not, ◌&&◌, List, [], ◌∷◌, ok, ◌≡◌, refl, sym, ◌∙◌, all, arith,
}
use otus_anti_bruteforce.Base.Text.{Bytes, beq}
use otus_anti_bruteforce.Base.GoMap.{Visits}
use otus_anti_bruteforce.Domain.{ListType}
use otus_anti_bruteforce.Memory.Subnets.Defs.{CidrSet, SubnetListDb}
use otus_anti_bruteforce.Memory.Subnets.Defs as Memory
use otus_anti_bruteforce.Memory.Subnets.Contents.{
  mem, has, Update, save, clear, add, remove, expected, perform-expected, get_subnet_lists-has,
}
use otus_anti_bruteforce.Memory.Subnets.Contents as Contents
use otus_anti_bruteforce.Postgres.{get_subnet_lists}
use otus_anti_bruteforce.Postgres.Sql.{Table, is_list_type, Database, Runs}
use otus_anti_bruteforce.Postgres.Contents.{
  perform_all, is_accepted, meant, meant_if, meant_all, same_all, get_subnet_lists-perform_all,
}

-- The calls that mean the same to both stores: no `SaveSubnetList`, no empty text, and nothing is
-- added to a list that is not one of the two.
abbrev pub is_shared : Update → Bool
is_shared (save l cidrs) = false
is_shared (clear l) = true
is_shared (add l cidr) = not (beq cidr []) && is_list_type l
is_shared (remove l cidr) = not (beq cidr [])

abbrev pub perform_in_memory : List Update → SubnetListDb → SubnetListDb
perform_in_memory [] db = db
perform_in_memory (u ∷ us) db = perform_in_memory us (Contents.perform u db).1

expected-meant :
    (u : Update) (t : Table) (m : ListType) (k : Bytes)
    → is_shared u ≡ true
    → expected u t m k ≡ meant_if (is_accepted u) u t m k
unfolding expected meant is_accepted
expected-meant (save l cidrs) t m k h = cc
expected-meant (clear l) t m k h = ground arith
expected-meant (add l cidr) t m k h = rw h refl
expected-meant (remove l cidr) t m k h = rw h refl

has-perform_in_memory :
    (us : List Update) (db : SubnetListDb) (m : ListType) (k : Bytes)
    → all is_shared us ≡ true
    → has (perform_in_memory us db) m k ≡ meant_all us (has db) m k
has-perform_in_memory [] db m k h = refl
has-perform_in_memory (u ∷ us) db m k h =
    has-perform_in_memory us (Contents.perform u db).1 m k (ground arith)
    ∙ same_all us
        (λ n j. (perform-expected u db).1 n j ∙ expected-meant u (has db) n j (ground arith)) m k

module _ {D : Type 0} (db : Database D) (holds : D → Table) (runs : Runs db holds) where
  -- Over a PostgreSQL database that can be reached and runs the queries of the source as
  -- documented, on a table with the constraints of the migration: if it and the memory store hold
  -- the same texts, then after the same calls of `ClearSubnetList`, `AddCIDRToSubnetList` and
  -- `RemoveCIDRFromSubnetList`, none with an empty text and none that adds to a list that is not
  -- one of the two, `GetSubnetLists` of both stores succeeds and returns the same texts, up to
  -- their order and repetitions.
  pub stores_agree :
      (us : List Update) (d : D) (memory : SubnetListDb) (order : CidrSet → CidrSet) (l : ListType)
      → all is_shared us ≡ true
      → ((m : ListType) (k : Bytes) → holds d m k ≡ has memory m k)
      → Visits order
      → let d' = perform_all db us d in
        let memory' = perform_in_memory us memory in
        (xs ys : List Bytes) × (get_subnet_lists db l d' ≡ (ok xs, d'))
        × (Memory.get_subnet_lists order l memory' ≡ (ok ys, memory'))
        × ((k : Bytes) → mem k xs ≡ mem k ys)
  stores_agree us d memory order l shared same visits =
      let (xs, answered, in_table) = get_subnet_lists-perform_all db holds runs us d l in
      let (ys, found, in_memory) =
        get_subnet_lists-has order l (perform_in_memory us memory) visits in
      (
        xs,
        ys,
        answered,
        found,
        λ k.
            in_table k
            ∙ same_all us same l k
            ∙ sym (has-perform_in_memory us memory l k shared)
            ∙ sym (in_memory k),
      )
