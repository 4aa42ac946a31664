-- ===== src/Tests/Rows.antt =====
-- The theorems on the PostgreSQL store over a table that is a list of rows.
use otus_anti_bruteforce.Base.{
  Bool, true, not, ◌&&◌, List, [], ◌∷◌, ◌++◌, Option, none, some, Result, ok, err, new, ◌≡◌, refl,
  ◌∙◌, is_ok, any, any-append, if◌then◌else◌, Bool-cases, inl, inr, arith,
}
use otus_anti_bruteforce.Base.Text.{Bytes, codes, beq, beq_iff, beq_refl}
use otus_anti_bruteforce.Domain.{ListType, whitelist, blacklist}
use otus_anti_bruteforce.Memory.Subnets.Contents.{mem, has, Update, add, remove, save}
use otus_anti_bruteforce.Postgres.{select_cidrs, get_subnet_lists}
use otus_anti_bruteforce.Postgres.Sql.{
  Column, Condition, Query, select_from, insert_into, delete_from, SubnetRow, Args, first_arg,
  Table, value_in, meets, new_rows, is_list_type, is_row, is_insertable, inserted, is_some, or_kept,
  run, Database, Runs,
}
use otus_anti_bruteforce.Postgres.Contents.{
  perform, perform_all, is_accepted, meant_if, meant_all, perform-meant,
  get_subnet_lists-perform_all,
}
use otus_anti_bruteforce.Postgres.Agreement.{perform_in_memory, stores_agree}
use otus_anti_bruteforce.Memory.Subnets.Defs.{new_subnet_list_db}
use otus_anti_bruteforce.Memory.Subnets.Defs as Memory
use otus_anti_bruteforce.Base.GoMap.{lookup}
use otus_anti_bruteforce.Tests.Fixtures.{office, home, as_they_stand, stand_visits}

abbrev stands : List SubnetRow → Table
stands rows l k = any (is_row l k) rows

abbrev met_by : List Condition → SubnetRow → Args → Bool
met_by conditions r args = meets conditions args r.list_type r.cidr

abbrev kept : List Condition → List Args → List SubnetRow → List SubnetRow
kept conditions more [] = []
kept conditions more (r ∷ rows) =
    let rest = kept conditions more rows in
    if any (met_by conditions r) more then rest else r ∷ rest

abbrev selected : Column → List Condition → Args → List SubnetRow → List Bytes
selected column conditions args [] = []
selected column conditions args (r ∷ rows) =
    let rest = selected column conditions args rows in
    if met_by conditions r args then value_in column r.list_type r.cidr ∷ rest else rest

abbrev extended :
    Option (List Column) → Option (List SubnetRow) → List SubnetRow → Option (List SubnetRow)
extended conflict none rows = none
extended conflict (some fresh) rows =
    if is_insertable conflict fresh (stands rows) then some (fresh ++ rows) else none

abbrev executed : Query → List Args → List SubnetRow → Option (List SubnetRow)
executed (select_from column conditions) more rows = some rows
executed (insert_into columns params conflict) more rows =
    extended conflict (new_rows columns params more) rows
executed (delete_from conditions) more rows = some (kept conditions more rows)

abbrev replied : Option (List SubnetRow) → List SubnetRow → Result (Unit {0}) × List SubnetRow
replied none rows = (err (new (codes "constraint")), rows)
replied (some rows') rows = (ok tt, rows')

abbrev chosen : Query → Args → List SubnetRow → List Bytes
chosen (select_from column conditions) args rows = selected column conditions args rows
chosen _ args rows = []

abbrev pub table : Database (List SubnetRow)
table = record {
  select_context = λ q args rows. (ok (chosen q args rows), rows);
  exec_context = λ q args rows. replied (executed q (args ∷ []) rows) rows;
  named_exec_context = λ q more rows. replied (executed q more rows) rows;
}

-- what `GetSubnetLists` returns
abbrev pub listed : ListType → List SubnetRow → List Bytes
listed l rows = chosen select_cidrs (first_arg l) rows

stands-kept :
    (conditions : List Condition) (more : List Args) (rows : List SubnetRow) (l : ListType)
    (k : Bytes)
    → stands (kept conditions more rows) l k
      ≡ (stands rows l k && not (any (λ (args : Args). meets conditions args l k) more))
stands-kept conditions more [] l k = refl
stands-kept conditions more (r ∷ rows) l k = elim (Bool-cases (is_row l k r)) [
  | inl this ↦
      let at : r.list_type ≡ l = (beq_iff r.list_type l).0 (ground arith) in
      let is : r.cidr ≡ k = (beq_iff r.cidr k).0 (ground arith) in
      let same : any (met_by conditions r) more
          ≡ any (λ (args : Args). meets conditions args l k) more =
        λ i. any (λ (args : Args). meets conditions args (at i) (is i)) more in
      ground (arith, stands-kept conditions more rows l k)
  | inr other ↦ ground (arith, stands-kept conditions more rows l k)
]

-- The reply to a query, and the rows after it.
abbrev Replies : Option (List SubnetRow) → Option Table → List SubnetRow → Type 0
Replies after t rows =
    (is_ok (replied after rows).0 ≡ is_some t)
    × ((l : ListType) (k : Bytes) → stands (replied after rows).1 l k ≡ or_kept (stands rows) t l k)

extended-Replies :
    (conflict : Option (List Column)) (fresh : Option (List SubnetRow)) (rows : List SubnetRow)
    → Replies (extended conflict fresh rows) (inserted conflict fresh (stands rows)) rows
extended-Replies conflict none rows = (refl, λ l k. refl)
extended-Replies conflict (some fresh) rows =
    elim (Bool-cases (is_insertable conflict fresh (stands rows))) [
      | inl fits ↦ rw fits (refl, λ l k. any-append (is_row l k) fresh rows ∙ ground arith)
      | inr clashes ↦ rw clashes (refl, λ l k. refl)
    ]

executed-Replies :
    (q : Query) (more : List Args) (rows : List SubnetRow)
    → Replies (executed q more rows) (run q more (stands rows)) rows
executed-Replies (select_from column conditions) more rows = (refl, λ l k. refl)
executed-Replies (insert_into columns params conflict) more rows =
    extended-Replies conflict (new_rows columns params more) rows
executed-Replies (delete_from conditions) more rows =
    (refl, λ l k. stands-kept conditions more rows l k)

module _ (column : Column) (conditions : List Condition) (args : Args) where
  sound :
      (rows : List SubnetRow) (v : Bytes)
      → any (λ j. beq j v) (selected column conditions args rows) ≡ true
      → (l : ListType) × (k : Bytes) × (stands rows l k ≡ true)
        × (meets conditions args l k ≡ true)
        × (value_in column l k ≡ v)
  sound [] v h = cc
  sound (r ∷ rows) v h = elim (Bool-cases (met_by conditions r args)) [
    | inl met ↦ elim (Bool-cases (beq (value_in column r.list_type r.cidr) v)) [
      | inl this ↦ (
        r.list_type,
        r.cidr,
        rw (beq_refl r.list_type, beq_refl r.cidr) refl,
        met,
        (beq_iff _ v).0 this,
      )
      | inr other ↦
          let (l, k, held, met, same) = sound rows v (ground arith) in
          (l, k, ground arith, met, same)
    ]
    | inr unmet ↦
        let (l, k, held, met, same) = sound rows v (ground arith) in (l, k, ground arith, met, same)
  ]

  complete :
      (rows : List SubnetRow) (l : ListType) (k : Bytes)
      → stands rows l k ≡ true
      → meets conditions args l k ≡ true
      → any (λ j. beq j (value_in column l k)) (selected column conditions args rows) ≡ true
  complete [] l k held met = cc
  complete (r ∷ rows) l k held met = elim (Bool-cases (is_row l k r)) [
    | inl this ↦
        let at : r.list_type ≡ l = (beq_iff r.list_type l).0 (ground arith) in
        let is : r.cidr ≡ k = (beq_iff r.cidr k).0 (ground arith) in
        let met' : met_by conditions r args ≡ true =
          (λ i. meets conditions args (at i) (is i)) ∙ met in
        let same : beq (value_in column r.list_type r.cidr) (value_in column l k) ≡ true =
          (beq_iff _ _).1 (λ i. value_in column (at i) (is i)) in
        rw met' (rw same refl)
    | inr other ↦ ground (arith, complete rows l k (ground arith) met)
  ]

table-Runs : Runs table stands
table-Runs = record {
  named_reply = λ q args more d. (executed-Replies q (args ∷ more) d).0;
  named_holds = λ q args more d. (executed-Replies q (args ∷ more) d).1;
  exec_reply = λ q args d. (executed-Replies q (args ∷ []) d).0;
  exec_holds = λ q args d. (executed-Replies q (args ∷ []) d).1;
  select_texts = λ column conditions args d. (
    selected column conditions args d,
    refl,
    record { sound = sound column conditions args d; complete = complete column conditions args d },
  );
}

abbrev start_rows : List SubnetRow
start_rows = record { cidr = home; list_type = blacklist } ∷ []

perform-meant_example :
    let u = add whitelist office in
    (is_ok (perform table u start_rows).0 ≡ is_accepted u)
    × ((m : ListType) (k : Bytes)
        → stands (perform table u start_rows).1 m k
          ≡ meant_if (is_accepted u) u (stands start_rows) m k)
perform-meant_example = perform-meant table stands table-Runs (add whitelist office) start_rows

-- Two networks are saved, one of them is removed, and an empty text is refused.
abbrev calls : List Update
calls = save blacklist (office ∷ home ∷ []) ∷ remove blacklist home ∷ add blacklist [] ∷ []

get_subnet_lists-perform_all_example :
    (cidrs : List Bytes) × (get_subnet_lists table blacklist (perform_all table calls start_rows)
      ≡ (ok cidrs, perform_all table calls start_rows))
    × ((k : Bytes) → mem k cidrs ≡ meant_all calls (stands start_rows) blacklist k)
get_subnet_lists-perform_all_example =
    get_subnet_lists-perform_all table stands table-Runs calls start_rows blacklist

-- Both stores begin empty.
abbrev shared_calls : List Update
shared_calls =
    add blacklist office ∷ add blacklist home ∷ add blacklist home ∷ remove blacklist office ∷ []

none_held : (m : ListType) (k : Bytes) → stands [] m k ≡ has new_subnet_list_db m k
unfolding has lookup
none_held m k = refl

stores_agree_example :
    let rows = perform_all table shared_calls [] in
    let memory = perform_in_memory shared_calls new_subnet_list_db in
    (xs ys : List Bytes) × (get_subnet_lists table blacklist rows ≡ (ok xs, rows))
    × (Memory.get_subnet_lists as_they_stand blacklist memory ≡ (ok ys, memory))
    × ((k : Bytes) → mem k xs ≡ mem k ys)
unfolding beq is_list_type
stores_agree_example =
    stores_agree table stands table-Runs shared_calls [] new_subnet_list_db as_they_stand blacklist
      refl none_held stand_visits
