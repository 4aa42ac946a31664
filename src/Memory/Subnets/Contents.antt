-- ===== src/Memory/Subnets/Contents.antt =====
-- subnetlistdb.go refines a set of texts for each list.
use otus_anti_bruteforce.Base.{
  Bool, true, false, not, ◌&&◌, ◌||◌, List, [], ◌∷◌, Option, none, some, ok, Exec, ◌≡◌, refl, ◌∙◌,
  any, if◌then◌else◌, Option-cases, inl, inr, arith, any-perm, sym,
}
use otus_anti_bruteforce.Base.Text.{Bytes, beq, beq_iff}
use otus_anti_bruteforce.Base.GoMap.{
  lookup, insert, delete, keys, lookup-insert, lookup-delete, Visits,
}
use otus_anti_bruteforce.Domain.{ListType}
use otus_anti_bruteforce.Memory.Subnets.Defs.{
  CidrSet, SubnetListDb, get_subnet_lists, fill, save_subnet_list, clear_subnet_list,
  add_cidr_to_subnet_list, remove_cidr_from_subnet_list,
}

-- Whether a text is among others.
abbrev pub mem : Bytes → List Bytes → Bool
mem k = any (λ j. beq j k)

abbrev is_some : {A : Type 0} → Option A → Bool
is_some none = false
is_some (some a) = true

abbrev texts_in : Option CidrSet → List Bytes
texts_in none = []
texts_in (some set) = keys set

abbrev holds : Option CidrSet → Bytes → Bool
holds none cidr = false
holds (some set) cidr = is_some (lookup cidr set)

-- What the store holds: whether a text stands in a list.
unfoldable pub has : SubnetListDb → ListType → Bytes → Bool
has db list_type cidr = holds (lookup list_type db.data_of) cidr

-- The calls that change the store.
pub data Update : Type 0 where
  save : ListType → List Bytes → Update
  clear : ListType → Update
  add remove : ListType → Bytes → Update

unfoldable pub perform : Update → Exec SubnetListDb (Unit {0})
perform (save l cidrs) = save_subnet_list l cidrs
perform (clear l) = clear_subnet_list l
perform (add l cidr) = add_cidr_to_subnet_list l cidr
perform (remove l cidr) = remove_cidr_from_subnet_list l cidr

abbrev pub Contents : Type 0
Contents = ListType → Bytes → Bool

-- What each call means for the sets.
unfoldable pub expected : Update → Contents → Contents
expected (save l cidrs) s m k = if beq l m then mem k cidrs else s m k
expected (clear l) s m k = if beq l m then false else s m k
expected (add l cidr) s m k = s m k || (beq l m && beq cidr k)
expected (remove l cidr) s m k = s m k && not (beq l m && beq cidr k)

lookup-fill :
    (cidrs : List Bytes) (set : CidrSet) (k : Bytes)
    → is_some (lookup k (fill cidrs set)) ≡ (mem k cidrs || is_some (lookup k set))
unfolding fill
lookup-fill [] set k = refl
lookup-fill (c ∷ cidrs) set k =
    ground (arith, lookup-fill cidrs (insert c tt set) k, lookup-insert c k tt set)

lookup-nil : (k : Bytes) → lookup {V = Unit {0}} k [] ≡ none
unfolding lookup
lookup-nil k = refl

module _ (db : SubnetListDb) (l m : ListType) (k : Bytes) where
  has-save :
      (cidrs : List Bytes)
      → has (save_subnet_list l cidrs db).1 m k ≡ expected (save l cidrs) (has db) m k
  unfolding has save_subnet_list expected lookup
  has-save cidrs =
      ground (arith, lookup-insert l m (fill cidrs []) db.data_of, lookup-fill cidrs [] k)

  has-clear : has (clear_subnet_list l db).1 m k ≡ expected (clear l) (has db) m k
  unfolding has clear_subnet_list expected
  has-clear = ground (arith, lookup-delete l m db.data_of)

  has-add :
      (cidr : Bytes)
      → has (add_cidr_to_subnet_list l cidr db).1 m k ≡ expected (add l cidr) (has db) m k
  unfolding has add_cidr_to_subnet_list expected
  has-add cidr = elim (Option-cases (lookup l db.data_of)) [
    | inl new ↦
        rw (new, add_cidr_to_subnet_list, lookup-insert l m (insert cidr tt []) db.data_of)
          (ground (arith, beq_iff l m, lookup-insert {0} cidr k tt [], lookup-nil k))
    | inr (set, found) ↦
        rw (found, add_cidr_to_subnet_list, lookup-insert l m (insert cidr tt set) db.data_of)
          (ground (arith, beq_iff l m, lookup-insert cidr k tt set))
  ]

  has-remove :
      (cidr : Bytes)
      → has (remove_cidr_from_subnet_list l cidr db).1 m k ≡ expected (remove l cidr) (has db) m k
  unfolding has remove_cidr_from_subnet_list expected
  has-remove cidr = elim (Option-cases (lookup l db.data_of)) [
    | inl new ↦ rw (new, remove_cidr_from_subnet_list) (ground (arith, beq_iff l m))
    | inr (set, found) ↦
        rw (found, remove_cidr_from_subnet_list, lookup-insert l m (delete cidr set) db.data_of)
          (ground (arith, beq_iff l m, lookup-delete cidr k set))
  ]

pub reply-add :
    (l : ListType) (cidr : Bytes) (db : SubnetListDb)
    → (add_cidr_to_subnet_list l cidr db).0 ≡ ok tt
unfolding add_cidr_to_subnet_list
reply-add l cidr db = ground arith

pub reply-remove :
    (l : ListType) (cidr : Bytes) (db : SubnetListDb)
    → (remove_cidr_from_subnet_list l cidr db).0 ≡ ok tt
unfolding remove_cidr_from_subnet_list
reply-remove l cidr db = ground arith

-- Every call that changes the memory store of the lists succeeds, and changes the sets of texts as
-- it should: `SaveSubnetList` replaces one list, `ClearSubnetList` empties one,
-- `AddCIDRToSubnetList` and `RemoveCIDRFromSubnetList` change one text of one list, and nothing
-- else changes.
pub perform-expected :
    (u : Update) (db : SubnetListDb)
    → ((perform u db).0 ≡ ok tt)
      × ((m : ListType) (k : Bytes) → has (perform u db).1 m k ≡ expected u (has db) m k)
unfolding perform
perform-expected (save l cidrs) db =
    (unfold save_subnet_list in refl, λ m k. has-save db l m k cidrs)
perform-expected (clear l) db = (unfold clear_subnet_list in refl, λ m k. has-clear db l m k)
perform-expected (add l cidr) db = (reply-add l cidr db, λ m k. has-add db l m k cidr)
perform-expected (remove l cidr) db = (reply-remove l cidr db, λ m k. has-remove db l m k cidr)

mem-keys : (k : Bytes) (set : CidrSet) → mem k (keys set) ≡ is_some (lookup k set)
unfolding lookup
mem-keys k [] = refl
mem-keys k ((j, v) ∷ set) = ground (arith, mem-keys k set)

any-keys : (p : Bytes → Bool) (set : CidrSet) → any p (keys set) ≡ any (λ e. p e.0) set
any-keys p [] = refl
any-keys p ((j, v) ∷ set) = ground (arith, any-keys p set)

-- A search of the texts that `GetSubnetLists` returns does not depend on the order of its loop.
pub any-get_subnet_lists_order :
    (p : Bytes → Bool) (order : CidrSet → CidrSet) (set : CidrSet)
    → Visits order
    → any p (keys (order set)) ≡ any p (keys set)
any-get_subnet_lists_order p order set v =
    any-keys p (order set) ∙ any-perm (λ e. p e.0) (v set) ∙ sym (any-keys p set)

-- The texts of a list, in the order of its map.
unfoldable pub texts : SubnetListDb → ListType → List Bytes
texts db l = texts_in (lookup l db.data_of)

pub mem-texts : (db : SubnetListDb) (l : ListType) (k : Bytes) → mem k (texts db l) ≡ has db l k
unfolding texts has
mem-texts db l k = elim (Option-cases (lookup l db.data_of)) [
  | inl absent ↦ rw absent
  | inr (set, found) ↦ rw found (mem-keys k set)
]

-- `GetSubnetLists` returns these texts in the order of its loop, and a search of them does not
-- depend on that order.
pub get_subnet_lists-texts :
    (order : CidrSet → CidrSet) (l : ListType) (db : SubnetListDb)
    → Visits order
    → (cidrs : List Bytes) × (get_subnet_lists order l db ≡ (ok cidrs, db))
      × ((p : Bytes → Bool) → any p cidrs ≡ any p (texts db l))
unfolding get_subnet_lists texts
get_subnet_lists-texts order l db v = elim (Option-cases (lookup l db.data_of)) [
  | inl absent ↦ ([], rw (absent, get_subnet_lists), λ p. rw absent)
  | inr (set, found) ↦ (
    keys (order set),
    rw (found, get_subnet_lists),
    λ p. rw found (any-get_subnet_lists_order p order set v),
  )
]

-- `GetSubnetLists` succeeds, changes nothing and returns just the texts that the store holds for
-- the list, whatever the order of its loop.
pub get_subnet_lists-has :
    (order : CidrSet → CidrSet) (l : ListType) (db : SubnetListDb)
    → Visits order
    → (cidrs : List Bytes) × (get_subnet_lists order l db ≡ (ok cidrs, db))
      × ((k : Bytes) → mem k cidrs ≡ has db l k)
get_subnet_lists-has order l db v =
    let (cidrs, got, same) = get_subnet_lists-texts order l db v in
    (cidrs, got, λ k. same (λ j. beq j k) ∙ mem-texts db l k)
