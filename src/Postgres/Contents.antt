-- ===== src/Postgres/Contents.antt =====
-- What the PostgreSQL store holds after any calls.
use otus_anti_bruteforce.Base.{
  Bool, true, false, not, ◌&&◌, ◌||◌, List, [], ◌∷◌, Option, none, some, ok, Exec, ◌≡◌, refl, sym,
  ap, ◌∙◌, is_ok, any, map, Bool-cases, inl, inr, arith,
}
use otus_anti_bruteforce.Base.Text.{Bytes, beq, beq_iff, beq_refl}
use otus_anti_bruteforce.Domain.{ListType}
use otus_anti_bruteforce.Postgres.Sql.{
  cidr_column, list_type_column, colon, tagged, first_arg, Table, is_list_type, new_rows, is_row,
  added, dollar_1, Selected, SubnetRow, Database, Runs, is_some, or_kept, run,
}
use otus_anti_bruteforce.Postgres.{
  rows_of, insert_rows, delete_list, delete_row, get_subnet_lists, save_subnet_list,
  clear_subnet_list, add_cidr_to_subnet_list, remove_cidr_from_subnet_list,
}
use otus_anti_bruteforce.Memory.Subnets.Contents.{mem, Update, save, clear, add, remove}

unfoldable pub perform : {D : Type 0} → Database D → Update → Exec D (Unit {0})
perform db (save l cidrs) = save_subnet_list db l cidrs
perform db (clear l) = clear_subnet_list db l
perform db (add l cidr) = add_cidr_to_subnet_list db l cidr
perform db (remove l cidr) = remove_cidr_from_subnet_list db l cidr

-- The states after some calls, whatever their replies.
abbrev pub perform_all : {D : Type 0} → Database D → List Update → D → D
perform_all db [] d = d
perform_all db (u ∷ us) d = perform_all db us (perform db u d).1

-- Which calls succeed.
unfoldable pub is_accepted : Update → Bool
is_accepted (save l []) = true
is_accepted (save l (cidr ∷ cidrs)) = is_list_type l
is_accepted (clear l) = true
is_accepted (add l cidr) = not (beq cidr []) && is_list_type l
is_accepted (remove l cidr) = not (beq cidr [])

-- What a call that succeeds means for the sets.
unfoldable pub meant : Update → Table → Table
meant (save l cidrs) t m k = t m k || (beq l m && mem k cidrs)
meant (clear l) t m k = t m k && not (beq l m)
meant (add l cidr) t m k = t m k || (beq l m && beq cidr k)
meant (remove l cidr) t m k = t m k && not (beq l m && beq cidr k)

abbrev pub meant_if : Bool → Update → Table → Table
meant_if true u t = meant u t
meant_if false u t = t

abbrev pub meant_all : List Update → Table → Table
meant_all [] t = t
meant_all (u ∷ us) t = meant_all us (meant_if (is_accepted u) u t)

same_if :
    (b : Bool) (u : Update) {s t : Table}
    → ((m : ListType) (k : Bytes) → s m k ≡ t m k)
    → (m : ListType) (k : Bytes) → meant_if b u s m k ≡ meant_if b u t m k
unfolding meant
same_if false u h m k = h m k
same_if true (save l cidrs) h m k = rw (h m k) refl
same_if true (clear l) h m k = rw (h m k) refl
same_if true (add l cidr) h m k = rw (h m k) refl
same_if true (remove l cidr) h m k = rw (h m k) refl

pub same_all :
    (us : List Update) {s t : Table}
    → ((m : ListType) (k : Bytes) → s m k ≡ t m k)
    → (m : ListType) (k : Bytes) → meant_all us s m k ≡ meant_all us t m k
same_all [] h = h
same_all (u ∷ us) h = same_all us (same_if (is_accepted u) u h)

any-rows_of :
    (l m : ListType) (k : Bytes) (cidrs : List Bytes)
    → any (is_row m k) (rows_of l cidrs) ≡ (beq l m && mem k cidrs)
any-rows_of l m k [] = ground arith
any-rows_of l m k (c ∷ cidrs) = ground (arith, any-rows_of l m k cidrs)

abbrev inserted_rows : ListType → List Bytes → Option (List SubnetRow)
inserted_rows l cidrs =
    new_rows (cidr_column ∷ list_type_column ∷ []) (colon cidr_column ∷ colon list_type_column ∷ [])
      (map tagged (rows_of l cidrs))

new_rows-rows_of :
    (l : ListType) (cidrs : List Bytes)
    → is_list_type l ≡ true
    → inserted_rows l cidrs ≡ some (rows_of l cidrs)
unfolding new_rows
new_rows-rows_of l [] h = refl
new_rows-rows_of l (c ∷ cidrs) h = rw (h, new_rows-rows_of l cidrs h) refl

new_rows-none :
    (l : ListType) (c : Bytes) (cidrs : List Bytes)
    → is_list_type l ≡ false
    → inserted_rows l (c ∷ cidrs) ≡ none
unfolding new_rows
new_rows-none l c cidrs h = rw h refl

run-insert :
    (l : ListType) (cidrs : List Bytes) (t : Table)
    → is_list_type l ≡ true
    → run insert_rows (map tagged (rows_of l cidrs)) t ≡ some (added (rows_of l cidrs) t)
run-insert l cidrs t h = rw (new_rows-rows_of l cidrs h) refl

run-insert-none :
    (l : ListType) (c : Bytes) (cidrs : List Bytes) (t : Table)
    → is_list_type l ≡ false
    → run insert_rows (map tagged (rows_of l (c ∷ cidrs))) t ≡ none
run-insert-none l c cidrs t h = rw (new_rows-none l c cidrs h) refl

module _ {D : Type 0} (db : Database D) (holds : D → Table) (runs : Runs db holds) where
  abbrev Performed : Update → D → Type 0
  Performed u d =
      (is_ok (perform db u d).0 ≡ is_accepted u)
      × ((m : ListType) (k : Bytes)
          → holds (perform db u d).1 m k ≡ meant_if (is_accepted u) u (holds d) m k)

  perform-insert :
      (l : ListType) (c : Bytes) (cidrs : List Bytes) (d : D)
      → let rows = map tagged (rows_of l (c ∷ cidrs)) in
        (is_ok (db.named_exec_context insert_rows rows d).0 ≡ is_list_type l)
        × ((m : ListType) (k : Bytes)
            → holds (db.named_exec_context insert_rows rows d).1 m k
              ≡ meant_if (is_list_type l) (save l (c ∷ cidrs)) (holds d) m k)
  unfolding meant
  perform-insert l c cidrs d = elim (Bool-cases (is_list_type l)) [
    | inl valid ↦ (
      runs.named_reply insert_rows _ _ d
          ∙ ap is_some (run-insert l (c ∷ cidrs) (holds d) valid)
          ∙ sym valid,
      λ m k.
          runs.named_holds insert_rows _ _ d m k
          ∙ ap (λ t. or_kept (holds d) t m k) (run-insert l (c ∷ cidrs) (holds d) valid)
          ∙ rw valid (ap (λ x. holds d m k || x) (any-rows_of l m k (c ∷ cidrs))),
    )
    | inr invalid ↦ (
      runs.named_reply insert_rows _ _ d
          ∙ ap is_some (run-insert-none l c cidrs (holds d) invalid)
          ∙ sym invalid,
      λ m k.
          runs.named_holds insert_rows _ _ d m k
          ∙ ap (λ t. or_kept (holds d) t m k) (run-insert-none l c cidrs (holds d) invalid)
          ∙ rw invalid refl,
    )
  ]

  perform-add : (l : ListType) (cidr : Bytes) (d : D) → Performed (add l cidr) d
  unfolding perform is_accepted meant add_cidr_to_subnet_list
  perform-add l cidr d = elim (Bool-cases (beq cidr [])) [
    | inl empty ↦ rw (empty, add_cidr_to_subnet_list) (refl, λ m k. refl)
    | inr text ↦
        let (replied, changed) = perform-insert l cidr [] d in
        rw (text, add_cidr_to_subnet_list)
          (replied, λ m k. changed m k ∙ ground (arith, Bool-cases (is_list_type l)))
  ]

  perform-remove : (l : ListType) (cidr : Bytes) (d : D) → Performed (remove l cidr) d
  unfolding perform is_accepted meant remove_cidr_from_subnet_list
  perform-remove l cidr d = elim (Bool-cases (beq cidr [])) [
    | inl empty ↦ rw (empty, remove_cidr_from_subnet_list) (refl, λ m k. refl)
    | inr text ↦
        rw (text, remove_cidr_from_subnet_list)
          (
            runs.named_reply delete_row _ [] d,
            λ m k. runs.named_holds delete_row _ [] d m k ∙ ground arith,
          )
  ]

  -- Over a PostgreSQL database that can be reached and runs the queries of the source as
  -- documented, on a table with the constraints of the migration: `ClearSubnetList` always
  -- succeeds, `AddCIDRToSubnetList` just if the text is not empty and the list is one of the two,
  -- `RemoveCIDRFromSubnetList` just if the text is not empty, and `SaveSubnetList` just if it gets
  -- no text or the list is one of the two; a call that succeeds empties its list, adds the text to
  -- its list, takes it off its list, or adds the texts to its list, where a text that is there
  -- already is no error; nothing else changes, and nothing at all if the call fails.
  pub perform-meant :
      (u : Update) (d : D)
      → (is_ok (perform db u d).0 ≡ is_accepted u)
        × ((m : ListType) (k : Bytes)
            → holds (perform db u d).1 m k ≡ meant_if (is_accepted u) u (holds d) m k)
  unfolding perform is_accepted meant save_subnet_list clear_subnet_list
  perform-meant (save l []) d = (refl, λ m k. ground arith)
  perform-meant (save l (c ∷ cidrs)) d = perform-insert l c cidrs d
  perform-meant (clear l) d = (
    runs.exec_reply delete_list (first_arg l) d,
    λ m k. runs.exec_holds delete_list (first_arg l) d m k ∙ ground arith,
  )
  perform-meant (add l cidr) d = perform-add l cidr d
  perform-meant (remove l cidr) d = perform-remove l cidr d

  holds-perform_all :
      (us : List Update) (d : D) (m : ListType) (k : Bytes)
      → holds (perform_all db us d) m k ≡ meant_all us (holds d) m k
  holds-perform_all [] d m k = refl
  holds-perform_all (u ∷ us) d m k =
      holds-perform_all us (perform db u d).1 m k ∙ same_all us (perform-meant u d).1 m k

  mem-Selected :
      (l : ListType) (t : Table) (texts : List Bytes) (k : Bytes)
      → Selected cidr_column ((list_type_column, dollar_1) ∷ []) (first_arg l) t texts
      → mem k texts ≡ t l k
  mem-Selected l t texts k sel = elim (Bool-cases (mem k texts)) [
    | inl found ↦
        let (l', k', held, met, same) = sel.sound k found in
        let at : l' ≡ l = sym ((beq_iff l l').0 (ground arith)) in
        found ∙ sym (ap (λ j. t j k) (sym at) ∙ ap (t l') (sym same) ∙ held)
    | inr missing ↦ elim (Bool-cases (t l k)) [
      | inl held ↦ cc (sel.complete l k held (rw (beq_refl l) refl))
      | inr absent ↦ missing ∙ sym absent
    ]
  ]

  -- Over a PostgreSQL database that can be reached and runs the queries of the source as
  -- documented, on a table with the constraints of the migration: after any calls that change the
  -- lists, whether they succeed or fail, `GetSubnetLists` succeeds, changes nothing and returns
  -- just the texts that the list should hold after those of the calls that succeed.
  pub get_subnet_lists-perform_all :
      (us : List Update) (d : D) (l : ListType)
      → (cidrs : List Bytes) × (get_subnet_lists db l (perform_all db us d)
          ≡ (ok cidrs, perform_all db us d))
        × ((k : Bytes) → mem k cidrs ≡ meant_all us (holds d) l k)
  unfolding get_subnet_lists
  get_subnet_lists-perform_all us d l =
      let d' = perform_all db us d in
      let (texts, replied, sel) =
        runs.select_texts cidr_column ((list_type_column, dollar_1) ∷ []) (first_arg l) d' in
      (texts, replied, λ k. mem-Selected l (holds d') texts k sel ∙ holds-perform_all us d l k)
