-- ===== src/Subnet/List/Loading.antt =====
-- `Load` of subnetlist.go: what a list holds after it has been read from a repository.
use otus_anti_bruteforce.Base.{
  true, ◌||◌, List, [], ◌∷◌, none, ok, err, Error, ◌≡◌, refl, ◌∙◌, any, all, is_ok, ap,
  Option-cases, inl, inr, arith, if◌then◌else◌,
}
use otus_anti_bruteforce.Base.Text.{Bytes}
use otus_anti_bruteforce.Base.GoMap.{GoMap, Visits}
use otus_anti_bruteforce.Net.{NetPackage}
use otus_anti_bruteforce.Ports.{SubnetRepo}
use otus_anti_bruteforce.Subnet.List.Defs.{
  SubnetList, add, clear, contains, add_all, load_texts, load,
}
use otus_anti_bruteforce.Subnet.List.Coverage.{
  network, covers, is_network, IsParsed, add-network, add_other, add-IsParsed, contains-add,
  contains_cleared, rejection,
}

module _ (net : NetPackage) where
  open net use {Ip, IpNet}

  -- The loop adds the texts up to the first that is no network, where it stops with an error.
  abbrev pub loaded : List Bytes → List Bytes
  loaded [] = []
  loaded (cidr ∷ cidrs) = if is_network net cidr then cidr ∷ loaded cidrs else []

  pub add_all-IsParsed :
      (cidrs : List Bytes) (nl : SubnetList IpNet)
      → IsParsed net nl
      → IsParsed net (add_all net cidrs nl).1
  unfolding add_all
  add_all-IsParsed [] nl p = p
  add_all-IsParsed (cidr ∷ cidrs) nl p = elim (Option-cases (network net cidr)) [
    | inl bad ↦ rw (add_other net cidr nl bad) p
    | inr (ipnet, good) ↦ rw (add-network net cidr ipnet nl good) (
        add_all-IsParsed cidrs _
          (rw (add-network net cidr ipnet nl good) at (add-IsParsed net cidr nl p)))
  ]

  list_type-add :
      (cidr : Bytes) (nl : SubnetList IpNet) → (add net cidr nl).1.list_type ≡ nl.list_type
  list_type-add cidr nl = elim (Option-cases (network net cidr)) [
    | inl bad ↦ rw (add_other net cidr nl bad)
    | inr (ipnet, good) ↦ rw (add-network net cidr ipnet nl good)
  ]

  pub add_all-cons :
      (cidr : Bytes) (cidrs : List Bytes) (nl : SubnetList IpNet)
      → is_network net cidr ≡ true
      → add_all net (cidr ∷ cidrs) nl ≡ add_all net cidrs (add net cidr nl).1
  unfolding add_all
  add_all-cons cidr cidrs nl good = elim (Option-cases (network net cidr)) [
    | inl bad ↦ ground arith
    | inr (ipnet, found) ↦ rw (add-network net cidr ipnet nl found)
  ]

  pub add_all-stop :
      (cidr : Bytes) (cidrs : List Bytes) (nl : SubnetList IpNet)
      → network net cidr ≡ none
      → add_all net (cidr ∷ cidrs) nl ≡ (err (rejection net cidr), nl)
  unfolding add_all
  add_all-stop cidr cidrs nl bad = rw (add_other net cidr nl bad)

  list_type-add_all :
      (cidrs : List Bytes) (nl : SubnetList IpNet)
      → (add_all net cidrs nl).1.list_type ≡ nl.list_type
  list_type-add_all [] nl = unfold add_all in refl
  list_type-add_all (cidr ∷ cidrs) nl = elim (Option-cases (network net cidr)) [
    | inl bad ↦ rw (add_all-stop cidr cidrs nl bad)
    | inr (ipnet, good) ↦
        rw (add_all-cons cidr cidrs nl (ground arith))
          (list_type-add_all cidrs (add net cidr nl).1 ∙ list_type-add cidr nl)
  ]

  pub is_ok-add_all :
      (cidrs : List Bytes) (nl : SubnetList IpNet)
      → is_ok (add_all net cidrs nl).0 ≡ all (is_network net) cidrs
  is_ok-add_all [] nl = unfold add_all in refl
  is_ok-add_all (cidr ∷ cidrs) nl = elim (Option-cases (network net cidr)) [
    | inl bad ↦ rw (add_all-stop cidr cidrs nl bad) (ground arith)
    | inr (ipnet, good) ↦
        rw (add_all-cons cidr cidrs nl (ground arith))
          (ground (arith, is_ok-add_all cidrs (add net cidr nl).1))
  ]

  pub contains-add_all :
      (order : GoMap IpNet → GoMap IpNet) (ip : Ip) (cidrs : List Bytes) (nl : SubnetList IpNet)
      → Visits order
      → IsParsed net nl
      → contains net order ip (add_all net cidrs nl).1
        ≡ (any (covers net ip) (loaded cidrs) || contains net order ip nl)
  contains-add_all order ip [] nl v p = unfold add_all in refl
  contains-add_all order ip (cidr ∷ cidrs) nl v p = elim (Option-cases (network net cidr)) [
    | inl bad ↦ rw (add_all-stop cidr cidrs nl bad) (ground arith)
    | inr (ipnet, good) ↦ rw (add_all-cons cidr cidrs nl (ground arith)) (
        ground (
          arith,
          contains-add_all order ip cidrs (add net cidr nl).1 v (add-IsParsed net cidr nl p),
          (contains-add net order v nl p cidr ip).1,
        ))
  ]

  pub loaded-all : (cidrs : List Bytes) → all (is_network net) cidrs ≡ true → loaded cidrs ≡ cidrs
  loaded-all [] h = refl
  loaded-all (cidr ∷ cidrs) h = ground (arith, loaded-all cidrs)

  module _ {R : Type 0} (repo : SubnetRepo R) (r r' : R) (nl : SubnetList IpNet) where
    -- A repository that fails leaves the list as it was.
    pub load_failed :
        (e : Error)
        → repo.get_subnet_lists nl.list_type r ≡ (err e, r')
        → load net repo (nl, r) ≡ (err e, (nl, r'))
    unfolding load
    load_failed e h = ap (load_texts net nl) h

    load_fetched :
        (cidrs : List Bytes)
        → repo.get_subnet_lists nl.list_type r ≡ (ok cidrs, r')
        → load net repo (nl, r)
          ≡ ((add_all net cidrs (clear nl)).0, ((add_all net cidrs (clear nl)).1, r'))
    unfolding load
    load_fetched cidrs h = ap (load_texts net nl) h

    module _ (cidrs : List Bytes)
        (fetched : repo.get_subnet_lists nl.list_type r ≡ (ok cidrs, r')) where
      -- When the repository answers, `Load` succeeds just if every text it returned is a network.
      pub is_ok-load : is_ok (load net repo (nl, r)).0 ≡ all (is_network net) cidrs
      is_ok-load = rw (load_fetched cidrs fetched) (is_ok-add_all cidrs (clear nl))

      pub load-IsParsed : IsParsed net (load net repo (nl, r)).1.0
      load-IsParsed =
          rw (load_fetched cidrs fetched) (add_all-IsParsed cidrs (clear nl) (unfold clear in tt))

      -- When the repository answers, `Load` forgets what the list held and takes the texts before
      -- the first that is no network: an address is contained just if one of them covers it.
      pub contains-load :
          (order : GoMap IpNet → GoMap IpNet) (ip : Ip)
          → Visits order
          → contains net order ip (load net repo (nl, r)).1.0 ≡ any (covers net ip) (loaded cidrs)
      contains-load order ip v = rw (load_fetched cidrs fetched) (
          contains-add_all order ip cidrs (clear nl) v (unfold clear in tt)
          ∙ ground (arith, contains_cleared net order ip nl v))

      pub repo-load : (load net repo (nl, r)).1.1 ≡ r'
      repo-load = rw (load_fetched cidrs fetched)

      pub list_type-load : (load net repo (nl, r)).1.0.list_type ≡ nl.list_type
      list_type-load =
          rw (load_fetched cidrs fetched)
            (list_type-add_all cidrs (clear nl) ∙ (unfold clear in refl))
