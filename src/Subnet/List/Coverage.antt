-- ===== src/Subnet/List/Coverage.antt =====
-- subnetlist.go against the set of its CIDR texts: which addresses a list contains.
use otus_anti_bruteforce.Base.{
  Bool, true, false, not, ◌&&◌, ◌||◌, [], ◌∷◌, Option, none, some, ok, err, Error, ◌≡◌, refl, ◌∙◌,
  All, any, any-perm, if◌then◌else◌, arith, is_ok, Option-cases, inl, inr, join,
}
use otus_anti_bruteforce.Base.Text.{Bytes, beq, beq_iff}
use otus_anti_bruteforce.Base.GoMap.{GoMap, insert, delete, keys, Visits}
use otus_anti_bruteforce.Net.{NetPackage}
use otus_anti_bruteforce.Subnet.List.Defs.{
  SubnetList, err_invalid_cidr, add, remove, clear, contains,
}

module _ (net : NetPackage) where
  open net use {Ip, IpNet, parse_cidr, ip_equal, ip_of}

  -- The network of a text that is one: it parses, and its address is the network's own.
  unfoldable pub network : Bytes → Option IpNet
  network cidr = elim (parse_cidr cidr) [
    | err e ↦ none
    | ok (ip, ipnet) ↦ if ip_equal ip (ip_of ipnet) then some ipnet else none
  ]

  abbrev pub covers : Ip → Bytes → Bool
  covers ip cidr = elim (network cidr) [ none ↦ false | some ipnet ↦ net.contains ipnet ip ]

  abbrev pub is_network : Bytes → Bool
  is_network cidr = elim (network cidr) [ none ↦ false | some ipnet ↦ true ]

  -- Every entry of a list was parsed from its own key.
  abbrev pub IsParsed : SubnetList IpNet → Type 0
  IsParsed nl = All (λ e. network e.0 ≡ some e.1) nl.nets

  abbrev EntriesParsed : GoMap IpNet → Type 0
  EntriesParsed = All (λ e. network e.0 ≡ some e.1)

  pub add-network :
      (cidr : Bytes) (ipnet : IpNet) (nl : SubnetList IpNet)
      → network cidr ≡ some ipnet
      → add net cidr nl ≡ (ok tt, record nl { nets = insert cidr ipnet nl.nets })
  unfolding add network
  add-network cidr ipnet nl h = ground arith

  -- The error for a text that is no network.
  abbrev pub rejection : Bytes → Error
  rejection cidr = elim (parse_cidr cidr) [
    | err e ↦ join err_invalid_cidr e
    | ok _ ↦ err_invalid_cidr
  ]

  pub add_other :
      (cidr : Bytes) (nl : SubnetList IpNet)
      → network cidr ≡ none
      → add net cidr nl ≡ (err (rejection cidr), nl)
  unfolding add network
  add_other cidr nl h = ground arith

  insert-EntriesParsed :
      (cidr : Bytes) (ipnet : IpNet) (m : GoMap IpNet)
      → network cidr ≡ some ipnet
      → EntriesParsed m
      → EntriesParsed (insert cidr ipnet m)
  unfolding insert
  insert-EntriesParsed cidr ipnet [] h p = (h, tt)
  insert-EntriesParsed cidr ipnet ((j, w) ∷ m) h p =
      ground (arith, insert-EntriesParsed cidr ipnet m)

  delete-EntriesParsed :
      (cidr : Bytes) (m : GoMap IpNet) → EntriesParsed m → EntriesParsed (delete cidr m)
  unfolding delete
  delete-EntriesParsed cidr [] p = tt
  delete-EntriesParsed cidr ((j, w) ∷ m) p = ground (arith, delete-EntriesParsed cidr m)

  pub any-insert :
      (p : Bytes → Bool) (cidr : Bytes) (ipnet : IpNet) (m : GoMap IpNet)
      → any p (keys (insert cidr ipnet m)) ≡ (p cidr || any p (keys m))
  unfolding insert
  any-insert p cidr ipnet [] = refl
  any-insert p cidr ipnet ((j, w) ∷ m) = ground (arith, beq_iff j cidr, any-insert p cidr ipnet m)

  pub any-delete :
      (p : Bytes → Bool) (cidr : Bytes) (m : GoMap IpNet)
      → any p (keys (delete cidr m)) ≡ any (λ j. p j && not (beq j cidr)) (keys m)
  unfolding delete
  any-delete p cidr [] = refl
  any-delete p cidr ((j, w) ∷ m) = ground (arith, any-delete p cidr m)

  any-EntriesParsed :
      (ip : Ip) (m : GoMap IpNet)
      → EntriesParsed m
      → any (λ e. net.contains e.1 ip) m ≡ any (covers ip) (keys m)
  any-EntriesParsed ip [] p = refl
  any-EntriesParsed ip ((j, w) ∷ m) p = ground (arith, any-EntriesParsed ip m)

  pub IsParsed-new : (nl : SubnetList IpNet) → nl.nets ≡ [] → IsParsed nl
  IsParsed-new nl e = rw e tt

  pub add-IsParsed :
      (cidr : Bytes) (nl : SubnetList IpNet) → IsParsed nl → IsParsed (add net cidr nl).1
  add-IsParsed cidr nl p = elim (Option-cases (network cidr)) [
    | inl bad ↦ rw (add_other cidr nl bad) p
    | inr (ipnet, good) ↦
        rw (add-network cidr ipnet nl good) (insert-EntriesParsed cidr ipnet nl.nets good p)
  ]

  pub remove-IsParsed :
      (cidr : Bytes) (nl : SubnetList IpNet) → IsParsed nl → IsParsed (remove cidr nl)
  unfolding remove
  remove-IsParsed cidr nl p = delete-EntriesParsed cidr nl.nets p

  -- A list contains an address just if one of its texts covers it, whatever the order of the loop.
  pub contains-covers :
      (order : GoMap IpNet → GoMap IpNet) (ip : Ip) (nl : SubnetList IpNet)
      → Visits order
      → IsParsed nl
      → contains net order ip nl ≡ any (covers ip) (keys nl.nets)
  unfolding contains
  contains-covers order ip nl v p =
      any-perm (λ e. net.contains e.1 ip) (v nl.nets) ∙ any-EntriesParsed ip nl.nets p

  pub contains_cleared :
      (order : GoMap IpNet → GoMap IpNet) (ip : Ip) (nl : SubnetList IpNet)
      → Visits order
      → contains net order ip (clear nl) ≡ false
  contains_cleared order ip nl v =
      contains-covers order ip (clear nl) v (unfold clear in tt) ∙ (unfold clear in refl)

  module _ (order : GoMap IpNet → GoMap IpNet) (v : Visits order) (nl : SubnetList IpNet)
      (p : IsParsed nl) where
    -- For a list whose entries were parsed from their texts: `Add` succeeds just if the text is a
    -- network, and afterwards the list contains what it contained and what the text covers, which
    -- is nothing for a text that is no network.
    pub contains-add :
        (cidr : Bytes) (ip : Ip)
        → (is_ok (add net cidr nl).0 ≡ is_network cidr)
          × (contains net order ip (add net cidr nl).1
              ≡ (covers ip cidr || contains net order ip nl))
    contains-add cidr ip = elim (Option-cases (network cidr)) [
      | inl bad ↦
          (rw (add_other cidr nl bad) (ground arith), rw (add_other cidr nl bad) (ground arith))
      | inr (ipnet, good) ↦ (
        rw (add-network cidr ipnet nl good) (ground arith),
        rw
            (
              contains-covers order ip nl v p,
              contains-covers order ip (add net cidr nl).1 v (add-IsParsed cidr nl p),
              add-network cidr ipnet nl good,
            )
            (any-insert (covers ip) cidr ipnet nl.nets),
      )
    ]

    -- For a list whose entries were parsed from their texts: after `Remove` of a text, the list
    -- contains what its other texts cover.
    contains-remove :
        (cidr : Bytes) (ip : Ip)
        → contains net order ip (remove cidr nl)
          ≡ any (λ j. covers ip j && not (beq j cidr)) (keys nl.nets)
    contains-remove cidr ip =
        contains-covers order ip (remove cidr nl) v (remove-IsParsed cidr nl p)
        ∙ (unfold remove in any-delete (covers ip) cidr nl.nets)
