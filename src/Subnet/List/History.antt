-- ===== src/Subnet/List/History.antt =====
-- subnetlist.go over any calls, against the texts that a list should then hold.
use otus_anti_bruteforce.Base.{
  Bool, not, ◌&&◌, ◌||◌, List, [], ◌∷◌, Result, ok, err, ◌≡◌, refl, ◌∙◌, any, if◌then◌else◌,
  Option-cases, inl, inr, arith,
}
use otus_anti_bruteforce.Base.Text.{Bytes, beq}
use otus_anti_bruteforce.Base.GoMap.{GoMap, keys, Visits}
use otus_anti_bruteforce.Domain.{ListType}
use otus_anti_bruteforce.Net.{NetPackage}
use otus_anti_bruteforce.Subnet.List.Defs.{
  SubnetList, new_subnet_list, add, remove, clear, contains, add_all, load_texts,
}
use otus_anti_bruteforce.Subnet.List.Coverage.{
  network, covers, is_network, IsParsed, add-network, add_other, any-insert, any-delete,
  add-IsParsed, remove-IsParsed, contains-covers,
}
use otus_anti_bruteforce.Subnet.List.Loading.{loaded, add_all-IsParsed, add_all-cons, add_all-stop}

-- A call that changes a list; one of `Load` with what the repository answers.
pub data Call : Type 0 where
  adding removing : Bytes → Call
  clearing : Call
  loading : Result (List Bytes) → Call

abbrev without : Bytes → List Bytes → List Bytes
without cidr [] = []
without cidr (j ∷ texts) = let rest = without cidr texts in if beq j cidr then rest else j ∷ rest

any-without :
    (q : Bytes → Bool) (cidr : Bytes) (texts : List Bytes)
    → any (λ j. q j && not (beq j cidr)) texts ≡ any q (without cidr texts)
any-without q cidr [] = refl
any-without q cidr (j ∷ texts) = ground (arith, any-without q cidr texts)

module _ (net : NetPackage) where
  open net use {Ip, IpNet}

  abbrev pub perform : Call → SubnetList IpNet → SubnetList IpNet
  perform (adding cidr) nl = (add net cidr nl).1
  perform (removing cidr) nl = remove cidr nl
  perform clearing nl = clear nl
  perform (loading answer) nl = (load_texts net nl (answer, tt)).1.0

  abbrev pub run : List Call → SubnetList IpNet → SubnetList IpNet
  run [] nl = nl
  run (c ∷ calls) nl = run calls (perform c nl)

  -- The texts that a list should hold after a call: those of a load up to the first that is no
  -- network.
  abbrev pub expected : Call → List Bytes → List Bytes
  expected (adding cidr) texts = if is_network net cidr then cidr ∷ texts else texts
  expected (removing cidr) texts = without cidr texts
  expected clearing texts = []
  expected (loading (ok cidrs)) texts = loaded net cidrs
  expected (loading (err e)) texts = texts

  abbrev pub all_expected : List Call → List Bytes → List Bytes
  all_expected [] texts = texts
  all_expected (c ∷ calls) texts = all_expected calls (expected c texts)

  -- A list with parsed entries that has just these texts.
  pub record Holds (nl : SubnetList IpNet) (texts : List Bytes) : Type 0 where
    pub parsed : IsParsed net nl
    pub same : (q : Bytes → Bool) → any q (keys nl.nets) ≡ any q texts

  any-add_all :
      (q : Bytes → Bool) (cidrs : List Bytes) (nl : SubnetList IpNet)
      → any q (keys (add_all net cidrs nl).1.nets)
        ≡ (any q (loaded net cidrs) || any q (keys nl.nets))
  any-add_all q [] nl = unfold add_all in refl
  any-add_all q (cidr ∷ cidrs) nl = elim (Option-cases (network net cidr)) [
    | inl bad ↦ rw (add_all-stop net cidr cidrs nl bad) (ground arith)
    | inr (ipnet, good) ↦ rw (add_all-cons net cidr cidrs nl (ground arith)) (
        ground (
          arith,
          any-add_all q cidrs (add net cidr nl).1,
          add-network net cidr ipnet nl good,
          any-insert net q cidr ipnet nl.nets,
        ))
  ]

  any-add :
      (q : Bytes → Bool) (cidr : Bytes) (nl : SubnetList IpNet) (texts : List Bytes)
      → any q (keys nl.nets) ≡ any q texts
      → any q (keys (add net cidr nl).1.nets)
        ≡ any q (if is_network net cidr then cidr ∷ texts else texts)
  any-add q cidr nl texts same = elim (Option-cases (network net cidr)) [
    | inl bad ↦ ground (arith, add_other net cidr nl bad)
    | inr (ipnet, good) ↦
        ground (arith, add-network net cidr ipnet nl good, any-insert net q cidr ipnet nl.nets)
  ]

  perform-Holds :
      (c : Call) (nl : SubnetList IpNet) (texts : List Bytes)
      → Holds nl texts
      → Holds (perform c nl) (expected c texts)
  unfolding remove clear load_texts
  perform-Holds (adding cidr) nl texts h = record {
    parsed = add-IsParsed net cidr nl h.parsed;
    same = λ q. any-add q cidr nl texts (h.same q);
  }
  perform-Holds (removing cidr) nl texts h = record {
    parsed = remove-IsParsed net cidr nl h.parsed;
    same = λ q.
        any-delete net q cidr nl.nets
        ∙ h.same (λ j. q j && not (beq j cidr))
        ∙ any-without q cidr texts;
  }
  perform-Holds clearing nl texts h = record { parsed = tt; same = λ q. refl }
  perform-Holds (loading (err e)) nl texts h = h
  perform-Holds (loading (ok cidrs)) nl texts h = record {
    parsed = add_all-IsParsed net cidrs (clear nl) tt;
    same = λ q. ground (arith, any-add_all q cidrs (clear nl));
  }

  run-Holds :
      (calls : List Call) (nl : SubnetList IpNet) (texts : List Bytes)
      → Holds nl texts
      → Holds (run calls nl) (all_expected calls texts)
  run-Holds [] nl texts h = h
  run-Holds (c ∷ calls) nl texts h =
      run-Holds calls (perform c nl) (expected c texts) (perform-Holds c nl texts h)

  -- After any calls of `Add`, `Remove`, `Clear` and `Load` on a new list, whatever the repository
  -- answers, `Contains` of an address holds just if one of the texts that the list should then hold
  -- covers it, whatever the order of the loop: `Add` adds its text if it is a network, `Remove`
  -- takes it away, `Clear` leaves none, and `Load` leaves the texts before the first that is no
  -- network, or changes nothing if the repository fails.
  pub contains-run :
      (order : GoMap IpNet → GoMap IpNet) (ip : Ip) (l : ListType) (calls : List Call)
      → Visits order
      → contains net order ip (run calls (new_subnet_list l))
        ≡ any (covers net ip) (all_expected calls [])
  contains-run order ip l calls v =
      let h = run-Holds calls (new_subnet_list l) [] (record { parsed = tt; same = λ q. refl }) in
      contains-covers net order ip (run calls (new_subnet_list l)) v h.parsed
      ∙ h.same (covers net ip)
