-- ===== src/Subnet/List/Defs.antt =====
-- internal/domain/subnetlist/subnetlist.go: one list of subnets, by their CIDR texts.
use otus_anti_bruteforce.Base.{
  Bool, not, List, [], ◌∷◌, Result, ok, err, Error, new, join, Exec, pure, ◌>>◌, any, if◌then◌else◌,
}
use otus_anti_bruteforce.Base.Text.{Bytes, codes}
use otus_anti_bruteforce.Base.GoMap.{GoMap, insert, delete}
use otus_anti_bruteforce.Domain.{ListType}
use otus_anti_bruteforce.Net.{NetPackage}
use otus_anti_bruteforce.Ports.{SubnetRepo}

-- errors.go
abbrev pub err_invalid_cidr : Error
err_invalid_cidr = new (codes "invalid CIDR notation")

pub record SubnetList (IpNet : Type 0) : Type 0 where
  pub list_type : ListType
  pub nets : GoMap IpNet

abbrev pub new_subnet_list : {IpNet : Type 0} → ListType → SubnetList IpNet
new_subnet_list list_type = record { list_type = list_type; nets = [] }

unfoldable pub remove : {IpNet : Type 0} → Bytes → SubnetList IpNet → SubnetList IpNet
remove cidr nl = record nl { nets = delete cidr nl.nets }

unfoldable pub clear : {IpNet : Type 0} → SubnetList IpNet → SubnetList IpNet
clear nl = record nl { nets = [] }

module _ (net : NetPackage) where
  open net use {Ip, IpNet, parse_cidr, ip_equal, ip_of}

  -- The address must be the address of its network.
  unfoldable pub add : Bytes → Exec (SubnetList IpNet) (Unit {0})
  add cidr nl = elim (parse_cidr cidr) [
    | err e ↦ (err (join err_invalid_cidr e), nl)
    | ok (ip, ipnet) ↦
        if not (ip_equal ip (ip_of ipnet))
        then (err err_invalid_cidr, nl)
        else (ok tt, record nl { nets = insert cidr ipnet nl.nets })
  ]

  -- `order` is the order of the loop over the map.
  unfoldable pub contains : (GoMap IpNet → GoMap IpNet) → Ip → SubnetList IpNet → Bool
  contains order ip nl = any (λ e. net.contains e.1 ip) (order nl.nets)

  -- the loop of `Load`
  unfoldable pub add_all : List Bytes → Exec (SubnetList IpNet) (Unit {0})
  add_all [] = pure tt
  add_all (cidr ∷ cidrs) = do add cidr; add_all cidrs

  -- `Load` once the repository has answered
  unfoldable pub load_texts :
      {R : Type 0}
      → SubnetList IpNet
      → Result (List Bytes) × R
      → Result (Unit {0}) × (SubnetList IpNet × R)
  unfolding clear
  load_texts nl (err e, r) = (err e, (nl, r))
  load_texts nl (ok cidrs, r) = let (result, nl') = add_all cidrs (clear nl) in (result, (nl', r))

  -- The list beside the state of the repository that it is loaded from.
  unfoldable pub load : {R : Type 0} → SubnetRepo R → Exec (SubnetList IpNet × R) (Unit {0})
  unfolding load_texts
  load repo (nl, r) = load_texts nl (repo.get_subnet_lists nl.list_type r)
