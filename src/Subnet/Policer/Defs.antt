-- ===== src/Subnet/Policer/Defs.antt =====
-- internal/domain/subnetlist/subnetpolicer.go: the whitelist before the blacklist.
use otus_anti_bruteforce.Base.{
  Bool, false, Option, none, some, ok, Exec, wrapping, ◌>>◌, if◌then◌else◌,
}
use otus_anti_bruteforce.Base.Text.{codes}
use otus_anti_bruteforce.Base.GoMap.{GoMap}
use otus_anti_bruteforce.Domain.{PolicyDecision, decision_continue, decision_deny, decision_allow}
use otus_anti_bruteforce.Net.{NetPackage}
use otus_anti_bruteforce.Ports.{SubnetRepo}
use otus_anti_bruteforce.Subnet.List.Defs.{SubnetList, new_subnet_list, contains, load}

-- Both lists are pointers that may be nil.
pub record SubnetPolicer (IpNet : Type 0) : Type 0 where
  pub whitelist : Option (SubnetList IpNet)
  pub blacklist : Option (SubnetList IpNet)

abbrev pub new_subnet_policer : {IpNet : Type 0} → SubnetPolicer IpNet
new_subnet_policer = record {
  whitelist = some (new_subnet_list otus_anti_bruteforce.Domain.whitelist);
  blacklist = some (new_subnet_list otus_anti_bruteforce.Domain.blacklist);
}

module _ (net : NetPackage) where
  open net use {Ip, IpNet}

  -- A nil list contains nothing.
  abbrev pub listed : (GoMap IpNet → GoMap IpNet) → Ip → Option (SubnetList IpNet) → Bool
  listed order ip none = false
  listed order ip (some nl) = contains net order ip nl

  -- `order` is the order of the loops over the maps of the lists.
  unfoldable pub check : (GoMap IpNet → GoMap IpNet) → Ip → SubnetPolicer IpNet → PolicyDecision
  check order ip sp =
      if listed order ip sp.whitelist
      then decision_allow
      else if listed order ip sp.blacklist
      then decision_deny
      else decision_continue

  module _ {R : Type 0} (repo : SubnetRepo R) where
    unfoldable pub reload_whitelist : Exec (SubnetPolicer IpNet × R) (Unit {0})
    reload_whitelist (sp, r) = elim sp.whitelist [
      | none ↦ (ok tt, (sp, r))
      | some nl ↦
          let (result, s) = load net repo (nl, r) in
          wrapping (codes "update whitelist") (result, (record sp { whitelist = some s.0 }, s.1))
    ]

    unfoldable pub reload_blacklist : Exec (SubnetPolicer IpNet × R) (Unit {0})
    reload_blacklist (sp, r) = elim sp.blacklist [
      | none ↦ (ok tt, (sp, r))
      | some nl ↦
          let (result, s) = load net repo (nl, r) in
          wrapping (codes "update blacklist") (result, (record sp { blacklist = some s.0 }, s.1))
    ]

    unfoldable pub reload_subnets : Exec (SubnetPolicer IpNet × R) (Unit {0})
    reload_subnets = do reload_whitelist; reload_blacklist
