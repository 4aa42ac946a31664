-- ===== src/Local/Manage.antt =====
-- The four calls that manage the lists, in the local mode: what they store and what they publish.
use otus_anti_bruteforce.Base.{
  ℕ, true, ◌&&◌, List, Exec, ◌≡◌, is_ok, wrapping, state-wrapping, is_ok-wrapping,
}
use otus_anti_bruteforce.Base.Text.{Bytes, codes}
use otus_anti_bruteforce.Base.GoMap.{GoMap, Visits}
use otus_anti_bruteforce.Domain.{ListType, whitelist, blacklist}
use otus_anti_bruteforce.Net.{NetPackage}
use otus_anti_bruteforce.Memory.Subnets.Defs.{SubnetListDb}
use otus_anti_bruteforce.Memory.Subnets.Contents.{
  Update, add, remove, perform, reply-add, reply-remove,
}
use otus_anti_bruteforce.Subnet.Policer.Defs.{check}
use otus_anti_bruteforce.Subnet.Policer.Reload.{policy, IsWired}
use otus_anti_bruteforce.RateLimit.Checker.{LimitsConfig}
use otus_anti_bruteforce.App.SubnetLists.{
  SubnetListUseCase, add_to_whitelist, add_to_blacklist, remove_from_whitelist,
  remove_from_blacklist,
}
use otus_anti_bruteforce.App.RateLimiter.{reload_subnets}
use otus_anti_bruteforce.Adapters.LocalPublisher.{publish_subnet_updated}
use otus_anti_bruteforce.Local.World.{World, LoopOrders, reload, subnet_lists}
use otus_anti_bruteforce.Local.Reload.{
  in_list, is_sound, is_ok-reload_world, subnets-reload, reload_world-IsWired, check-reload_world,
}

pub data Side : Type 0 where
  white black : Side

abbrev pub list_of : Side → ListType
list_of white = whitelist
list_of black = blacklist

-- The calls of `SubnetListUseCase`.
pub data Manage : Type 0 where
  add_to remove_from : Side → Bytes → Manage

abbrev pub update_of : Manage → Update
update_of (add_to side cidr) = add (list_of side) cidr
update_of (remove_from side cidr) = remove (list_of side) cidr

abbrev pub call : {S : Type 0} → SubnetListUseCase S → Manage → Exec S (Unit {0})
call lists (add_to white cidr) = lists.add_to_whitelist cidr
call lists (add_to black cidr) = lists.add_to_blacklist cidr
call lists (remove_from white cidr) = lists.remove_from_whitelist cidr
call lists (remove_from black cidr) = lists.remove_from_blacklist cidr

-- The world once the store has changed, before the news of it.
abbrev pub stored : {IpNet : Type 0} → Manage → World IpNet → World IpNet
stored m w = record w { subnets = (perform (update_of m) w.subnets).1 }

module _ (net : NetPackage) (orders : LoopOrders net.IpNet) (sum256 : Bytes → List ℕ)
    (cfg : LimitsConfig) where
  open net use {Ip, IpNet}

  abbrev pub manage : Manage → Exec (World IpNet) (Unit {0})
  manage = call (subnet_lists net orders sum256 cfg)

  -- The store accepts every text, and the policer is reloaded from it.
  pub manage-reload :
      (m : Manage) (w : World IpNet)
      → manage m w ≡ wrapping (codes "publish subnet update") (reload net orders (stored m w))
  unfolding add_to_whitelist add_to_blacklist remove_from_whitelist remove_from_blacklist
      publish_subnet_updated reload_subnets perform
  manage-reload (add_to white cidr) w = rw reply-add
  manage-reload (add_to black cidr) w = rw reply-add
  manage-reload (remove_from white cidr) w = rw reply-remove
  manage-reload (remove_from black cidr) w = rw reply-remove

  module _ (v : Visits orders.cidrs) (m : Manage) (w : World IpNet)
      (wired : IsWired net w.policer) where
    abbrev pub db' : SubnetListDb
    db' = (stored m w).subnets

    -- In the local mode, with the two lists wired as at the start, a call that adds to or removes
    -- from a list succeeds just if every text that the store then holds, in either list, is a
    -- network.
    pub is_ok-manage :
        is_ok (manage m w).0 ≡ (is_sound net db' whitelist && is_sound net db' blacklist)
    is_ok-manage =
        rw (manage-reload, is_ok-wrapping) (is_ok-reload_world net orders v (stored m w) wired)

    pub subnets-manage : (manage m w).1.subnets ≡ db'
    subnets-manage =
        rw (manage-reload, state-wrapping) (subnets-reload net orders v (stored m w) wired)

    pub buckets-manage : (manage m w).1.buckets ≡ w.buckets
    buckets-manage = rw (manage-reload, state-wrapping)

    pub manage-IsWired : IsWired net (manage m w).1.policer
    manage-IsWired =
        rw (manage-reload, state-wrapping) (reload_world-IsWired net orders v (stored m w) wired)

    -- In the local mode, with the two lists wired as at the start, after a call of the lists that
    -- leaves only networks in the store, the policer decides by the texts of the store: the
    -- whitelist first, then the blacklist.
    pub check-manage :
        (order : GoMap IpNet → GoMap IpNet) (ip : Ip)
        → Visits order
        → is_sound net db' whitelist ≡ true
        → is_sound net db' blacklist ≡ true
        → check net order ip (manage m w).1.policer
          ≡ policy (in_list net db' whitelist ip) (in_list net db' blacklist ip)
    check-manage order ip visits sound_ws sound_bs =
        rw (manage-reload, state-wrapping)
          (check-reload_world net orders v (stored m w) wired order ip visits sound_ws sound_bs)
