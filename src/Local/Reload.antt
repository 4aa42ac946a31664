-- ===== src/Local/Reload.antt =====
-- A reload of the policer from the memory store, in the local mode.
use otus_anti_bruteforce.Base.{
  Bool, true, not, ◌&&◌, List, ok, ◌≡◌, ap, ◌∙◌, sym, any, all, all-not-any, is_ok, arith,
}
use otus_anti_bruteforce.Base.Text.{Bytes}
use otus_anti_bruteforce.Base.GoMap.{GoMap, Visits}
use otus_anti_bruteforce.Domain.{ListType, whitelist, blacklist}
use otus_anti_bruteforce.Net.{NetPackage}
use otus_anti_bruteforce.Memory.Subnets.Defs.{SubnetListDb, get_subnet_lists, memory_subnet_repo}
use otus_anti_bruteforce.Memory.Subnets.Contents.{texts, get_subnet_lists-texts}
use otus_anti_bruteforce.Subnet.List.Coverage.{covers, is_network}
use otus_anti_bruteforce.Subnet.List.Loading.{loaded-all}
use otus_anti_bruteforce.Subnet.Policer.Defs.{check}
use otus_anti_bruteforce.Subnet.Policer.Reload.{
  policy, IsWired, is_ok-reload, repo-reload, reload-IsWired, check-reload,
}
use otus_anti_bruteforce.Local.World.{World, LoopOrders, reload}

module _ (net : NetPackage) where
  open net use {Ip, IpNet}

  -- Whether a text of the list covers the address.
  abbrev pub in_list : SubnetListDb → ListType → Ip → Bool
  in_list db l ip = any (covers net ip) (texts db l)

  -- Whether every text of the list is a network.
  abbrev pub is_sound : SubnetListDb → ListType → Bool
  is_sound db l = all (is_network net) (texts db l)

  all_same :
      (p : Bytes → Bool) (xs ys : List Bytes)
      → ((q : Bytes → Bool) → any q xs ≡ any q ys)
      → all p xs ≡ all p ys
  all_same p xs ys same = all-not-any p xs ∙ ap not (same (λ x. not (p x))) ∙ sym (all-not-any p ys)

  module _ (orders : LoopOrders IpNet) (v : Visits orders.cidrs) (w : World IpNet)
      (wired : IsWired net w.policer) where
    -- What the reload reads.
    record Fetched : Type 0 where
      ws : List Bytes
      bs : List Bytes
      got_ws : get_subnet_lists orders.cidrs whitelist w.subnets ≡ (ok ws, w.subnets)
      got_bs : get_subnet_lists orders.cidrs blacklist w.subnets ≡ (ok bs, w.subnets)
      same_ws : (q : Bytes → Bool) → any q ws ≡ any q (texts w.subnets whitelist)
      same_bs : (q : Bytes → Bool) → any q bs ≡ any q (texts w.subnets blacklist)

    fetched : Fetched
    fetched =
        let (ws, got_ws, same_ws) = get_subnet_lists-texts orders.cidrs whitelist w.subnets v in
        let (bs, got_bs, same_bs) = get_subnet_lists-texts orders.cidrs blacklist w.subnets v in
        record {
          ws = ws;
          bs = bs;
          got_ws = got_ws;
          got_bs = got_bs;
          same_ws = same_ws;
          same_bs = same_bs;
        }

    open fetched use {ws, bs, got_ws, got_bs, same_ws, same_bs}

    all_ws : all (is_network net) ws ≡ is_sound w.subnets whitelist
    all_ws = all_same (is_network net) _ _ same_ws

    all_bs : all (is_network net) bs ≡ is_sound w.subnets blacklist
    all_bs = all_same (is_network net) _ _ same_bs

    pub is_ok-reload_world :
        is_ok (reload net orders w).0
        ≡ (is_sound w.subnets whitelist && is_sound w.subnets blacklist)
    is_ok-reload_world =
        is_ok-reload net (memory_subnet_repo orders.cidrs) w.policer wired _ _ _ ws bs got_ws got_bs
        ∙ ground (arith, all_ws, all_bs)

    pub subnets-reload : (reload net orders w).1.subnets ≡ w.subnets
    subnets-reload =
        repo-reload net (memory_subnet_repo orders.cidrs) w.policer wired _ _ _ ws bs got_ws got_bs
        ∙ ground arith

    pub reload_world-IsWired : IsWired net (reload net orders w).1.policer
    reload_world-IsWired =
        reload-IsWired net (memory_subnet_repo orders.cidrs) w.policer wired _ _ _ ws bs got_ws
          got_bs

    -- After a reload of sound lists, `Check` decides by the texts of the store.
    pub check-reload_world :
        (order : GoMap IpNet → GoMap IpNet) (ip : Ip)
        → Visits order
        → is_sound w.subnets whitelist ≡ true
        → is_sound w.subnets blacklist ≡ true
        → check net order ip (reload net orders w).1.policer
          ≡ policy (in_list w.subnets whitelist ip) (in_list w.subnets blacklist ip)
    check-reload_world order ip visits sound_ws sound_bs =
        check-reload net (memory_subnet_repo orders.cidrs) w.policer wired _ _ _ ws bs got_ws got_bs
          order ip visits
        ∙ rw (all_ws, sound_ws, loaded-all net bs (all_bs ∙ sound_bs), same_ws, same_bs)
