-- ===== src/Tests/Lists.antt =====
-- The theorems on subnet lists, the policer and the limits, at concrete inputs.
use otus_anti_bruteforce.Base.{
  ◌&&◌, ◌||◌, List, [], ◌∷◌, ok, is_ok, all, any, All, ◌≡◌, refl, arith,
}
use otus_anti_bruteforce.Base.Text.{Bytes, beq}
use otus_anti_bruteforce.Base.GoMap.{lookup}
use otus_anti_bruteforce.Domain.{whitelist, blacklist, decision_allow}
use otus_anti_bruteforce.Memory.Subnets.Defs.{SubnetListDb, memory_subnet_repo, get_subnet_lists}
use otus_anti_bruteforce.Net.Go.{MaskedNet, computing}
use otus_anti_bruteforce.Subnet.List.Defs.{SubnetList, new_subnet_list, add, contains, load}
use otus_anti_bruteforce.Subnet.List.Coverage.{network, covers, is_network, contains-add}
use otus_anti_bruteforce.Subnet.List.History.{
  Call, adding, removing, loading, run, all_expected, contains-run,
}
use otus_anti_bruteforce.Subnet.List.Loading.{loaded, contains-load}
use otus_anti_bruteforce.Subnet.Policer.Defs.{
  SubnetPolicer, new_subnet_policer, check, reload_subnets,
}
use otus_anti_bruteforce.Subnet.Policer.Reload.{new_policer-IsWired, is_ok-reload, check-reload}
use otus_anti_bruteforce.App.Password.{IsByte}
use otus_anti_bruteforce.Tests.Fixtures.{
  v4_net, office, home, host_text, office_ip, as_they_stand, stand_visits, digest,
}

abbrev whites : SubnetList MaskedNet
whites = new_subnet_list whitelist

contains-add_example :
    (is_ok (add v4_net office whites).0 ≡ is_network v4_net office)
    × (contains v4_net as_they_stand office_ip (add v4_net office whites).1
        ≡ (covers v4_net office_ip office || contains v4_net as_they_stand office_ip whites))
contains-add_example = contains-add v4_net as_they_stand stand_visits whites tt office office_ip

-- a store with a network and a text that is none on the whitelist, and a network on the blacklist
abbrev store : SubnetListDb
store = record {
  data_of = (whitelist, (office, tt) ∷ (host_text, tt) ∷ []) ∷ (blacklist, (home, tt) ∷ []) ∷ [];
}

abbrev white_texts : List Bytes
white_texts = office ∷ host_text ∷ []

abbrev black_texts : List Bytes
black_texts = home ∷ []

-- A load that stops at a text that is no network, and calls around it.
abbrev calls : List Call
calls = adding home ∷ loading (ok white_texts) ∷ adding host_text ∷ removing home ∷ adding home ∷ []

contains-run_example :
    contains v4_net as_they_stand office_ip (run v4_net calls whites)
    ≡ any (covers v4_net office_ip) (all_expected v4_net calls [])
contains-run_example = contains-run v4_net as_they_stand office_ip whitelist calls stand_visits

-- Just the networks are left.
expected_texts : all_expected v4_net calls [] ≡ home ∷ office ∷ []
unfolding computing network
expected_texts = refl

got_white :
    (memory_subnet_repo as_they_stand).get_subnet_lists whitelist store ≡ (ok white_texts, store)
unfolding get_subnet_lists lookup beq
got_white = refl

got_black :
    (memory_subnet_repo as_they_stand).get_subnet_lists blacklist store ≡ (ok black_texts, store)
unfolding get_subnet_lists lookup beq
got_black = refl

contains-load_example :
    contains v4_net as_they_stand office_ip
      (load v4_net (memory_subnet_repo as_they_stand) (whites, store)).1.0
    ≡ any (covers v4_net office_ip) (loaded v4_net white_texts)
contains-load_example =
    contains-load v4_net (memory_subnet_repo as_they_stand) store store whites white_texts got_white
      as_they_stand office_ip stand_visits

abbrev policer : SubnetPolicer MaskedNet
policer = new_subnet_policer

is_ok-reload_example :
    is_ok (reload_subnets v4_net (memory_subnet_repo as_they_stand) (policer, store)).0
    ≡ (all (is_network v4_net) white_texts && all (is_network v4_net) black_texts)
is_ok-reload_example =
    is_ok-reload v4_net (memory_subnet_repo as_they_stand) policer (new_policer-IsWired v4_net)
      store store store white_texts black_texts got_white got_black

check-reload_example :
    check v4_net as_they_stand office_ip
      (reload_subnets v4_net (memory_subnet_repo as_they_stand) (policer, store)).1.0
    ≡ decision_allow
unfolding computing network
check-reload_example =
    check-reload v4_net (memory_subnet_repo as_they_stand) policer (new_policer-IsWired v4_net)
      store store store white_texts black_texts got_white got_black as_they_stand office_ip
      stand_visits

digest-IsByte : (p : Bytes) → All IsByte (digest p)
digest-IsByte [] = tt
digest-IsByte (b ∷ p) = (omega arith, digest-IsByte p)
