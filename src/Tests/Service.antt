-- ===== src/Tests/Service.antt =====
-- The theorems on the local mode, at concrete inputs.
use otus_anti_bruteforce.Base.{
  any, true, false, ◌&&◌, not, List, [], ◌∷◌, ok, is_ok, All, ◌≡◌, refl,
}
use otus_anti_bruteforce.Base.Text.{codes, beq}
use otus_anti_bruteforce.Base.GoMap.{lookup, insert}
use otus_anti_bruteforce.Domain.{whitelist, blacklist}
use otus_anti_bruteforce.Net.Go.{MaskedNet, computing}
use otus_anti_bruteforce.Memory.Subnets.Defs.{add_cidr_to_subnet_list}
use otus_anti_bruteforce.Memory.Subnets.Contents.{texts, perform}
use otus_anti_bruteforce.Subnet.List.Coverage.{network, covers, is_network}
use otus_anti_bruteforce.Subnet.Policer.Defs as Policer
use otus_anti_bruteforce.Subnet.Policer.Reload.{policy, IsWired, new_policer-IsWired}
use otus_anti_bruteforce.App.Password.{hash_password}
use otus_anti_bruteforce.App.RateLimiter.{check_limits}
use otus_anti_bruteforce.Local.World.{World, subnet_policer, checker, rate_limiter}
use otus_anti_bruteforce.Local.Reload.{is_sound, in_list}
use otus_anti_bruteforce.Local.Manage.{
  Side, white, black, list_of, Manage, add_to, remove_from, stored, manage, is_ok-manage,
  manage-IsWired, subnets-manage, check-manage,
}
use otus_anti_bruteforce.Local.Enforcement.{
  IsSound, stored-IsSound, blacklisted_denied, whitelisted_allowed, removed_judged,
}
use otus_anti_bruteforce.Local.Poison.{replies, invalid_cidr_poisons}
use otus_anti_bruteforce.Tests.Fixtures.{
  v4_net, office, home, host_text, office_ip, as_they_stand, stand_visits, orders, config, digest,
  fresh,
}

abbrev wired : IsWired v4_net fresh.policer
wired = new_policer-IsWired v4_net

sound : IsSound v4_net fresh.subnets
unfolding texts lookup
sound = record { at_side = λ s. at s }
  where
    at : (s : Side) → is_sound v4_net fresh.subnets (list_of s) ≡ true
    at white = refl
    at black = refl

is_ok-manage_example : is_ok (manage v4_net orders digest config (add_to white office) fresh).0 ≡ (
    is_sound v4_net (stored (add_to white office) fresh).subnets whitelist
    && is_sound v4_net (stored (add_to white office) fresh).subnets blacklist)
is_ok-manage_example =
    is_ok-manage v4_net orders digest config stand_visits (add_to white office) fresh wired

blacklisted_denied_example :
    let (r, w') = manage v4_net orders digest config (add_to black office) fresh in
    (r ≡ ok tt)
    × ((rate_limiter v4_net orders digest config).check (codes "ann") (codes "pw") office_ip w'
        ≡ (ok false, w'))
unfolding computing network texts lookup
blacklisted_denied_example =
    blacklisted_denied v4_net orders stand_visits stand_visits digest config fresh wired sound
      office (codes "ann") (codes "pw") office_ip refl refl refl

whitelisted_allowed_example :
    let (r, w') = manage v4_net orders digest config (add_to white office) fresh in
    (r ≡ ok tt)
    × ((rate_limiter v4_net orders digest config).check (codes "ann") (codes "pw") office_ip w'
        ≡ (ok true, w'))
unfolding computing network
whitelisted_allowed_example =
    whitelisted_allowed v4_net orders stand_visits stand_visits digest config fresh wired sound
      office (codes "ann") (codes "pw") office_ip refl refl

-- the office on the blacklist
abbrev guarded : World MaskedNet
guarded = (manage v4_net orders digest config (add_to black office) fresh).1

guarded-IsWired : IsWired v4_net guarded.policer
guarded-IsWired =
    manage-IsWired v4_net orders digest config stand_visits (add_to black office) fresh wired

guarded_subnets : guarded.subnets ≡ (stored (add_to black office) fresh).subnets
guarded_subnets =
    subnets-manage v4_net orders digest config stand_visits (add_to black office) fresh wired

guarded-IsSound : IsSound v4_net guarded.subnets
unfolding computing network
guarded-IsSound = rw guarded_subnets (stored-IsSound v4_net fresh black office sound refl)

-- no other text of the blacklist covers the address, nor one of the whitelist
spared_black :
    any (λ k. covers v4_net office_ip k && not (beq office k)) (texts guarded.subnets blacklist)
    ≡ false
unfolding computing network texts lookup perform add_cidr_to_subnet_list insert
spared_black = rw guarded_subnets

spared_white : in_list v4_net guarded.subnets whitelist office_ip ≡ false
unfolding computing network texts lookup perform add_cidr_to_subnet_list insert
spared_white = rw guarded_subnets

removed_judged_example :
    let (r, w') = manage v4_net orders digest config (remove_from black office) guarded in
    (r ≡ ok tt)
    × ((rate_limiter v4_net orders digest config).check (codes "ann") (codes "pw") office_ip w'
        ≡ check_limits
            (hash_password digest)
            v4_net.ip_string
            (subnet_policer v4_net orders)
            (checker v4_net orders digest config)
            (codes "ann")
            (codes "pw")
            office_ip
            w')
removed_judged_example =
    removed_judged v4_net orders stand_visits stand_visits digest config guarded guarded-IsWired
      guarded-IsSound office (codes "ann") (codes "pw") office_ip spared_black spared_white

check-manage_example :
    Policer.check v4_net as_they_stand office_ip guarded.policer
    ≡ policy
        (in_list v4_net (stored (add_to black office) fresh).subnets whitelist office_ip)
        (in_list v4_net (stored (add_to black office) fresh).subnets blacklist office_ip)
unfolding computing network
check-manage_example =
    check-manage v4_net orders digest config stand_visits (add_to black office) fresh wired
      as_they_stand office_ip stand_visits
      ((stored-IsSound v4_net fresh black office sound refl).at_side white)
      ((stored-IsSound v4_net fresh black office sound refl).at_side black)

not_a_network : is_network v4_net host_text ≡ false
unfolding computing network
not_a_network = refl

-- another text on the same list, the bad one again, and its removal from the other list
abbrev later : List Manage
later = add_to white home ∷ add_to white host_text ∷ remove_from black host_text ∷ []

invalid_cidr_poisons_example :
    All
      (λ r. is_ok r ≡ false)
      (replies white host_text v4_net orders stand_visits digest config not_a_network
        (add_to white host_text ∷ later)
        fresh)
invalid_cidr_poisons_example =
    invalid_cidr_poisons white host_text v4_net orders stand_visits digest config not_a_network
      later fresh wired (λ e. cc, (λ e. cc, (λ e. cc, tt)))
