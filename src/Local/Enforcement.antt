-- ===== src/Local/Enforcement.antt =====
-- The local mode as a client of the service sees it: what a change of the lists does to the answers
-- of `Check`.
use otus_anti_bruteforce.Base.{
  ℕ, true, false, not, ◌&&◌, List, ok, ◌≡◌, ap, ◌∙◌, any, all-not-any, any_narrow, ok_of_is_ok,
  arith,
}
use otus_anti_bruteforce.Base.Text.{Bytes, beq}
use otus_anti_bruteforce.Base.GoMap.{Visits}
use otus_anti_bruteforce.Domain.{whitelist, blacklist}
use otus_anti_bruteforce.Net.{NetPackage}
use otus_anti_bruteforce.Memory.Subnets.Defs.{SubnetListDb}
use otus_anti_bruteforce.Memory.Subnets.Contents.{mem, texts, add, remove, perform}
use otus_anti_bruteforce.Memory.Subnets.Search.{any_of_mem, any-texts-add, any-texts-remove}
use otus_anti_bruteforce.Subnet.List.Coverage.{covers, is_network}
use otus_anti_bruteforce.Subnet.Policer.Reload.{policy, IsWired}
use otus_anti_bruteforce.RateLimit.Checker.{LimitsConfig}
use otus_anti_bruteforce.App.Password.{hash_password}
use otus_anti_bruteforce.App.RateLimiter.{check_limits}
use otus_anti_bruteforce.App.RateLimiter.Outcomes.{check_denied, check_allowed, check_continued}
use otus_anti_bruteforce.Subnet.Policer.Defs as Policer
use otus_anti_bruteforce.Local.World.{World, LoopOrders, subnet_policer, checker, rate_limiter}
use otus_anti_bruteforce.Local.Reload.{in_list, is_sound}
use otus_anti_bruteforce.Local.Manage.{
  Side, white, black, list_of, Manage, add_to, remove_from, stored, manage, is_ok-manage,
  check-manage,
}

module _ (net : NetPackage) where
  open net use {Ip, IpNet}

  -- Sound lists stay sound when a network is added.
  is_sound-add :
      (db : SubnetListDb) (s t : Side) (cidr : Bytes)
      → is_sound net db (list_of t) ≡ true
      → is_network net cidr ≡ true
      → is_sound net (perform (add (list_of s) cidr) db).1 (list_of t) ≡ true
  is_sound-add db s t cidr sound good =
      all-not-any (is_network net) _
      ∙ ap not (any-texts-add db (list_of s) (list_of t) cidr (λ k. not (is_network net k)))
      ∙ ground (arith, all-not-any (is_network net) (texts db (list_of t)))

  is_sound-remove :
      (db : SubnetListDb) (s t : Side) (cidr : Bytes)
      → is_sound net db (list_of t) ≡ true
      → is_sound net (perform (remove (list_of s) cidr) db).1 (list_of t) ≡ true
  is_sound-remove db s t cidr sound =
      all-not-any (is_network net) _
      ∙ ap not (
          any-texts-remove db (list_of s) (list_of t) cidr (λ k. not (is_network net k))
          ∙ any_narrow (λ k. not (is_network net k))
              (λ k. not (beq (list_of s) (list_of t) && beq cidr k)) (texts db (list_of t))
              (ground (arith, all-not-any (is_network net) (texts db (list_of t)))))

  -- A text that is no network makes its list unsound.
  pub unsound_of_mem :
      (db : SubnetListDb) (s : Side) (cidr : Bytes)
      → mem cidr (texts db (list_of s)) ≡ true
      → is_network net cidr ≡ false
      → is_sound net db (list_of s) ≡ false
  unsound_of_mem db s cidr among bad = ground (
    arith,
    all-not-any (is_network net) (texts db (list_of s)),
    any_of_mem (λ k. not (is_network net k)) cidr (texts db (list_of s)) among,
  )

  -- Every text of both lists is a network.
  pub record IsSound (db : SubnetListDb) : Type 0 where
    pub at_side : (s : Side) → is_sound net db (list_of s) ≡ true

  pub stored-IsSound :
      (w : World IpNet) (s : Side) (cidr : Bytes)
      → IsSound w.subnets
      → is_network net cidr ≡ true
      → IsSound (stored (add_to s cidr) w).subnets
  stored-IsSound w s cidr sound good = record {
    at_side = λ t. is_sound-add w.subnets s t cidr (sound.at_side t) good;
  }

  pub stored_remove-IsSound :
      (w : World IpNet) (s : Side) (cidr : Bytes)
      → IsSound w.subnets
      → IsSound (stored (remove_from s cidr) w).subnets
  stored_remove-IsSound w s cidr sound = record {
    at_side = λ t. is_sound-remove w.subnets s t cidr (sound.at_side t);
  }

  module _ (orders : LoopOrders IpNet) (cidrs_visited : Visits orders.cidrs)
      (nets_visited : Visits orders.nets) (sum256 : Bytes → List ℕ) (cfg : LimitsConfig)
      (w : World IpNet) (wired : IsWired net w.policer) (sound : IsSound w.subnets)
      (cidr : Bytes) where
    -- The answer of `Check` after a call that keeps the lists sound.
    module _ (m : Manage) (kept : IsSound (stored m w).subnets) where
      manage_ok : (manage net orders sum256 cfg m w).0 ≡ ok tt
      manage_ok = ok_of_is_ok _ (
          is_ok-manage net orders sum256 cfg cidrs_visited m w wired
          ∙ ground (arith, kept.at_side white, kept.at_side black))

      decision :
          (ip : Ip)
          → Policer.check net orders.nets ip (manage net orders sum256 cfg m w).1.policer
            ≡ policy
                (in_list net (stored m w).subnets whitelist ip)
                (in_list net (stored m w).subnets blacklist ip)
      decision ip =
          check-manage net orders sum256 cfg cidrs_visited m w wired orders.nets ip nets_visited
            (kept.at_side white) (kept.at_side black)

    -- In the local mode, with the two lists wired as at the start and only networks in the store:
    -- putting a network on the blacklist succeeds, and afterwards `Check` refuses every address in
    -- it that no text of the whitelist covers, whatever the login and the password, and changes
    -- nothing.
    pub blacklisted_denied :
        (login password : Bytes) (ip : Ip)
        → is_network net cidr ≡ true
        → covers net ip cidr ≡ true
        → in_list net w.subnets whitelist ip ≡ false
        → let (r, w') = manage net orders sum256 cfg (add_to black cidr) w in
          (r ≡ ok tt)
          × ((rate_limiter net orders sum256 cfg).check login password ip w' ≡ (ok false, w'))
    unfolding beq
    blacklisted_denied login password ip good covered not_white = (
      manage_ok (add_to black cidr) kept,
      check_denied _ _ _ _ login password ip _ (
          decision (add_to black cidr) kept ip
          ∙ ground (
            arith,
            any-texts-add w.subnets blacklist whitelist cidr (covers net ip),
            any-texts-add w.subnets blacklist blacklist cidr (covers net ip),
          )),
    )
      where
        kept : IsSound (stored (add_to black cidr) w).subnets
        kept = stored-IsSound w black cidr sound good

    -- In the local mode, with the two lists wired as at the start and only networks in the store:
    -- putting a network on the whitelist succeeds, and afterwards `Check` lets every address in it
    -- pass, even one that the blacklist covers, and changes nothing.
    pub whitelisted_allowed :
        (login password : Bytes) (ip : Ip)
        → is_network net cidr ≡ true
        → covers net ip cidr ≡ true
        → let (r, w') = manage net orders sum256 cfg (add_to white cidr) w in
          (r ≡ ok tt)
          × ((rate_limiter net orders sum256 cfg).check login password ip w' ≡ (ok true, w'))
    unfolding beq
    whitelisted_allowed login password ip good covered = (
      manage_ok (add_to white cidr) kept,
      check_allowed _ _ _ _ login password ip _ (
          decision (add_to white cidr) kept ip
          ∙ ground (arith, any-texts-add w.subnets whitelist whitelist cidr (covers net ip))),
    )
      where
        kept : IsSound (stored (add_to white cidr) w).subnets
        kept = stored-IsSound w white cidr sound good

    -- In the local mode, with the two lists wired as at the start and only networks in the store:
    -- taking a text off the blacklist succeeds, and afterwards an address that no other text of
    -- either list covers is judged by the limits again.
    pub removed_judged :
        (login password : Bytes) (ip : Ip)
        → any (λ k. covers net ip k && not (beq cidr k)) (texts w.subnets blacklist) ≡ false
        → in_list net w.subnets whitelist ip ≡ false
        → let (r, w') = manage net orders sum256 cfg (remove_from black cidr) w in
          (r ≡ ok tt)
          × ((rate_limiter net orders sum256 cfg).check login password ip w'
              ≡ check_limits
                  (hash_password sum256)
                  net.ip_string
                  (subnet_policer net orders)
                  (checker net orders sum256 cfg)
                  login
                  password
                  ip
                  w')
    unfolding beq
    removed_judged login password ip no_other not_white = (
      manage_ok (remove_from black cidr) kept,
      check_continued _ _ _ _ login password ip _ (
          decision (remove_from black cidr) kept ip
          ∙ ground (
            arith,
            any-texts-remove w.subnets blacklist whitelist cidr (covers net ip),
            any-texts-remove w.subnets blacklist blacklist cidr (covers net ip),
            any_narrow (covers net ip) (λ k. true) (texts w.subnets whitelist) not_white,
          )),
    )
      where
        kept : IsSound (stored (remove_from black cidr) w).subnets
        kept = stored_remove-IsSound w black cidr sound
