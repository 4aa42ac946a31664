-- ===== src/Local/Poison.antt =====
-- The local mode after a text that is no network has been stored: no call of the lists succeeds.
use otus_anti_bruteforce.Base.{
  ℕ, true, false, ◌&&◌, List, [], ◌∷◌, Result, ◌≡◌, ◌≢◌, refl, ◌∙◌, is_ok, All, arith,
}
use otus_anti_bruteforce.Base.Text.{Bytes, beq, beq_iff, beq_refl}
use otus_anti_bruteforce.Base.GoMap.{Visits}
use otus_anti_bruteforce.Domain.{whitelist, blacklist}
use otus_anti_bruteforce.Net.{NetPackage}
use otus_anti_bruteforce.Memory.Subnets.Contents.{mem, texts}
use otus_anti_bruteforce.Memory.Subnets.Search.{mem-texts-add, mem-texts-remove}
use otus_anti_bruteforce.Subnet.List.Coverage.{is_network}
use otus_anti_bruteforce.Subnet.Policer.Reload.{IsWired}
use otus_anti_bruteforce.RateLimit.Checker.{LimitsConfig}
use otus_anti_bruteforce.Local.World.{World, LoopOrders}
use otus_anti_bruteforce.Local.Reload.{is_sound}
use otus_anti_bruteforce.Local.Manage.{
  Side, white, black, list_of, Manage, add_to, remove_from, stored, manage, is_ok-manage,
  subnets-manage, manage-IsWired,
}
use otus_anti_bruteforce.Local.Enforcement.{unsound_of_mem}

list_of_injective : (s t : Side) → beq (list_of s) (list_of t) ≡ true → s ≡ t
unfolding beq
list_of_injective white white h = refl
list_of_injective white black h = cc
list_of_injective black white h = cc
list_of_injective black black h = refl

module _ (s : Side) (cidr : Bytes) where
  -- The text is not taken off its list by hand.
  abbrev pub Spares : List Manage → Type 0
  Spares [] = Unit
  Spares (m ∷ ms) = (m ≢ remove_from s cidr) × Spares ms

  mem-stored :
      {IpNet : Type 0} (m : Manage) (w : World IpNet)
      → m ≢ remove_from s cidr
      → mem cidr (texts w.subnets (list_of s)) ≡ true
      → mem cidr (texts (stored m w).subnets (list_of s)) ≡ true
  mem-stored (add_to t k) w h among =
      mem-texts-add w.subnets (list_of t) (list_of s) k cidr ∙ ground arith
  mem-stored (remove_from t k) w h among =
      mem-texts-remove w.subnets (list_of t) (list_of s) k cidr
      ∙ ground (arith, list_of_injective t s, beq_iff k cidr)

  module _ (net : NetPackage) (orders : LoopOrders net.IpNet) (cidrs_visited : Visits orders.cidrs)
      (sum256 : Bytes → List ℕ) (cfg : LimitsConfig) (bad : is_network net cidr ≡ false) where
    open net use {IpNet}

    -- The replies to some calls in turn.
    abbrev pub replies : List Manage → World IpNet → List (Result (Unit {0}))
    replies [] w = []
    replies (m ∷ ms) w = let (r, w') = manage net orders sum256 cfg m w in r ∷ replies ms w'

    fails :
        (m : Manage) (w : World IpNet)
        → IsWired net w.policer
        → mem cidr (texts (stored m w).subnets (list_of s)) ≡ true
        → is_ok (manage net orders sum256 cfg m w).0 ≡ false
    fails m w wired among =
        is_ok-manage net orders sum256 cfg cidrs_visited m w wired
        ∙ side s (unsound_of_mem net (stored m w).subnets s cidr among bad)
      where
        side :
            (t : Side)
            → is_sound net (stored m w).subnets (list_of t) ≡ false
            → (is_sound net (stored m w).subnets whitelist
                && is_sound net (stored m w).subnets blacklist)
              ≡ false
        side white h = ground arith
        side black h = ground arith

    all_fail :
        (ms : List Manage) (w : World IpNet)
        → IsWired net w.policer
        → mem cidr (texts w.subnets (list_of s)) ≡ true
        → Spares ms
        → All (λ r. is_ok r ≡ false) (replies ms w)
    all_fail [] w wired among spared = tt
    all_fail (m ∷ ms) w wired among (spare, spared) =
        let among' = mem-stored m w spare among in
        (
          fails m w wired among',
          all_fail ms (manage net orders sum256 cfg m w).1
              (manage-IsWired net orders sum256 cfg cidrs_visited m w wired)
              (rw (subnets-manage net orders sum256 cfg cidrs_visited m w wired) among') spared,
        )

    -- In the local mode, with the two lists wired as at the start: once a client has added a text
    -- that is no network to one of the lists, that call and every later call of the lists fails, as
    -- long as none of them removes this very text from that list.
    pub invalid_cidr_poisons :
        (ms : List Manage) (w : World IpNet)
        → IsWired net w.policer
        → Spares ms
        → All (λ r. is_ok r ≡ false) (replies (add_to s cidr ∷ ms) w)
    invalid_cidr_poisons ms w wired spared =
        let among : mem cidr (texts (stored (add_to s cidr) w).subnets (list_of s)) ≡ true =
          mem-texts-add w.subnets (list_of s) (list_of s) cidr cidr
          ∙ ground (arith, beq_refl cidr, beq_refl (list_of s)) in
        (
          fails (add_to s cidr) w wired among,
          all_fail ms (manage net orders sum256 cfg (add_to s cidr) w).1
              (manage-IsWired net orders sum256 cfg cidrs_visited (add_to s cidr) w wired)
              (rw (subnets-manage net orders sum256 cfg cidrs_visited (add_to s cidr) w wired)
                among)
              spared,
        )
