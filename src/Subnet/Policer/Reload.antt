-- ===== src/Subnet/Policer/Reload.antt =====
-- subnetpolicer.go: what `Check` answers after `ReloadSubnets`, whether it succeeded or not.
use otus_anti_bruteforce.Base.{
  Bool, true, false, ◌&&◌, List, some, ok, err, Error, ◌≡◌, refl, any, all, is_ok, wrapping, wrap,
  bind_ok, bind_err, state-wrapping, Result-cases, ◌∙◌, if◌then◌else◌, inl, inr, arith,
}
use otus_anti_bruteforce.Base.Text.{Bytes, codes}
use otus_anti_bruteforce.Base.GoMap.{GoMap, Visits}
use otus_anti_bruteforce.Domain.{
  PolicyDecision, decision_continue, decision_deny, decision_allow, whitelist, blacklist,
}
use otus_anti_bruteforce.Net.{NetPackage}
use otus_anti_bruteforce.Ports.{SubnetRepo}
use otus_anti_bruteforce.Subnet.List.Defs.{SubnetList, new_subnet_list, contains, load}
use otus_anti_bruteforce.Subnet.List.Coverage.{covers, is_network}
use otus_anti_bruteforce.Subnet.List.Loading.{
  loaded, loaded-all, is_ok-load, contains-load, repo-load, list_type-load,
}
use otus_anti_bruteforce.Subnet.Policer.Defs.{
  SubnetPolicer, new_subnet_policer, listed, check, reload_whitelist, reload_blacklist,
  reload_subnets,
}

-- The whitelist has precedence.
abbrev pub policy : Bool → Bool → PolicyDecision
policy true in_blacklist = decision_allow
policy false true = decision_deny
policy false false = decision_continue

module _ (net : NetPackage) where
  open net use {Ip, IpNet}

  pub check-policy :
      (order : GoMap IpNet → GoMap IpNet) (ip : Ip) (sp : SubnetPolicer IpNet)
      → check net order ip sp
        ≡ policy (listed net order ip sp.whitelist) (listed net order ip sp.blacklist)
  unfolding check
  check-policy order ip sp = ground arith

  -- As `NewSubnetPolicer` makes it: both lists are there, each under its own name.
  pub record IsWired (sp : SubnetPolicer IpNet) : Type 0 where
    pub white : SubnetList IpNet
    pub black : SubnetList IpNet
    pub whitelist : sp.whitelist ≡ some white
    pub blacklist : sp.blacklist ≡ some black
    pub white_type : white.list_type ≡ otus_anti_bruteforce.Domain.whitelist
    pub black_type : black.list_type ≡ otus_anti_bruteforce.Domain.blacklist

  pub new_policer-IsWired : IsWired new_subnet_policer
  new_policer-IsWired = record {
    white = new_subnet_list otus_anti_bruteforce.Domain.whitelist;
    black = new_subnet_list otus_anti_bruteforce.Domain.blacklist;
    whitelist = refl;
    blacklist = refl;
    white_type = refl;
    black_type = refl;
  }

  module _ {R : Type 0} (repo : SubnetRepo R) (sp : SubnetPolicer IpNet) (wired : IsWired sp)
      (r r' r'' : R) (ws bs : List Bytes)
      (white_texts : repo.get_subnet_lists whitelist r ≡ (ok ws, r'))
      (black_texts : repo.get_subnet_lists blacklist r' ≡ (ok bs, r'')) where
    open wired use {white, black}

    abbrev white' : SubnetList IpNet
    white' = (load net repo (white, r)).1.0

    abbrev black' : SubnetList IpNet
    black' = (load net repo (black, r')).1.0

    fetched_white : repo.get_subnet_lists white.list_type r ≡ (ok ws, r')
    fetched_white = rw wired.white_type white_texts

    fetched_black : repo.get_subnet_lists black.list_type r' ≡ (ok bs, r'')
    fetched_black = rw wired.black_type black_texts

    reload_white :
        reload_whitelist net repo (sp, r)
        ≡ wrapping
            (codes "update whitelist")
            ((load net repo (white, r)).0, (record sp { whitelist = some white' }, r'))
    unfolding reload_whitelist
    reload_white = rw (wired.whitelist, repo-load net repo r r' white ws fetched_white)

    reload_black :
        reload_blacklist net repo (record sp { whitelist = some white' }, r')
        ≡ wrapping (codes "update blacklist") (
          (load net repo (black, r')).0,
          (record { whitelist = some white'; blacklist = some black' }, r''),
        )
    unfolding reload_blacklist
    reload_black = rw (wired.blacklist, repo-load net repo r' r'' black bs fetched_black)

    reload_stops :
        (e : Error)
        → (load net repo (white, r)).0 ≡ err e
        → reload_subnets net repo (sp, r)
          ≡ (err (wrap (codes "update whitelist") e), (record sp { whitelist = some white' }, r'))
    unfolding reload_subnets
    reload_stops e h = bind_err (reload_whitelist net repo) _ (rw (reload_white, h))

    reload_goes_on :
        (load net repo (white, r)).0 ≡ ok tt
        → reload_subnets net repo (sp, r)
          ≡ wrapping (codes "update blacklist") (
            (load net repo (black, r')).0,
            (record { whitelist = some white'; blacklist = some black' }, r''),
          )
    unfolding reload_subnets
    reload_goes_on h = bind_ok (reload_whitelist net repo) _ (rw (reload_white, h)) ∙ reload_black

    -- For a policer with its two lists wired as `NewSubnetPolicer` does, when the repository
    -- answers both reads, the reload succeeds just if every text of both lists is a network.
    pub is_ok-reload :
        is_ok (reload_subnets net repo (sp, r)).0
        ≡ (all (is_network net) ws && all (is_network net) bs)
    is_ok-reload = elim (Result-cases (load net repo (white, r)).0) [
      | inl (_, fine) ↦ rw (reload_goes_on fine) (
          ground (
            arith,
            is_ok-load net repo r r' white ws fetched_white,
            is_ok-load net repo r' r'' black bs fetched_black,
          ))
      | inr (e, broken) ↦
          rw (reload_stops e broken)
            (ground (arith, is_ok-load net repo r r' white ws fetched_white))
    ]

    -- The blacklist is not read if the whitelist is broken.
    pub repo-reload :
        (reload_subnets net repo (sp, r)).1.1 ≡ (if all (is_network net) ws then r'' else r')
    repo-reload = elim (Result-cases (load net repo (white, r)).0) [
      | inl (_, fine) ↦
          rw (reload_goes_on fine, state-wrapping)
            (ground (arith, is_ok-load net repo r r' white ws fetched_white))
      | inr (e, broken) ↦
          rw (reload_stops e broken)
            (ground (arith, is_ok-load net repo r r' white ws fetched_white))
    ]

    -- Both lists stay there, under their names.
    pub reload-IsWired : IsWired (reload_subnets net repo (sp, r)).1.0
    reload-IsWired = elim (Result-cases (load net repo (white, r)).0) [
      | inl (_, fine) ↦
          rw (reload_goes_on fine, state-wrapping)
            (record {
              white = white';
              black = black';
              whitelist = refl;
              blacklist = refl;
              white_type = list_type-load net repo r r' white ws fetched_white ∙ wired.white_type;
              black_type = list_type-load net repo r' r'' black bs fetched_black ∙ wired.black_type;
            })
      | inr (e, broken) ↦ rw (reload_stops e broken) (record {
        white = white';
        black = black;
        whitelist = refl;
        blacklist = wired.blacklist;
        white_type = list_type-load net repo r r' white ws fetched_white ∙ wired.white_type;
        black_type = wired.black_type;
      })
    ]

    -- `Check` of a policer with its two lists wired as `NewSubnetPolicer` does, after a reload that
    -- succeeded or failed, the repository having answered both reads: if every text of the
    -- whitelist is a network, both lists are those of the repository, the blacklist as far as its
    -- first text that is none; otherwise the whitelist is cut off there and the blacklist is the
    -- old one.
    pub check-reload :
        (order : GoMap IpNet → GoMap IpNet) (ip : Ip)
        → Visits order
        → check net order ip (reload_subnets net repo (sp, r)).1.0 ≡ (
            if all (is_network net) ws
            then policy (any (covers net ip) ws) (any (covers net ip) (loaded net bs))
            else policy (any (covers net ip) (loaded net ws)) (contains net order ip black))
    check-reload order ip v = elim (Result-cases (load net repo (white, r)).0) [
      | inl (_, fine) ↦
          let all_ws : all (is_network net) ws ≡ true =
            ground (arith, is_ok-load net repo r r' white ws fetched_white) in
          rw (
            reload_goes_on fine,
            all_ws,
            state-wrapping,
            check-policy,
            contains-load net repo r r' white ws fetched_white order ip v,
            contains-load net repo r' r'' black bs fetched_black order ip v,
            loaded-all net ws all_ws,
          )
      | inr (e, broken) ↦
          let not_all_ws : all (is_network net) ws ≡ false =
            ground (arith, is_ok-load net repo r r' white ws fetched_white) in
          rw (
            reload_stops e broken,
            not_all_ws,
            check-policy,
            wired.blacklist,
            contains-load net repo r r' white ws fetched_white order ip v,
          )
    ]
