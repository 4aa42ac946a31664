-- ===== src/Adapters/Sync/Agreement.antt =====
-- Why an instance of the external mode decides by the tables once it has heard of every change.
use otus_anti_bruteforce.Base.{
  true, List, Option, some, ok, ◌≡◌, refl, sym, ap, ◌∙◌, any, is_ok, wrapping, Result-cases, inl,
  inr, arith,
}
use otus_anti_bruteforce.Base.Text.{Bytes, codes}
use otus_anti_bruteforce.Base.GoMap.{GoMap, Visits}
use otus_anti_bruteforce.Domain.{ListType, whitelist, blacklist}
use otus_anti_bruteforce.Net.{NetPackage}
use otus_anti_bruteforce.Ports.{SubnetRepo}
use otus_anti_bruteforce.Subnet.List.Defs.{SubnetList, load}
use otus_anti_bruteforce.Subnet.List.Coverage.{covers}
use otus_anti_bruteforce.Subnet.List.Loading.{
  loaded-all, is_ok-load, contains-load, repo-load, list_type-load,
}
use otus_anti_bruteforce.Subnet.Policer.Defs.{
  SubnetPolicer, listed, check, reload_whitelist, reload_blacklist,
}
use otus_anti_bruteforce.Subnet.Policer.Reload.{policy, IsWired, new_policer-IsWired, check-policy}
use otus_anti_bruteforce.Adapters.Sync.{
  Phase, waiting, reading, half_read, stopped, Instance, white_read, black_read, Step, change,
  publish, take, read_white, read_black, Reach, here, next, fresh,
}

module _ (net : NetPackage) {R : Type 0} (repo : SubnetRepo R) where
  open net use {Ip, IpNet}

  -- The repository answers every read with the texts of the tables, and changes nothing.
  module _ (texts : ListType → R → List Bytes)
      (answers : (l : ListType) (r : R) → repo.get_subnet_lists l r ≡ (ok (texts l r), r)) where
    -- A list contains just what the texts of the tables cover.
    abbrev IsCurrent : ListType → Option (SubnetList IpNet) → R → Type 0
    IsCurrent l nl r =
        (order : GoMap IpNet → GoMap IpNet) (ip : Ip)
        → Visits order
        → listed net order ip nl ≡ any (covers net ip) (texts l r)

    abbrev IsCurrentIn : Phase → SubnetPolicer IpNet → R → Type 0
    IsCurrentIn waiting sp r =
        IsCurrent whitelist sp.whitelist r × IsCurrent blacklist sp.blacklist r
    IsCurrentIn half_read sp r = IsCurrent whitelist sp.whitelist r
    IsCurrentIn reading sp r = Unit
    IsCurrentIn stopped sp r = Unit

    pub record InSync (s : Instance IpNet R) : Type 0 where
      pub wired : IsWired net s.policer
      pub current : s.unpublished ≡ 0 → s.queued ≡ 0 → IsCurrentIn s.phase s.policer s.tables

    module _ (l : ListType) (r : R) (nl : SubnetList IpNet) (named : nl.list_type ≡ l) where
      fetched : repo.get_subnet_lists nl.list_type r ≡ (ok (texts l r), r)
      fetched = rw named (answers l r)

      load-IsCurrent :
          is_ok (load net repo (nl, r)).0 ≡ true → IsCurrent l (some (load net repo (nl, r)).1.0) r
      load-IsCurrent fine order ip v =
          contains-load net repo r r nl (texts l r) fetched order ip v
          ∙ ap (any (covers net ip)) (
              loaded-all net (texts l r)
                (sym (is_ok-load net repo r r nl (texts l r) fetched) ∙ fine))

    module _ (s : Instance IpNet R) (i : InSync s) where
      open i.wired use {white, black}

      abbrev white' : SubnetList IpNet
      white' = (load net repo (white, s.tables)).1.0

      abbrev black' : SubnetList IpNet
      black' = (load net repo (black, s.tables)).1.0

      whitelist_read :
          reload_whitelist net repo (s.policer, s.tables)
          ≡ wrapping (codes "update whitelist") (
            (load net repo (white, s.tables)).0,
            (record s.policer { whitelist = some white' }, s.tables),
          )
      unfolding reload_whitelist
      whitelist_read = rw (
        i.wired.whitelist,
        repo-load net repo s.tables s.tables white _
            (fetched whitelist s.tables white i.wired.white_type),
      )

      blacklist_read :
          reload_blacklist net repo (s.policer, s.tables)
          ≡ wrapping (codes "update blacklist") (
            (load net repo (black, s.tables)).0,
            (record s.policer { blacklist = some black' }, s.tables),
          )
      unfolding reload_blacklist
      blacklist_read = rw (
        i.wired.blacklist,
        repo-load net repo s.tables s.tables black _
            (fetched blacklist s.tables black i.wired.black_type),
      )

      wired_white : IsWired net (record s.policer { whitelist = some white' })
      wired_white = record {
        white = white';
        black = black;
        whitelist = refl;
        blacklist = i.wired.blacklist;
        white_type =
            list_type-load net repo s.tables s.tables white _
              (fetched whitelist s.tables white i.wired.white_type)
            ∙ i.wired.white_type;
        black_type = i.wired.black_type;
      }

      wired_black : IsWired net (record s.policer { blacklist = some black' })
      wired_black = record {
        white = white;
        black = black';
        whitelist = i.wired.whitelist;
        blacklist = refl;
        white_type = i.wired.white_type;
        black_type =
            list_type-load net repo s.tables s.tables black _
              (fetched blacklist s.tables black i.wired.black_type)
            ∙ i.wired.black_type;
      }

      white_read-InSync : InSync (white_read net repo s)
      white_read-InSync = elim (Result-cases (load net repo (white, s.tables)).0) [
        | inl (_, fine) ↦
            rw (whitelist_read, fine)
              (record {
                wired = wired_white;
                current = λ u q.
                    load-IsCurrent whitelist s.tables white i.wired.white_type (rw fine refl);
              })
        | inr (e, broken) ↦
            rw (whitelist_read, broken) (record { wired = wired_white; current = λ u q. tt })
      ]

      black_read-InSync : s.phase ≡ half_read → InSync (black_read net repo s)
      black_read-InSync half = elim (Result-cases (load net repo (black, s.tables)).0) [
        | inl (_, fine) ↦
            rw (blacklist_read, fine)
              (record {
                wired = wired_black;
                current = λ u q. (
                  (rw half at (i.current u q)),
                  load-IsCurrent blacklist s.tables black i.wired.black_type (rw fine refl),
                );
              })
        | inr (e, broken) ↦
            rw (blacklist_read, broken) (record { wired = wired_black; current = λ u q. tt })
      ]

    Step-InSync : {s t : Instance IpNet R} → Step net repo s t → InSync s → InSync t
    Step-InSync (change s tables) i = record { wired = i.wired; current = λ u q. ground arith }
    Step-InSync (publish s n e) i = record { wired = i.wired; current = λ u q. ground arith }
    Step-InSync (take s n e w) i = record { wired = i.wired; current = λ u q. tt }
    Step-InSync (read_white s at) i = white_read-InSync s i
    Step-InSync (read_black s at) i = black_read-InSync s i at

    Reach-InSync : {s t : Instance IpNet R} → Reach net repo s t → InSync s → InSync t
    Reach-InSync here i = i
    Reach-InSync (next r st) i = Step-InSync st (Reach-InSync r i)

    fresh-InSync : (r : R) → InSync (fresh net repo r)
    fresh-InSync r = record { wired = new_policer-IsWired net; current = λ u q. tt }

    -- An instance of the external mode over a repository that answers every read with the texts of
    -- its tables: after a first load that succeeded and nothing changed during it or before the
    -- subscription, however changes of the tables by any instance, their news and the two reads of
    -- each reload interleave, when the news of every change has been sent and taken, and the
    -- subscriber waits again, `Check` decides by the texts of the tables, the whitelist first.
    pub check-in_sync :
        (r : R) (t : Instance IpNet R)
        → (white_read net repo (fresh net repo r)).phase ≡ half_read
        → Reach net repo (black_read net repo (white_read net repo (fresh net repo r))) t
        → t.unpublished ≡ 0
        → t.queued ≡ 0
        → t.phase ≡ waiting
        → (order : GoMap IpNet → GoMap IpNet) (ip : Ip) → Visits order
        → check net order ip t.policer
          ≡ policy
              (any (covers net ip) (texts whitelist t.tables))
              (any (covers net ip) (texts blacklist t.tables))
    check-in_sync r t whites reached published delivered idle order ip v =
        let j = Reach-InSync reached (
          black_read-InSync (white_read net repo (fresh net repo r))
            (white_read-InSync (fresh net repo r) (fresh-InSync r)) whites) in
        let (white, black) = (rw idle at (j.current published delivered)) in
        rw (check-policy, white order ip v, black order ip v) refl
