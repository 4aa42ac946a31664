-- ===== src/Adapters/Sync.antt =====
-- The external mode as a whole, seen from one instance: tables that any instance changes, the news
-- of a change, and the two reads of the reload that follows, between which the tables may change.
pub mod Agreement
use otus_anti_bruteforce.Base.{
  ℕ, suc, true, List, Option, some, Result, ok, ◌≡◌, refl, sym, ap, ◌∙◌, any, is_ok, wrapping,
  Result-cases, inl, inr, if◌then◌else◌, arith,
}
use otus_anti_bruteforce.Base.Text.{Bytes, codes}
use otus_anti_bruteforce.Base.GoMap.{GoMap, Visits}
use otus_anti_bruteforce.Domain.{ListType, whitelist, blacklist}
use otus_anti_bruteforce.Net.{NetPackage}
use otus_anti_bruteforce.Ports.{SubnetRepo}
use otus_anti_bruteforce.Subnet.List.Defs.{SubnetList, load}
use otus_anti_bruteforce.Subnet.List.Coverage.{covers}
use otus_anti_bruteforce.Subnet.List.Loading.{
  loaded-all, is_ok-load, contains-load, repo-load, list_type-load,
}
use otus_anti_bruteforce.Subnet.Policer.Defs.{
  SubnetPolicer, new_subnet_policer, listed, check, reload_whitelist, reload_blacklist,
}
use otus_anti_bruteforce.Subnet.Policer.Reload.{policy, IsWired, new_policer-IsWired, check-policy}

-- Where the subscriber of the instance is: it waits for a message, is about to read the whitelist,
-- is about to read the blacklist, or has returned an error.
pub data Phase : Type 0 where
  waiting reading half_read stopped : Phase

-- The tables, the policer, the changes whose news is not sent yet, and the messages on their way.
pub record Instance (IpNet R : Type 0) : Type 0 where
  pub tables : R
  pub policer : SubnetPolicer IpNet
  pub unpublished : ℕ
  pub queued : ℕ
  pub phase : Phase

module _ (net : NetPackage) {R : Type 0} (repo : SubnetRepo R) where
  open net use {Ip, IpNet}

  abbrev after_read :
      Phase → Instance IpNet R → Result (Unit {0}) × (SubnetPolicer IpNet × R) → Instance IpNet R
  after_read next s (r, (sp, tables)) = record s {
    tables = tables;
    policer = sp;
    phase = if is_ok r then next else stopped;
  }

  abbrev pub white_read : Instance IpNet R → Instance IpNet R
  white_read s = after_read half_read s (reload_whitelist net repo (s.policer, s.tables))

  abbrev pub black_read : Instance IpNet R → Instance IpNet R
  black_read s = after_read waiting s (reload_blacklist net repo (s.policer, s.tables))

  -- `change` stands for a change by any instance, and `publish` for its news, which is sent after it.
  pub data Step : Instance IpNet R → Instance IpNet R → Type 0 where
    change :
        (s : Instance IpNet R) (tables : R)
        → Step s (record s { tables = tables; unpublished = suc s.unpublished })
    publish :
        (s : Instance IpNet R) (n : ℕ)
        → s.unpublished ≡ suc n
        → Step s (record s { unpublished = n; queued = suc s.queued })
    take :
        (s : Instance IpNet R) (n : ℕ)
        → s.queued ≡ suc n
        → s.phase ≡ waiting
        → Step s (record s { queued = n; phase = reading })
    read_white : (s : Instance IpNet R) → s.phase ≡ reading → Step s (white_read s)
    read_black : (s : Instance IpNet R) → s.phase ≡ half_read → Step s (black_read s)

  pub data Reach (s : Instance IpNet R) : Instance IpNet R → Type 0 where
    here : Reach s s
    next : {t u : Instance IpNet R} → Reach s t → Step t u → Reach s u

  -- An instance before `Init`, which makes both reads before the instance listens for news.
  abbrev pub fresh : R → Instance IpNet R
  fresh r = record {
    tables = r;
    policer = new_subnet_policer;
    unpublished = 0;
    queued = 0;
    phase = reading;
  }
