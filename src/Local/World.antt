-- ===== src/Local/World.antt =====
-- `run` of cmd/anti-bruteforce/main.go in the local mode: the memory stores and the policer are the
-- state, and the ports are wired to them.
use otus_anti_bruteforce.Base.{ℕ, List, Exec}
use otus_anti_bruteforce.Base.Int.{ℤ}
use otus_anti_bruteforce.Base.Text.{Bytes}
use otus_anti_bruteforce.Base.GoMap.{GoMap}
use otus_anti_bruteforce.Net.{NetPackage}
use otus_anti_bruteforce.Ports.{LimiterRepo, SubnetRepo}
use otus_anti_bruteforce.Ports
use otus_anti_bruteforce.Memory.Buckets.Defs.{BucketsDb, new_buckets_db}
use otus_anti_bruteforce.Memory.Buckets.Defs as Buckets
use otus_anti_bruteforce.Memory.Subnets.Defs.{
  CidrSet, SubnetListDb, new_subnet_list_db, get_subnet_lists, save_subnet_list, clear_subnet_list,
  add_cidr_to_subnet_list, remove_cidr_from_subnet_list, memory_subnet_repo,
}
use otus_anti_bruteforce.Subnet.Policer.Defs.{SubnetPolicer, new_subnet_policer}
use otus_anti_bruteforce.Subnet.Policer.Defs as Policer
use otus_anti_bruteforce.RateLimit.Checker.{
  LimitsConfig, Limits, limits_from_config, new_limit_checker, limit_checker,
}
use otus_anti_bruteforce.App.Password.{hash_password}
use otus_anti_bruteforce.App.RateLimiter
use otus_anti_bruteforce.App.RateLimiter.{RateLimiterUseCase, rate_limiter_use_case}
use otus_anti_bruteforce.App.SubnetLists.{SubnetListUseCase, subnet_list_use_case}
use otus_anti_bruteforce.Adapters.LocalPublisher.{new_local_publisher}

-- `clock` is what `time.Now()` returns.
pub record World (IpNet : Type 0) : Type 0 where
  pub clock : ℤ
  pub buckets : BucketsDb
  pub subnets : SubnetListDb
  pub policer : SubnetPolicer IpNet

abbrev pub new_world : {IpNet : Type 0} → ℤ → World IpNet
new_world clock = record {
  clock = clock;
  buckets = new_buckets_db;
  subnets = new_subnet_list_db;
  policer = new_subnet_policer;
}

-- The orders in which the loops over Go maps run.
pub record LoopOrders (IpNet : Type 0) : Type 0 where
  pub cidrs : CidrSet → CidrSet
  pub nets : GoMap IpNet → GoMap IpNet
  pub limits : Limits → Limits

module _ {IpNet : Type 0} where
  -- An action on one part of the state.
  abbrev on_buckets : {A : Type 0} → Exec BucketsDb A → Exec (World IpNet) A
  on_buckets m w = let (r, b) = m w.buckets in (r, record w { buckets = b })

  abbrev on_subnets : {A : Type 0} → Exec SubnetListDb A → Exec (World IpNet) A
  on_subnets m w = let (r, db) = m w.subnets in (r, record w { subnets = db })

  abbrev pub limiter_repo : LimiterRepo (World IpNet)
  limiter_repo = record {
    allow = λ key limit window w. on_buckets (Buckets.allow w.clock key limit window) w;
    reset = λ key. on_buckets (Buckets.reset key);
  }

  abbrev pub subnet_repo : (CidrSet → CidrSet) → SubnetRepo (World IpNet)
  subnet_repo order = record {
    get_subnet_lists = λ l. on_subnets (get_subnet_lists order l);
    save_subnet_list = λ l cidrs. on_subnets (save_subnet_list l cidrs);
    clear_subnet_list = λ l. on_subnets (clear_subnet_list l);
    add_cidr_to_subnet_list = λ l cidr. on_subnets (add_cidr_to_subnet_list l cidr);
    remove_cidr_from_subnet_list = λ l cidr. on_subnets (remove_cidr_from_subnet_list l cidr);
  }

module _ (net : NetPackage) (orders : LoopOrders net.IpNet) where
  open net use {Ip, IpNet}

  abbrev pub reload : Exec (World IpNet) (Unit {0})
  reload w =
      let (r, (sp, db)) =
        Policer.reload_subnets net (memory_subnet_repo orders.cidrs) (w.policer, w.subnets) in
      (r, record w { policer = sp; subnets = db })

  abbrev pub subnet_policer : Ports.SubnetPolicer Ip (World IpNet)
  subnet_policer = record {
    check = λ ip w. Policer.check net orders.nets ip w.policer;
    reload_subnets = reload;
  }

  module _ (sum256 : Bytes → List ℕ) (cfg : LimitsConfig) where
    abbrev pub checker : Ports.LimitChecker (World IpNet)
    checker = limit_checker (new_limit_checker limiter_repo orders.limits (limits_from_config cfg))

    abbrev pub rate_limiter : RateLimiterUseCase Ip (World IpNet)
    rate_limiter = rate_limiter_use_case (hash_password sum256) net.ip_string subnet_policer checker

    abbrev pub init : Exec (World IpNet) (Unit {0})
    init = RateLimiter.init (hash_password sum256) net.ip_string subnet_policer checker

    abbrev pub subnet_lists : SubnetListUseCase (World IpNet)
    subnet_lists = subnet_list_use_case (subnet_repo orders.cidrs) (
        new_local_publisher
          (RateLimiter.reload_subnets (hash_password sum256) net.ip_string subnet_policer checker))
