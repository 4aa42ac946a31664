-- ===== src/Ports.antt =====
-- internal/ports: the interfaces between the services and their adapters, over the state `S` of
-- whatever stands behind them. A `context.Context` is only handed on, and is left out.
use otus_anti_bruteforce.Base.{Bool, List, Exec}
use otus_anti_bruteforce.Base.Int.{ℤ}
use otus_anti_bruteforce.Base.Text.{Bytes}
use otus_anti_bruteforce.Domain.{ListType, LimitType, PolicyDecision}

pub record LimiterRepo (S : Type 0) : Type 0 where
  -- the key, the limit and the window, in nanoseconds
  pub allow : Bytes → ℤ → ℤ → Exec S Bool
  pub reset : Bytes → Exec S (Unit {0})

pub record LimitChecker (S : Type 0) : Type 0 where
  pub allow : LimitType → Bytes → Exec S Bool
  pub reset : LimitType → Bytes → Exec S (Unit {0})

pub record SubnetRepo (S : Type 0) : Type 0 where
  pub get_subnet_lists : ListType → Exec S (List Bytes)
  pub save_subnet_list : ListType → List Bytes → Exec S (Unit {0})
  pub clear_subnet_list : ListType → Exec S (Unit {0})
  pub add_cidr_to_subnet_list : ListType → Bytes → Exec S (Unit {0})
  pub remove_cidr_from_subnet_list : ListType → Bytes → Exec S (Unit {0})

pub record SubnetPolicer (Ip S : Type 0) : Type 0 where
  pub check : Ip → S → PolicyDecision
  pub reload_subnets : Exec S (Unit {0})

pub record SubnetUpdatesPublisher (S : Type 0) : Type 0 where
  pub publish_subnet_updated : Exec S (Unit {0})
