-- ===== src/App/SubnetLists.antt =====
-- internal/app/subnetlist_service.go: a change of a list, and the news of it.
use otus_anti_bruteforce.Base.{Exec, wrapping, ◌>>◌}
use otus_anti_bruteforce.Base.Text.{Bytes, codes}
use otus_anti_bruteforce.Domain.{whitelist, blacklist}
use otus_anti_bruteforce.Ports.{SubnetRepo, SubnetUpdatesPublisher}

pub record SubnetListUseCase (S : Type 0) : Type 0 where
  pub add_to_whitelist : Bytes → Exec S (Unit {0})
  pub add_to_blacklist : Bytes → Exec S (Unit {0})
  pub remove_from_whitelist : Bytes → Exec S (Unit {0})
  pub remove_from_blacklist : Bytes → Exec S (Unit {0})

module _ {S : Type 0} (repo : SubnetRepo S) (publisher : SubnetUpdatesPublisher S) where
  abbrev publish : Exec S (Unit {0})
  publish s = wrapping (codes "publish subnet update") (publisher.publish_subnet_updated s)

  unfoldable pub add_to_whitelist : Bytes → Exec S (Unit {0})
  add_to_whitelist cidr = do
    λ s. wrapping (codes "add to whitelist subnet") (repo.add_cidr_to_subnet_list whitelist cidr s)
    publish

  unfoldable pub add_to_blacklist : Bytes → Exec S (Unit {0})
  add_to_blacklist cidr = do
    λ s. wrapping (codes "add to blacklist subnet") (repo.add_cidr_to_subnet_list blacklist cidr s)
    publish

  unfoldable pub remove_from_whitelist : Bytes → Exec S (Unit {0})
  remove_from_whitelist cidr = do
    λ s.
        wrapping (codes "remove from whitelist subnet")
          (repo.remove_cidr_from_subnet_list whitelist cidr s)
    publish

  unfoldable pub remove_from_blacklist : Bytes → Exec S (Unit {0})
  remove_from_blacklist cidr = do
    λ s.
        wrapping (codes "remove from blacklist subnet")
          (repo.remove_cidr_from_subnet_list blacklist cidr s)
    publish

  abbrev pub subnet_list_use_case : SubnetListUseCase S
  subnet_list_use_case = record {
    add_to_whitelist = add_to_whitelist;
    add_to_blacklist = add_to_blacklist;
    remove_from_whitelist = remove_from_whitelist;
    remove_from_blacklist = remove_from_blacklist;
  }
