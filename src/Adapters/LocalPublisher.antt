-- ===== src/Adapters/LocalPublisher.antt =====
-- internal/adapters/subnetupdatepublisher/local_publisher.go: the holder is reloaded at once.
use otus_anti_bruteforce.Base.{Exec}
use otus_anti_bruteforce.Ports.{SubnetUpdatesPublisher}

module _ {S : Type 0} (reload_subnets : Exec S (Unit {0})) where
  unfoldable pub publish_subnet_updated : Exec S (Unit {0})
  publish_subnet_updated = reload_subnets

  abbrev pub new_local_publisher : SubnetUpdatesPublisher S
  new_local_publisher = record { publish_subnet_updated = publish_subnet_updated }
