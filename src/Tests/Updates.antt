-- ===== src/Tests/Updates.antt =====
-- A network goes onto the blacklist in the tables, and an instance hears of it.
use otus_anti_bruteforce.Base.{List, [], ◌∷◌, ok, ◌≡◌, refl, any}
use otus_anti_bruteforce.Base.Text.{beq}
use otus_anti_bruteforce.Domain.{ListType, whitelist, blacklist}
use otus_anti_bruteforce.Net.Go.{
  MaskedNet, go_parse_cidr, cut, prefix_length, decimal, is_digit, has_colon, parse_v4, octet,
  masked, go_ip_equal, and_bytes, cidr_mask,
}
use otus_anti_bruteforce.Ports.{SubnetRepo}
use otus_anti_bruteforce.Postgres
use otus_anti_bruteforce.Postgres.{postgres_subnet_repo}
use otus_anti_bruteforce.Postgres.Sql.{SubnetRow}
use otus_anti_bruteforce.Subnet.List.Defs.{load, load_texts, add_all, add, clear}
use otus_anti_bruteforce.Subnet.List.Coverage.{covers}
use otus_anti_bruteforce.Subnet.Policer.Defs.{check, reload_whitelist, reload_blacklist}
use otus_anti_bruteforce.Subnet.Policer.Reload.{policy}
use otus_anti_bruteforce.Adapters.Sync.{
  Instance, fresh, white_read, black_read, Reach, here, next, change, publish, take, read_white,
  read_black,
}
use otus_anti_bruteforce.Adapters.Sync.Agreement.{check-in_sync}
use otus_anti_bruteforce.Tests.Fixtures.{v4_net, office, office_ip, as_they_stand, stand_visits}
use otus_anti_bruteforce.Tests.Rows.{table, listed}

abbrev repo : SubnetRepo (List SubnetRow)
repo = postgres_subnet_repo table

answers :
    (l : ListType) (rows : List SubnetRow)
    → repo.get_subnet_lists l rows ≡ (ok (listed l rows), rows)
unfolding Postgres.get_subnet_lists
answers l rows = refl

abbrev office_row : List SubnetRow
office_row = record { cidr = office; list_type = blacklist } ∷ []

abbrev loaded_once : Instance MaskedNet (List SubnetRow)
loaded_once = black_read v4_net repo (white_read v4_net repo (fresh v4_net repo []))

abbrev changed : Instance MaskedNet (List SubnetRow)
changed = record loaded_once { tables = office_row; unpublished = 1 }

abbrev notified : Instance MaskedNet (List SubnetRow)
notified = record changed { unpublished = 0; queued = 1 }

abbrev taken : Instance MaskedNet (List SubnetRow)
taken = record notified { queued = 0; phase = otus_anti_bruteforce.Adapters.Sync.reading }

abbrev reloaded : Instance MaskedNet (List SubnetRow)
reloaded = black_read v4_net repo (white_read v4_net repo taken)

reloaded-reached : Reach v4_net repo loaded_once reloaded
unfolding reload_whitelist reload_blacklist load load_texts add_all clear Postgres.get_subnet_lists
    beq
reloaded-reached =
    next
      (next
        (next (next (next here (change loaded_once office_row)) (publish changed 0 refl))
          (take notified 0 refl refl))
        (read_white taken refl))
      (read_black (white_read v4_net repo taken) refl)

check-in_sync_example :
    check v4_net as_they_stand office_ip reloaded.policer
    ≡ policy
        (any (covers v4_net office_ip) (listed whitelist reloaded.tables))
        (any (covers v4_net office_ip) (listed blacklist reloaded.tables))
unfolding reload_whitelist reload_blacklist load load_texts add_all add clear
    Postgres.get_subnet_lists beq go_parse_cidr cut prefix_length decimal is_digit has_colon
    parse_v4 octet masked go_ip_equal and_bytes cidr_mask
check-in_sync_example =
    check-in_sync v4_net repo listed answers [] reloaded refl reloaded-reached refl refl refl
      as_they_stand office_ip stand_visits
