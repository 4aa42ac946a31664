-- ===== src/Tests/Attack.antt =====
-- An attack on a login, at concrete inputs.
use otus_anti_bruteforce.Base.{◌*◌, ◌≤◌, List, [], ◌∷◌, refl, arith}
use otus_anti_bruteforce.Base.Int.{pos, ◌-ℤ◌}
use otus_anti_bruteforce.Base.Text.{codes}
use otus_anti_bruteforce.Base.Time.{nanos_per_milli}
use otus_anti_bruteforce.Net.Go.{IpBytes}
use otus_anti_bruteforce.Memory.Buckets.Safety.{count_between}
use otus_anti_bruteforce.Local.Manage.{black, add_to}
use otus_anti_bruteforce.Local.Events.{Event, attempt, forget, change}
use otus_anti_bruteforce.Local.Trace.{let_through}
use otus_anti_bruteforce.Local.Bruteforce.{let_through_le_limit}
use otus_anti_bruteforce.Tests.Fixtures.{
  v4_net, home, office_ip, stand_visits, orders, config, digest, fresh,
}

-- Three passwords tried in three seconds, a reset of the address of another login, a change of the
-- blacklist, and a fourth password a minute later.
abbrev attack : List (Event IpBytes)
attack =
    attempt (pos (1000 * nanos_per_milli)) (codes "ann") (codes "a") office_ip
    ∷ attempt (pos (2000 * nanos_per_milli)) (codes "ann") (codes "b") office_ip
    ∷ attempt (pos (3000 * nanos_per_milli)) (codes "ann") (codes "c") office_ip
    ∷ forget (codes "bob") (codes "x") office_ip
    ∷ change (add_to black home)
    ∷ attempt (pos (62000 * nanos_per_milli)) (codes "ann") (codes "d") office_ip
    ∷ []

let_through_le_limit_example :
    count_between
      (pos 61000 -ℤ pos 60000)
      (pos 61000)
      (let_through v4_net orders digest config (codes "ann") [] attack fresh)
    ≤ 2
let_through_le_limit_example =
    let_through_le_limit v4_net orders digest config stand_visits (codes "ann") 2 60000 attack
      (pos 0) (omega arith) refl refl (omega arith) (pos 61000)
