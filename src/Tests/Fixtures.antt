-- ===== src/Tests/Fixtures.antt =====
-- Texts, orders and states for the tests: IPv4 only, maps visited as they stand, and a digest that
-- keeps the bytes of its input.
use mathlib.Core.List.Perm
use otus_anti_bruteforce.Base.{ℕ, ◌*◌, ◌%◌, none, List, [], ◌∷◌, ◌++◌, map}
use otus_anti_bruteforce.Base.Int.{pos}
use otus_anti_bruteforce.Base.Text.{Bytes, codes}
use otus_anti_bruteforce.Base.Time.{nanos_per_milli}
use otus_anti_bruteforce.Base.GoMap.{GoMap, Visits}
use otus_anti_bruteforce.Net.{NetPackage}
use otus_anti_bruteforce.Net.Go.{IpBytes, MaskedNet, v4_in_v6, go_net}
use otus_anti_bruteforce.RateLimit.Checker.{LimitsConfig}
use otus_anti_bruteforce.Local.World.{World, LoopOrders, new_world}

abbrev pub v4_net : NetPackage
v4_net = go_net (λ s. none) (λ ip. [])

abbrev pub office : Bytes
office = codes "192.168.1.0/24"

abbrev pub home : Bytes
home = codes "10.0.0.0/8"

-- an address inside its network, which is no network itself
abbrev pub host_text : Bytes
host_text = codes "192.168.1.7/24"

abbrev pub office_ip : IpBytes
office_ip = v4_in_v6 ++ 192 ∷ 168 ∷ 1 ∷ 7 ∷ []

abbrev pub as_they_stand {ℓ} : {V : Type ℓ} → GoMap V → GoMap V
as_they_stand m = m

abbrev pub stand_visits {ℓ} : {V : Type ℓ} → Visits {V = V} as_they_stand
stand_visits m = Perm.refl m

abbrev pub orders : LoopOrders MaskedNet
orders = record { cidrs = as_they_stand; nets = as_they_stand; limits = as_they_stand }

abbrev pub digest : Bytes → List ℕ
digest = map (λ b. b % 256)

-- two attempts on a login and three on a password or an address, in a minute
abbrev pub config : LimitsConfig
config = record {
  login_attempts = pos 2;
  password_attempts = pos 3;
  ip_attempts = pos 3;
  window = pos (60000 * nanos_per_milli);
}

abbrev pub fresh : World MaskedNet
fresh = new_world (pos 0)
