-- ===== src/Tests/Edges.antt =====
-- The theorems on the client, the interceptor and the subscriber, at concrete inputs.
use otus_anti_bruteforce.Base.{
  true, List, [], ◌∷◌, some, ok, err, Error, Exec, pure, ◌≡◌, refl, if◌then◌else◌,
}
use otus_anti_bruteforce.Base.Int.{pos}
use otus_anti_bruteforce.Base.Text.{Bytes, codes}
use otus_anti_bruteforce.Net.Go.{IpBytes, MaskedNet, computing}
use otus_anti_bruteforce.Memory.Buckets.Timelines.{times_of}
use otus_anti_bruteforce.Delivery.Server as Server
use otus_anti_bruteforce.Delivery.Server.{err_invalid_ip}
use otus_anti_bruteforce.Subnet.Policer.Defs.{
  SubnetPolicer, new_subnet_policer, check, reload_subnets,
}
use otus_anti_bruteforce.Subnet.Policer.Reload.{policy, new_policer-IsWired}
use otus_anti_bruteforce.Subnet.List.Coverage.{network}
use otus_anti_bruteforce.Client.{Client, Stub}
use otus_anti_bruteforce.Client.Commands
use otus_anti_bruteforce.Client.Commands.{run}
use otus_anti_bruteforce.Client.Served.{carried, Carries, server, run-check, run-reset}
use otus_anti_bruteforce.Meta.{Context, with_user_id}
use otus_anti_bruteforce.Adapters.Redis.{message, start, is_waiting, start_message}
use otus_anti_bruteforce.Local.World.{World, rate_limiter}
use otus_anti_bruteforce.Local.Limits.{bucket_of, times_of-reset_attempt}
use otus_anti_bruteforce.Ports.{SubnetRepo}
use otus_anti_bruteforce.Tests.Fixtures.{
  v4_net, office, office_ip, as_they_stand, stand_visits, orders, config, digest, fresh,
}

times_of-reset_attempt_example :
    let (r, w') =
      (rate_limiter v4_net orders digest config).reset (codes "ann") (codes "pw") office_ip fresh in
    (r ≡ ok tt)
    × ((k : Bytes)
        → times_of w'.buckets k ≡ (
            if bucket_of v4_net digest (codes "ann") (codes "pw") office_ip k
            then []
            else times_of fresh.buckets k))
times_of-reset_attempt_example =
    times_of-reset_attempt v4_net orders stand_visits digest config (codes "ann") (codes "pw")
      office_ip fresh

-- a connection that hands every request to the server, and an error as it is
abbrev pub direct : Error → Error
direct e = e

abbrev pub srv : Server.Server IpBytes (World MaskedNet)
srv = server v4_net orders digest config

abbrev pub direct_stub : Stub (World MaskedNet)
direct_stub = record {
  check_attempt = λ req s. carried direct (Server.check_attempt v4_net srv req s);
  reset_bucket = λ req s. carried direct (Server.reset_bucket v4_net srv req s);
  add_to_whitelist = λ req s. carried direct (Server.add_to_whitelist v4_net srv req s);
  remove_from_whitelist = λ req s. carried direct (Server.remove_from_whitelist v4_net srv req s);
  add_to_blacklist = λ req s. carried direct (Server.add_to_blacklist v4_net srv req s);
  remove_from_blacklist = λ req s. carried direct (Server.remove_from_blacklist v4_net srv req s);
}

abbrev pub served : Carries v4_net direct srv direct_stub
served = record {
  check_attempt = λ req s. refl;
  reset_bucket = λ req s. refl;
  add_to_whitelist = λ req s. refl;
  remove_from_whitelist = λ req s. refl;
  add_to_blacklist = λ req s. refl;
  remove_from_blacklist = λ req s. refl;
}

abbrev ctl : Client (Unit {0}) (World MaskedNet)
ctl = record { conn = some tt; client = direct_stub }

run-check_example :
    run (Commands.check (codes "ann") (codes "pw") (codes "no address")) ctl fresh
    ≡ (err err_invalid_ip, fresh)
unfolding computing
run-check_example =
    run-check v4_net orders digest config direct ctl served fresh (codes "ann") (codes "pw")
      (codes "no address")

run-reset_example :
    ((run (Commands.reset (codes "ann") (codes "192.168.1.7")) ctl fresh).0 ≡ ok [])
    × ((k : Bytes)
        → times_of (run (Commands.reset (codes "ann") (codes "192.168.1.7")) ctl fresh).1.buckets k
          ≡ (if bucket_of v4_net digest (codes "ann") [] office_ip k
              then []
              else times_of fresh.buckets k))
unfolding computing
run-reset_example =
    run-reset v4_net orders digest config direct ctl served fresh (codes "ann")
      (codes "192.168.1.7") office_ip stand_visits refl

-- a context with a user, and a request without the header
abbrev called : Context
called = with_user_id [] (pos 7)

abbrev keep : Context → Exec (List Bytes) Context
keep = pure

abbrev record_header : Bytes → Bytes → List Bytes → List Bytes
record_header name id seen = name ∷ id ∷ seen

-- a database that answers both reads
abbrev rows : SubnetRepo (Unit {0})
rows = record {
  get_subnet_lists = λ l s. (ok (office ∷ []), s);
  save_subnet_list = λ l cidrs s. (ok tt, s);
  clear_subnet_list = λ l s. (ok tt, s);
  add_cidr_to_subnet_list = λ l cidr s. (ok tt, s);
  remove_cidr_from_subnet_list = λ l cidr s. (ok tt, s);
}

abbrev policer : SubnetPolicer MaskedNet
policer = new_subnet_policer

start_message_example :
    let (stopped, s) = start (reload_subnets v4_net rows) (message ∷ []) (policer, tt) in
    (is_waiting stopped ≡ true) × (check v4_net as_they_stand office_ip s.0 ≡ policy true true)
unfolding computing network
start_message_example =
    start_message v4_net rows policer (new_policer-IsWired v4_net) tt tt tt (office ∷ [])
      (office ∷ []) as_they_stand office_ip refl refl stand_visits
