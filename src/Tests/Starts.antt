-- ===== src/Tests/Starts.antt =====
-- A start of the service in the local mode, with drivers of which every call fails.
use otus_anti_bruteforce.Base.{ℕ, ◌++◌, ok, err, foreign, ◌≡◌, refl}
use otus_anti_bruteforce.Base.Text.{Bytes, codes, beq}
use otus_anti_bruteforce.Base.GoMap.{lookup, insert}
use otus_anti_bruteforce.Net.Go.{IpBytes, MaskedNet}
use otus_anti_bruteforce.Config.{fill_defaults}
use otus_anti_bruteforce.Local.World.{World, rate_limiter, subnet_lists}
use otus_anti_bruteforce.Startup.{Drivers, Process, Started, start, started}
use otus_anti_bruteforce.Startup.LocalServer.{Outside, local_process, server-start}
use otus_anti_bruteforce.Subnet.Policer.Defs.{reload_subnets, reload_whitelist, reload_blacklist}
use otus_anti_bruteforce.Subnet.List.Defs.{load, load_texts, add_all, clear}
use otus_anti_bruteforce.Memory.Subnets.Defs.{get_subnet_lists}
use otus_anti_bruteforce.App.RateLimiter
use otus_anti_bruteforce.Delivery.Server.{new_server}
use otus_anti_bruteforce.Startup.Modes.{start_local}
use otus_anti_bruteforce.Tests.Fixtures.{v4_net, as_they_stand, orders, digest, fresh}
use otus_anti_bruteforce.Tests.Settings.{defaulted, config_of}

-- Every call of a driver fails.
abbrev pub broken : ℕ → Drivers (World MaskedNet)
broken e = record {
  sqlx = record {
    driver = record { ping = λ h w. (err (foreign e), w); close = λ h w. w };
    open_pgx = λ dsn w. (err (foreign e), w);
    set_max_open_conns = λ h n w. w;
    set_max_idle_conns = λ h n w. w;
    set_conn_max_lifetime = λ h n w. w;
    set_conn_max_idle_time = λ h n w. w;
  };
  redis = record {
    driver = record { ping = λ h w. (err (foreign e), w); close = λ h w. w };
    new_client = λ options w. (e, w);
  };
  database = λ h. record {
    select_context = λ q args w. (err (foreign e), w);
    exec_context = λ q args w. (err (foreign e), w);
    named_exec_context = λ q more w. (err (foreign e), w);
  };
  redis_client =
      λ h. record { exec = λ now cs w. (err (foreign e), w); del = λ key w. (err (foreign e), w) };
  publish = λ h channel message w. (err (foreign e), w);
}

abbrev pub join : Bytes → Bytes → Bytes
join host port = host ++ codes ":" ++ port

abbrev outside : Outside MaskedNet
outside = record {
  open_file = λ path w. (ok 9, w);
  close_file = λ f w. w;
  listen = λ addr w. (ok tt, w);
  random = λ w. (ok 7, w);
}

abbrev pub process : ℕ → Process MaskedNet (World MaskedNet)
process e = local_process v4_net orders digest join (broken e) outside (config_of defaulted)

start_local_example :
    start v4_net as_they_stand as_they_stand digest join
      (broken 1)
      (process 1)
      (config_of defaulted)
      fresh
    ≡ start v4_net as_they_stand as_they_stand digest join
        (broken 2)
        (process 1)
        (config_of defaulted)
        fresh
unfolding beq lookup fill_defaults insert
start_local_example =
    start_local v4_net as_they_stand as_they_stand digest join (process 1) (config_of defaulted)
      (broken 1) (broken 2) fresh refl

running_app :
    (app : Started IpBytes (World MaskedNet)) × ((start v4_net as_they_stand as_they_stand digest
        join
        (broken 1)
        (process 1)
        (config_of defaulted)
        fresh).0
      ≡ ok app)
unfolding start started beq RateLimiter.init reload_subnets reload_whitelist reload_blacklist load
    load_texts add_all clear get_subnet_lists lookup fill_defaults insert
running_app = (_, refl)

server-start_example :
    running_app.0.server
    ≡ new_server
        (rate_limiter v4_net orders digest (config_of defaulted).limits)
        (subnet_lists v4_net orders digest (config_of defaulted).limits)
unfolding beq lookup fill_defaults insert
server-start_example =
    server-start v4_net orders digest join (broken 1) outside (config_of defaulted) fresh
      running_app.0 refl running_app.1
