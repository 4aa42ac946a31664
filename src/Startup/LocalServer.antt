-- ===== src/Startup/LocalServer.antt =====
-- What `run` of cmd/anti-bruteforce/main.go registers in the local mode is the service of
-- Local/World.
use otus_anti_bruteforce.Base.{
  ℕ, true, List, Result, ok, err, Exec, ◌>>=◌, wrapping, Yields, bind-Yields, pure-Yields, ◌≡◌,
  refl, sym, ap, ◌∙◌, Option-cases, Result-cases, inl, inr,
}
use otus_anti_bruteforce.Base.Text.{Bytes, codes, beq}
use otus_anti_bruteforce.Net.{NetPackage}
use otus_anti_bruteforce.Ports.{SubnetRepo}
use otus_anti_bruteforce.Config.{Config}
use otus_anti_bruteforce.Memory.Subnets.Defs.{memory_subnet_repo}
use otus_anti_bruteforce.Subnet.List.Defs.{SubnetList, load, load_texts}
use otus_anti_bruteforce.Subnet.Policer.Defs.{
  SubnetPolicer, reload_whitelist, reload_blacklist, reload_subnets,
}
use otus_anti_bruteforce.Delivery.Server.{Server, new_server}
use otus_anti_bruteforce.Local.World.{
  subnet_policer, checker, World, LoopOrders, limiter_repo, subnet_repo, reload, rate_limiter,
  subnet_lists,
}
use otus_anti_bruteforce.Startup
use otus_anti_bruteforce.Startup.Modes.{
  local_app, local_loaded, local_start, listened, started_local, result-or_close,
}
use otus_anti_bruteforce.App.Password.{hash_password}
use otus_anti_bruteforce.App.RateLimiter
use otus_anti_bruteforce.App.RateLimiter.{rate_limiter_use_case}
use otus_anti_bruteforce.App.SubnetLists.{subnet_list_use_case}
use otus_anti_bruteforce.Adapters.LocalPublisher.{new_local_publisher}
use otus_anti_bruteforce.Subnet.Policer.Defs as Policer
use otus_anti_bruteforce.Startup.{Drivers, Process, Started, start}

-- Two calls that do the same, seen through a map between their states.
abbrev Maps : {S T A : Type 0} → (S → T) → Exec S A → Exec T A → Type 0
Maps {S = S} g m n = (s : S) → n (g s) ≡ ((m s).0, g (m s).1)

bind-Maps :
    {S T A B : Type 0} (g : S → T) (m : Exec S A) (n : Exec T A) (f : A → Exec S B)
    (k : A → Exec T B)
    → Maps g m n
    → ((a : A) → Maps g (f a) (k a))
    → Maps g (m >>= f) (n >>= k)
bind-Maps g m n f k h j s = elim (Result-cases (m s).0) [
  | inl (a, e) ↦ rw (h s, e) (j a (m s).1)
  | inr (d, e) ↦ rw (h s, e) refl
]

wrapping_map :
    {S T A : Type 0} (g : S → T) (msg : Bytes) (r : Result A) (s : S)
    → wrapping msg (r, g s) ≡ ((wrapping msg (r, s)).0, g (wrapping msg (r, s)).1)
wrapping_map g msg (ok a) s = refl
wrapping_map g msg (err e) s = refl

module _ (net : NetPackage) {R T : Type 0} (g : R → T) (repo : SubnetRepo R) (lifted : SubnetRepo T)
    (same : (l : Bytes) → Maps g (repo.get_subnet_lists l) (lifted.get_subnet_lists l)) where
  open net use {IpNet}

  load_texts-Maps :
      (nl : SubnetList IpNet) (x : Result (List Bytes)) (r : R)
      → load_texts net nl (x, g r) ≡ (
        (load_texts net nl (x, r)).0,
        ((load_texts net nl (x, r)).1.0, g (load_texts net nl (x, r)).1.1),
      )
  unfolding load_texts
  load_texts-Maps nl (ok cidrs) r = refl
  load_texts-Maps nl (err e) r = refl

  load-Maps : Maps (λ (x : SubnetList IpNet × R). (x.0, g x.1)) (load net repo) (load net lifted)
  unfolding load
  load-Maps (nl, r) = ap (load_texts net nl) (same nl.list_type r) ∙ load_texts-Maps nl _ _

  abbrev at_policer : SubnetPolicer IpNet × R → SubnetPolicer IpNet × T
  at_policer x = (x.0, g x.1)

  reload_whitelist-Maps : Maps at_policer (reload_whitelist net repo) (reload_whitelist net lifted)
  unfolding reload_whitelist
  reload_whitelist-Maps (sp, r) = elim (Option-cases sp.whitelist) [
    | inl nil_list ↦ rw (reload_whitelist, nil_list) refl
    | inr (nl, there) ↦
        rw (reload_whitelist, there)
          (rw (load-Maps (nl, r))
            (wrapping_map at_policer (codes "update whitelist") (load net repo (nl, r)).0 _))
  ]

  reload_blacklist-Maps : Maps at_policer (reload_blacklist net repo) (reload_blacklist net lifted)
  unfolding reload_blacklist
  reload_blacklist-Maps (sp, r) = elim (Option-cases sp.blacklist) [
    | inl nil_list ↦ rw (reload_blacklist, nil_list) refl
    | inr (nl, there) ↦
        rw (reload_blacklist, there)
          (rw (load-Maps (nl, r))
            (wrapping_map at_policer (codes "update blacklist") (load net repo (nl, r)).0 _))
  ]

  reload_subnets-Maps : Maps at_policer (reload_subnets net repo) (reload_subnets net lifted)
  unfolding reload_subnets
  reload_subnets-Maps =
      bind-Maps at_policer (reload_whitelist net repo) (reload_whitelist net lifted)
        (λ _. reload_blacklist net repo) (λ _. reload_blacklist net lifted) reload_whitelist-Maps
        (λ _. reload_blacklist-Maps)

-- The rest of the process, around the state of Local/World.
pub record Outside (IpNet : Type 0) : Type 0 where
  pub open_file : Bytes → Exec (World IpNet) ℕ
  pub close_file : ℕ → World IpNet → World IpNet
  pub listen : Bytes → Exec (World IpNet) (Unit {0})
  pub random : World IpNet → Result ℕ × World IpNet

module _ (net : NetPackage) (orders : LoopOrders net.IpNet) (sum256 : Bytes → List ℕ)
    (join_host_port : Bytes → Bytes → Bytes) (drivers : Drivers (World net.IpNet))
    (outside : Outside net.IpNet) (cfg : Config) where
  open net use {Ip, IpNet}

  -- The memory of the process: the stores and the policer of Local/World.
  abbrev pub local_process : Process IpNet (World IpNet)
  local_process = record {
    open_file = outside.open_file;
    close_file = outside.close_file;
    listen = outside.listen;
    clock = λ w. w.clock;
    random = outside.random;
    memory_subnets = subnet_repo orders.cidrs;
    memory_buckets = limiter_repo;
    policer_of = λ w. w.policer;
    set_policer = λ sp w. record w { policer = sp };
  }

  reload-local :
      (w : World IpNet)
      → Startup.reload net orders.nets orders.limits sum256 join_host_port drivers local_process cfg
          (subnet_repo orders.cidrs)
          limiter_repo
          w
        ≡ reload net orders w
  reload-local w =
      ap (λ x. (x.0, record x.1.1 { policer = x.1.0 }))
        (reload_subnets-Maps net (λ db. record w { subnets = db }) (memory_subnet_repo orders.cidrs)
          (subnet_repo orders.cidrs) (λ l db. refl) (w.policer, w.subnets))

  policer-local :
      Startup.subnet_policer net orders.nets orders.limits sum256 join_host_port drivers
        local_process cfg
        (subnet_repo orders.cidrs)
        limiter_repo
      ≡ subnet_policer net orders
  policer-local i = record {
    check = λ ip w. Policer.check net orders.nets ip w.policer;
    reload_subnets = λ w. reload-local w i;
  }

  abbrev pub local_server : Server Ip (World IpNet)
  local_server =
      new_server (rate_limiter net orders sum256 cfg.limits)
        (subnet_lists net orders sum256 cfg.limits)

  server-local :
      (local_app net orders.nets orders.limits sum256 join_host_port local_process cfg
        drivers).server
      ≡ local_server
  server-local =
      ap
        (λ policer.
          new_server
            (rate_limiter_use_case (hash_password sum256) net.ip_string policer
              (checker net orders sum256 cfg.limits))
            (subnet_list_use_case (subnet_repo orders.cidrs) (
              new_local_publisher (
                RateLimiter.reload_subnets (hash_password sum256) net.ip_string policer
                  (checker net orders sum256 cfg.limits)))))
        policer-local

  abbrev IsLocal : Started Ip (World IpNet) → Type 0
  IsLocal app = app.server ≡ local_server

  local_start-Yields :
      Yields IsLocal
        (local_start net orders.nets orders.limits sum256 join_host_port local_process cfg drivers)
  local_start-Yields =
      bind-Yields IsLocal
        (local_loaded net orders.nets orders.limits sum256 join_host_port local_process cfg drivers)
        _
        (λ _.
          bind-Yields IsLocal
            (listened net orders.nets orders.limits sum256 join_host_port local_process cfg drivers)
            _
            (λ _.
              pure-Yields IsLocal
                (local_app net orders.nets orders.limits sum256 join_host_port local_process cfg
                  drivers)
                server-local))

  -- In the local mode, over a process whose memory holds the stores and the policer of Local/World,
  -- a start that succeeds has registered the server of just the two services that Local/World
  -- describes, with the limits of the configuration.
  pub server-start :
      (w : World IpNet) (app : Started Ip (World IpNet))
      → beq cfg.database.workmode (codes "local") ≡ true
      → (start net orders.nets orders.limits sum256 join_host_port drivers local_process cfg w).0
        ≡ ok app
      → app.server
        ≡ new_server
            (rate_limiter net orders sum256 cfg.limits)
            (subnet_lists net orders sum256 cfg.limits)
  unfolding start
  server-start w app local_mode =
      bind-Yields IsLocal
        (Startup.opened_log net orders.nets orders.limits sum256 join_host_port drivers
          local_process cfg)
        _
        (λ log s a e. local_start-Yields s a (
          ap (λ x. x.0)
            (sym (
              started_local net orders.nets orders.limits sum256 join_host_port local_process cfg
                drivers local_mode s))
          ∙ sym (
              result-or_close net orders.nets orders.limits sum256 join_host_port local_process cfg
                drivers log _ _)
          ∙ e))
        w app
