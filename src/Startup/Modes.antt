-- ===== src/Startup/Modes.antt =====
-- What `run` of cmd/anti-bruteforce/main.go makes of the mode of the configuration.
use otus_anti_bruteforce.Base.{
  ℕ, Bool, true, false, not, List, Option, none, some, Result, ok, err, Exec, pure, ◌>>=◌, ◌>>◌,
  bind_ext, pure-Yields, wrapping-Yields, Yields, bind-Yields, bind-Yields_of, ◌≡◌, refl, ap, sym,
  ◌∙◌, Bool-cases, inl, inr,
}
use otus_anti_bruteforce.Base.Text.{Bytes, codes, beq}
use otus_anti_bruteforce.Base.GoMap.{GoMap}
use otus_anti_bruteforce.Net.{NetPackage}
use otus_anti_bruteforce.Ports.{SubnetUpdatesPublisher}
use otus_anti_bruteforce.Config.{Config}
use otus_anti_bruteforce.RateLimit.Checker.{Limits}
use otus_anti_bruteforce.Factory.{new_client_subscriber}
use otus_anti_bruteforce.Startup.{
  service_reload, chosen_limit_repo, loaded, listening, registered, local_publisher,
  chosen_subnet_repo, policer_client, chosen_subscriber, chosen_publisher, Drivers, Process,
  Started, opened_log, or_close, started, start,
}

abbrev is_some : {A : Type 0} → Option A → Bool
is_some none = false
is_some (some a) = true

abbrev some_result : {A : Type 0} → Result (Option A) → Bool
some_result (ok o) = is_some o
some_result (err e) = false

abbrev pub is_subscribed : {Ip S : Type 0} → Started Ip S → Bool
is_subscribed app = is_some app.subscriber

module _ (net : NetPackage) (nets : GoMap net.IpNet → GoMap net.IpNet) (order : Limits → Limits)
    (sum256 : Bytes → List ℕ) (join_host_port : Bytes → Bytes → Bytes) {S : Type 0}
    (process : Process net.IpNet S) (cfg : Config) where
  module _ (drivers : Drivers S) where
    abbrev pub local_loaded : Exec S (Unit {0})
    local_loaded =
        loaded net nets order sum256 join_host_port drivers process cfg process.memory_subnets
          process.memory_buckets

    abbrev pub local_publication : SubnetUpdatesPublisher S
    local_publication =
        local_publisher net nets order sum256 join_host_port drivers process cfg
          process.memory_subnets process.memory_buckets

    abbrev pub listened : Exec S (Unit {0})
    listened = listening net nets order sum256 join_host_port drivers process cfg

    abbrev pub local_app : Started net.Ip S
    local_app = record {
      server =
          registered net nets order sum256 join_host_port drivers process cfg process.memory_subnets
            process.memory_buckets local_publication;
      subscriber = none;
      reload_subnets =
          service_reload net nets order sum256 join_host_port drivers process cfg
            process.memory_subnets process.memory_buckets;
    }

    -- The start over the memory stores, without the drivers.
    abbrev pub local_start : Exec S (Started net.Ip S)
    local_start = do local_loaded; listened; pure local_app

    pub started_local :
        beq cfg.database.workmode (codes "local") ≡ true
        → (s : S)
        → started net nets order sum256 join_host_port drivers process cfg s ≡ local_start s
    unfolding started
    started_local local_mode s =
        rw (started, local_mode)
          (rw local_mode (bind_ext local_loaded _ _ s (λ _ s'. rw local_mode refl)))

  -- In the local mode the start of the service, its result and what it does to the process, is the
  -- same whatever the drivers of PostgreSQL and Redis do: it does not call them.
  pub start_local :
      (drivers drivers' : Drivers S) (s : S)
      → beq cfg.database.workmode (codes "local") ≡ true
      → start net nets order sum256 join_host_port drivers process cfg s
        ≡ start net nets order sum256 join_host_port drivers' process cfg s
  unfolding start
  start_local drivers drivers' s local_mode =
      bind_ext (opened_log net nets order sum256 join_host_port drivers process cfg) _ _ s
        (λ log s'.
          ap (or_close net nets order sum256 join_host_port drivers process cfg log)
            (started_local drivers local_mode s' ∙ sym (started_local drivers' local_mode s')))

  module _ (drivers : Drivers S) where
    abbrev mode : Bool
    mode = beq cfg.database.workmode (codes "local")

    subscriber-Yields :
        Yields
          (λ client. is_some client ≡ not mode)
          (chosen_subscriber net nets order sum256 join_host_port drivers process cfg)
    subscriber-Yields s client = elim (Bool-cases mode) [
      | inl local_mode ↦ rw local_mode (λ e. ap some_result (sym e))
      | inr external ↦ rw external (
          wrapping-Yields (λ client. is_some client ≡ true)
            (codes "failed to initialize Redis client for subscriber")
            (new_client_subscriber drivers.redis cfg.database >>= λ c.
              pure (some (c, cfg.database.redis.subscriber.subnets_channel)))
            (bind-Yields (λ client. is_some client ≡ true)
              (new_client_subscriber drivers.redis cfg.database) _
              (λ c.
                pure-Yields (λ client. is_some client ≡ true)
                  (some (c, cfg.database.redis.subscriber.subnets_channel)) refl))
            s client)
    ]

    started-Yields :
        Yields
          (λ app. is_subscribed app ≡ not mode)
          (started net nets order sum256 join_host_port drivers process cfg)
    unfolding started
    started-Yields =
        let P = λ (app : Started net.Ip S). is_subscribed app ≡ not mode in
        bind-Yields P (chosen_subnet_repo net nets order sum256 join_host_port drivers process cfg)
          _
          (λ repo.
            bind-Yields P (policer_client net nets order sum256 join_host_port drivers process cfg)
              _
              (λ client.
                bind-Yields P
                  (loaded net nets order sum256 join_host_port drivers process cfg repo (
                    chosen_limit_repo net nets order sum256 join_host_port drivers process cfg
                      client))
                  _
                  (λ _.
                    bind-Yields_of P (λ client. is_some client ≡ not mode)
                      (chosen_subscriber net nets order sum256 join_host_port drivers process cfg) _
                      subscriber-Yields
                      (λ subscriber subscribed.
                        bind-Yields P
                          (chosen_publisher net nets order sum256 join_host_port drivers process cfg
                            (local_publisher net nets order sum256 join_host_port drivers process
                              cfg repo
                              (chosen_limit_repo net nets order sum256 join_host_port drivers
                                process cfg client))
                            client)
                          _
                          (λ publisher.
                            bind-Yields P
                              (listening net nets order sum256 join_host_port drivers process cfg) _
                              (λ _. pure-Yields P _ subscribed))))))

    pub result-or_close :
        (log : Option ℕ) (r : Result (Started net.Ip S)) (s : S)
        → (or_close net nets order sum256 join_host_port drivers process cfg log (r, s)).0 ≡ r
    result-or_close none r s = refl
    result-or_close (some f) (ok app) s = refl
    result-or_close (some f) (err e) s = refl

    -- If the start of the service succeeds, it has a client for the subscriber just if the mode is
    -- not the local one.
    pub start-subscribed :
        (s : S) (app : Started net.Ip S)
        → (start net nets order sum256 join_host_port drivers process cfg s).0 ≡ ok app
        → is_subscribed app ≡ not (beq cfg.database.workmode (codes "local"))
    unfolding start
    start-subscribed =
        bind-Yields (λ app. is_subscribed app ≡ not mode)
          (opened_log net nets order sum256 join_host_port drivers process cfg) _
          (λ log s app e. started-Yields s app (sym (result-or_close log _ _) ∙ e))
