-- ===== src/Startup/Program.antt =====
-- `run` as a whole and `main` of cmd/anti-bruteforce/main.go: the start, the goroutines in an order
-- that is a parameter, the log file, and the exit code.
use otus_anti_bruteforce.Base.{
  ℕ, Bool, true, List, Option, none, some, Result, ok, err, Exec, ◌>>=◌, bind_ok, bind_err, is_ok,
  is_ok-bind, ◌≡◌, refl, sym, ap, ◌∙◌, Result-cases, Bool-cases, inl, inr, if◌then◌else◌,
}
use otus_anti_bruteforce.Base.Text.{Bytes, codes, beq}
use otus_anti_bruteforce.Base.GoMap.{GoMap}
use otus_anti_bruteforce.Net.{NetPackage}
use otus_anti_bruteforce.Config.{Config, Viper, Files, load_config}
use otus_anti_bruteforce.RateLimit.Checker.{Limits}
use otus_anti_bruteforce.Startup.{Drivers, Process, Started, opened_log, started, start}
use otus_anti_bruteforce.Startup.Modes.{is_subscribed, result-or_close}
use otus_anti_bruteforce.Startup.Serving.{
  Errgroup, GrpcServer, Serving, Reach, launched, waited, result,
}
use otus_anti_bruteforce.Startup.Serving.Graceful.{is_calm, result_calm}

-- The flag `-config`, with its default.
unfoldable pub config_file_of : Option Bytes → Bytes
config_file_of none = codes "/etc/anti-bruteforce/config.yaml"
config_file_of (some path) = path

-- An order of the steps of the goroutines, from their launch until `Wait` returns.
abbrev pub Finishes :
    {G V S : Type 0} → Errgroup G → GrpcServer V → Exec S (Unit {0}) → Bool → S → Type 0
Finishes {G} {V} {S} errgroup grpc reload has_subscriber w =
    (t : Serving G V S) × Reach errgroup grpc reload (launched errgroup grpc has_subscriber w) t
    × (waited t ≡ true)

module _ (net : NetPackage) (nets : GoMap net.IpNet → GoMap net.IpNet) (order : Limits → Limits)
    (sum256 : Bytes → List ℕ) (join_host_port : Bytes → Bytes → Bytes) {S : Type 0}
    (drivers : Drivers S) (process : Process net.IpNet S) {G V : Type 0} (errgroup : Errgroup G)
    (grpc : GrpcServer V) (library : ℕ → Bool)
    (finishes : (app : Started net.Ip S) (w : S)
      → Finishes errgroup grpc app.reload_subnets (is_subscribed app) w) where
  abbrev pub served : Started net.Ip S → Exec S (Unit {0})
  served app s = let (t, steps, all_over) = finishes app s in (result errgroup library t, t.world)

  -- `defer f.Close()`
  abbrev pub closing_log : Option ℕ → Result (Unit {0}) × S → Result (Unit {0}) × S
  closing_log none x = x
  closing_log (some f) (r, s) = (r, process.close_file f s)

  unfoldable pub run : Config → Exec S (Unit {0})
  run cfg = do
    log ← opened_log net nets order sum256 join_host_port drivers process cfg
    λ s.
        closing_log log
          ((started net nets order sum256 join_host_port drivers process cfg >>= served) s)

  -- The code that the process exits with.
  abbrev pub code_of : Result (Unit {0}) × S → ℕ × S
  code_of (ok _, s) = (0, s)
  code_of (err e, s) = (1, s)

  -- `config_file` is the flag `-config`, and `arg` the first argument after the flags.
  unfoldable pub main : {W : Type 0} → Viper W → Files → Option Bytes → Bytes → S → ℕ × S
  unfolding run
  main viper files config_file arg s =
      if beq arg (codes "version")
      then (0, s)
      else elim (load_config viper files (config_file_of config_file)) [
        | err e ↦ (1, s)
        | ok cfg ↦ code_of (run cfg s)
      ]

  result-closing_log : (log : Option ℕ) (x : Result (Unit {0}) × S) → (closing_log log x).0 ≡ x.0
  result-closing_log none x = refl
  result-closing_log (some f) (r, s) = refl

  abbrev logged : Config → Exec S (Option ℕ)
  logged cfg = opened_log net nets order sum256 join_host_port drivers process cfg

  abbrev launching : Config → Exec S (Started net.Ip S)
  launching cfg = started net nets order sum256 join_host_port drivers process cfg

  -- If the start succeeds, the goroutines end without a failure of their own.
  abbrev pub IsCalm : Config → S → Type 0
  IsCalm cfg s =
      (log : Option ℕ) (app : Started net.Ip S)
      → (logged cfg s).0 ≡ ok log
      → (launching cfg (logged cfg s).1).0 ≡ ok app
      → is_calm errgroup grpc app.reload_subnets library
          (finishes app (launching cfg (logged cfg s).1).1).1
        ≡ true

  served_calm :
      (app : Started net.Ip S) (w : S)
      → is_calm errgroup grpc app.reload_subnets library (finishes app w).1 ≡ true
      → (served app w).0 ≡ ok tt
  served_calm app w calm =
      result_calm library errgroup grpc app.reload_subnets (is_subscribed app) w (finishes app w).1
        calm (finishes app w).2

  module _ (cfg : Config) (s : S) (calm : IsCalm cfg s) where
    is_ok-served :
        (log : Option ℕ)
        → (logged cfg s).0 ≡ ok log
        → is_ok ((launching cfg >>= served) (logged cfg s).1).0
          ≡ is_ok (launching cfg (logged cfg s).1).0
    is_ok-served log opened = elim (Result-cases (launching cfg (logged cfg s).1).0) [
      | inl (app, e) ↦
          ap (λ y. is_ok y.0)
            (bind_ok (launching cfg) served (ap (λ r. (r, (launching cfg (logged cfg s).1).1)) e))
          ∙ ap is_ok (served_calm app _ (calm log app opened e))
          ∙ sym (ap is_ok e)
      | inr (e, f) ↦
          ap (λ y. is_ok y.0)
            (bind_err (launching cfg) served (ap (λ r. (r, (launching cfg (logged cfg s).1).1)) f))
          ∙ sym (ap is_ok f)
    ]

    is_ok-run :
        is_ok (run cfg s).0
        ≡ is_ok (start net nets order sum256 join_host_port drivers process cfg s).0
    unfolding run start
    is_ok-run = is_ok-bind (logged cfg) _ _ s (λ log opened.
        ap is_ok (result-closing_log log _)
        ∙ is_ok-served log opened
        ∙ sym (
            ap is_ok
              (result-or_close net nets order sum256 join_host_port process cfg drivers log _ _)))

  code-code_of : (x : Result (Unit {0}) × S) → (code_of x).0 ≡ (if is_ok x.0 then 0 else 1)
  code-code_of (ok _, s) = refl
  code-code_of (err e, s) = refl

  -- Over an errgroup and a gRPC server that behave as documented, when the goroutines of a start
  -- that succeeds return in an order in which the channel of the subscriber stays open, its reloads
  -- fail only by cancellation and `Serve` returns no error: the service exits with 0 if it is asked
  -- for its version, with 1 if the configuration does not load, and otherwise with 0 if its start
  -- succeeds and with 1 if it fails.
  pub code-main :
      {W : Type 0} (viper : Viper W) (files : Files) (config_file : Option Bytes) (arg : Bytes)
      (s : S)
      → ((cfg : Config)
          → load_config viper files (config_file_of config_file) ≡ ok cfg
          → IsCalm cfg s)
      → (main viper files config_file arg s).0 ≡ (
          if beq arg (codes "version")
          then 0
          else elim (load_config viper files (config_file_of config_file)) [
            | err e ↦ 1
            | ok cfg ↦
                if is_ok (start net nets order sum256 join_host_port drivers process cfg s).0
                then 0
                else 1
          ])
  unfolding main
  code-main viper files config_file arg s calm = elim (Bool-cases (beq arg (codes "version"))) [
    | inl asked ↦ rw asked refl
    | inr serves ↦ elim (Result-cases (load_config viper files (config_file_of config_file))) [
      | inl (cfg, loaded) ↦
          rw (serves, loaded)
            (code-code_of (run cfg s)
              ∙ ap (λ (b : Bool). if b then 0 else 1) (is_ok-run cfg s (calm cfg loaded)))
      | inr (e, failed) ↦ rw (serves, failed) refl
    ]
  ]
