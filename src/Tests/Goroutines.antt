-- ===== src/Tests/Goroutines.antt =====
-- The goroutines of `run` in concrete orders, with a group and a server that behave as documented.
use otus_anti_bruteforce.Base.{
  ℕ, Bool, true, false, not, ◌&&◌, ◌||◌, [], Option, none, some, ok, err, Error, new, Exec, ◌≡◌,
  refl, is_ok, if◌then◌else◌, arith,
}
use otus_anti_bruteforce.Base.Text.{codes, beq}
use otus_anti_bruteforce.Adapters.Redis.{done}
use otus_anti_bruteforce.Adapters.Redis as Subscriber
use otus_anti_bruteforce.Config.{load_config, fill_defaults}
use otus_anti_bruteforce.Startup.{start}
use otus_anti_bruteforce.Startup.Modes.{is_subscribed}
use otus_anti_bruteforce.Startup.Serving.{
  Errgroup, GrpcServer, is_some, or_else, canceled, Serving, serving, signal, wake, drain, leave,
  subscribe, receive, serve, serve_return, Reach, here, next, launched, result, is_canceled,
}
use otus_anti_bruteforce.Startup.Serving.Outcome.{first_error, result-waited}
use otus_anti_bruteforce.Startup.Serving.Graceful.{is_calm}
use otus_anti_bruteforce.Startup.Program.{config_file_of, Finishes, main, code-main}
use otus_anti_bruteforce.Tests.Fixtures.{v4_net, as_they_stand, digest, fresh}
use otus_anti_bruteforce.Tests.Settings.{viper, files, defaulted, config_of}
use otus_anti_bruteforce.Tests.Starts.{broken, join, process}

-- A group is the first error.
some-or_else : (g r : Option Error) → is_some (or_else g r) ≡ (is_some g || is_some r)
some-or_else none r = refl
some-or_else (some e) r = refl

abbrev group : Errgroup (Option Error)
group = record {
  start = none;
  returned = λ r g. or_else g r;
  first = λ g. g;
  cancelled = is_some;
  first_start = refl;
  cancelled_start = refl;
  first_returned = λ r g. refl;
  cancelled_returned = λ r g. some-or_else g r;
}

-- A server knows whether it is stopped, and whether it served before that.
pub record Server : Type 0 where
  pub served : Bool
  pub stopped : Bool

abbrev may_return : Server → Option Error → Bool
may_return v none = v.stopped && v.served
may_return v (some e) = not (v.stopped && v.served)

stopped_may : (v : Server) → v.stopped ≡ true → (r : Option Error) × (may_return v r ≡ true)
stopped_may v h = answer v.served v.stopped h
  where
    answer :
        (a b : Bool)
        → b ≡ true
        → (r : Option Error) × (may_return (record { served = a; stopped = b }) r ≡ true)
    answer true true h = (none, refl)
    answer false true h = (some (new (codes "grpc: the server has been stopped")), refl)
    answer a false h = cc

nil_may : (v : Server) → may_return v none ≡ true → v.stopped ≡ true
nil_may v h = ground arith

abbrev server : GrpcServer Server
server = record {
  start = record { served = false; stopped = false };
  serve = λ v. record v { served = not v.stopped };
  graceful_stop = λ v. record v { stopped = true };
  stop = λ v. record v { stopped = true };
  stopped = λ v. v.stopped;
  may_return = may_return;
  stopped_start = refl;
  stopped_serve = λ v. refl;
  stopped_graceful_stop = λ v. refl;
  stopped_stop = λ v. refl;
  nil_stopped = nil_may;
  stopped_returns = stopped_may;
}

module _ {S : Type 0} (reload : Exec S (Unit {0})) (has_subscriber : Bool) (w : S) where
  abbrev begun : Serving (Option Error) Server S
  begun = serving server (launched group server has_subscriber w)

  -- `Serve` begins, and a signal comes.
  abbrev warned : Serving (Option Error) Server S
  warned = record begun { signalled = true }

  warned-reached : Reach group server reload (launched group server has_subscriber w) warned
  warned-reached = next (next here (serve _ refl)) (signal _)

-- The server stops, and then every goroutine returns.
orderly :
    {S : Type 0} (reload : Exec S (Unit {0})) (has_subscriber : Bool) (w : S)
    → Finishes group server reload has_subscriber w
unfolding warned-reached Subscriber.start beq
orderly reload false w = (
  _,
  next
      (next (next (next (warned-reached reload false w) (wake _ refl refl)) (drain _ refl))
        (serve_return _ none refl refl))
      (leave _ refl),
  refl,
)
orderly reload true w = (
  _,
  next
      (next
        (next
          (next (next (next (warned-reached reload true w) (wake _ refl refl)) (drain _ refl))
            (serve_return _ none refl refl))
          (leave _ refl))
        (subscribe _ refl))
      (receive _ (done canceled) refl refl),
  refl,
)

orderly-calm :
    {S : Type 0} (reload : Exec S (Unit {0})) (has_subscriber : Bool) (w : S) (library : ℕ → Bool)
    → is_calm group server reload library (orderly reload has_subscriber w).1 ≡ true
unfolding orderly warned-reached
orderly-calm reload false w library = refl
orderly-calm reload true w library = refl

abbrev untouched : Exec ℕ (Unit {0})
untouched n = (ok tt, n)

abbrev foreign_is : ℕ → Bool
foreign_is n = false

result-waited_example :
    let (t, r, all_over) = orderly untouched true 5 in
    (server.stopped t.grpc ≡ true)
    × ((e : Error) × (first_error group server untouched r ≡ some e)
        × (result group foreign_is t ≡ (if is_canceled foreign_is e then ok tt else err e)))
result-waited_example =
    result-waited group server untouched foreign_is true 5 (orderly untouched true 5).1
      (orderly untouched true 5).2

code-main_example :
    (main v4_net as_they_stand as_they_stand digest join
      (broken 1)
      (process 1)
      group
      server
      foreign_is
      (λ app w. orderly app.reload_subnets (is_subscribed app) w)
      viper
      files
      (some (codes "config.yml"))
      []
      fresh).0
    ≡ (if is_ok
          (start v4_net as_they_stand as_they_stand digest join
            (broken 1)
            (process 1)
            (config_of defaulted)
            fresh).0
        then 0
        else 1)
unfolding config_file_of load_config fill_defaults beq
code-main_example =
    code-main v4_net as_they_stand as_they_stand digest join (broken 1) (process 1) group server
      foreign_is (λ app w. orderly app.reload_subnets (is_subscribed app) w) viper files
      (some (codes "config.yml")) [] fresh
      (λ cfg loaded log app opened begun.
        orderly-calm app.reload_subnets (is_subscribed app) _ foreign_is)
