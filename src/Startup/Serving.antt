-- ===== src/Startup/Serving.antt =====
-- The end of `run` of cmd/anti-bruteforce/main.go: the goroutines that serve, that listen for news
-- and that shut the server down, as steps in any order. The group that they run in is errgroup's,
-- and the server gRPC's; both are parameters.
pub mod Invariant
pub mod Graceful
pub mod Outcome
pub mod Progress
use otus_anti_bruteforce.Base.{
  ℕ, Bool, true, false, ◌&&◌, ◌||◌, List, [], ◌∷◌, ◌++◌, Option, none, some, Result, ok, err, Error,
  new, wrap, join, foreign, Exec, ◌≡◌, if◌then◌else◌,
}
use otus_anti_bruteforce.Base.Text.{Bytes, codes, beq}
use otus_anti_bruteforce.Adapters.Redis.{Event, done, message, closed}
use otus_anti_bruteforce.Adapters.Redis as Subscriber

abbrev pub is_some : {A : Type 0} → Option A → Bool
is_some none = false
is_some (some a) = true

-- The first of two errors.
abbrev pub or_else : Option Error → Option Error → Option Error
or_else none later = later
or_else (some e) later = some e

-- `errgroup.Group` with its context, as it documents them: `Wait` gives the first error that a
-- goroutine returned, and the context ends with it.
pub record Errgroup (G : Type 0) : Type 0 where
  pub start : G
  pub returned : Option Error → G → G
  pub first : G → Option Error
  pub cancelled : G → Bool
  pub first_start : first start ≡ none
  pub cancelled_start : cancelled start ≡ false
  pub first_returned : (r : Option Error) (g : G) → first (returned r g) ≡ or_else (first g) r
  pub cancelled_returned :
      (r : Option Error) (g : G) → cancelled (returned r g) ≡ (cancelled g || is_some r)

-- `grpc.Server`: `Serve` returns nil only if the server is stopped, and returns once it is.
pub record GrpcServer (V : Type 0) : Type 0 where
  pub start : V
  pub serve : V → V
  pub graceful_stop : V → V
  pub stop : V → V
  pub stopped : V → Bool
  pub may_return : V → Option Error → Bool
  pub stopped_start : stopped start ≡ false
  pub stopped_serve : (v : V) → stopped (serve v) ≡ stopped v
  pub stopped_graceful_stop : (v : V) → stopped (graceful_stop v) ≡ true
  pub stopped_stop : (v : V) → stopped (stop v) ≡ true
  pub nil_stopped : (v : V) → may_return v none ≡ true → stopped v ≡ true
  pub stopped_returns : (v : V) → stopped v ≡ true → (r : Option Error) × (may_return v r ≡ true)

-- `context.Canceled`, which both contexts end with
abbrev pub canceled : Error
canceled = new (codes "context canceled")

-- `errors.Is(err, context.Canceled)`; an error of another library may wrap it.
unfoldable pub is_canceled : (ℕ → Bool) → Error → Bool
is_canceled library (new text) = beq text (codes "context canceled")
is_canceled library (wrap text e) = is_canceled library e
is_canceled library (join a b) = is_canceled library a || is_canceled library b
is_canceled library (foreign n) = library n

-- The goroutine that shuts the server down: it waits for the end of the context, stops the server,
-- has done so, or has returned.
pub data Shutdown : Type 0 where
  awaiting draining settled finished : Shutdown

-- Another goroutine; `run` starts none for the subscriber in the local mode.
pub data Task : Type 0 where
  absent pending running over : Task

pub record Serving (G V S : Type 0) : Type 0 where
  pub group : G
  pub grpc : V
  pub signalled : Bool
  pub shutdown : Shutdown
  pub subscriber : Task
  pub server : Task
  pub world : S
  pub log : List Bytes

-- What `run` makes of the error of `Wait`, with the last line of the log.
unfoldable pub outcome : (ℕ → Bool) → Option Error → Result (Unit {0}) × Bytes
unfolding is_canceled
outcome library none = (ok tt, codes "application stopped gracefully")
outcome library (some e) =
    if is_canceled library e
    then (ok tt, codes "application stopped gracefully")
    else (err e, codes "error from goroutines")

-- The events that a subscriber can receive; the end of the context comes with `canceled`.
abbrev pub is_received : Bool → Event → Bool
is_received ended (done (new text)) = ended && beq text (codes "context canceled")
is_received ended (done _) = false
is_received ended _ = true

abbrev pub is_finished : Shutdown → Bool
is_finished finished = true
is_finished _ = false

abbrev pub is_over : Task → Bool
is_over over = true
is_over _ = false

abbrev pub is_gone : Task → Bool
is_gone over = true
is_gone absent = true
is_gone _ = false

module _ {G V S : Type 0} where
  abbrev logged : Bytes → Serving G V S → List Bytes
  logged line s = s.log ++ line ∷ []

  -- The goroutine that shuts down hears of the end of the context.
  abbrev pub woken : Serving G V S → Serving G V S
  woken s = record s { shutdown = draining; log = logged (codes "shutting down gRPC server...") s }

  abbrev pub subscribed : Serving G V S → Serving G V S
  subscribed s = record s {
    subscriber = running;
    log = logged (codes "starting subnet updates subscriber...") s;
  }

  -- `Wait` returns when every goroutine has.
  abbrev pub waited : Serving G V S → Bool
  waited s = is_finished s.shutdown && is_gone s.subscriber && is_over s.server

  module _ (server : GrpcServer V) where
    abbrev pub stopped_gracefully : Serving G V S → Serving G V S
    stopped_gracefully s = record s {
      shutdown = settled;
      grpc = server.graceful_stop s.grpc;
      log = logged (codes "gRPC server stopped gracefully") s;
    }

    abbrev pub stopped_by_force : Serving G V S → Serving G V S
    stopped_by_force s = record s {
      shutdown = settled;
      grpc = server.stop s.grpc;
      log = logged (codes "gRPC server force stop") s;
    }

    abbrev pub serving : Serving G V S → Serving G V S
    serving s = record s {
      server = running;
      grpc = server.serve s.grpc;
      log = logged (codes "gRPC server listening on ") s;
    }

  module _ (errgroup : Errgroup G) where
    -- The context of the group ends with a signal, or with the first error.
    abbrev pub ctx_done : Serving G V S → Bool
    ctx_done s = s.signalled || errgroup.cancelled s.group

    abbrev pub shut : Serving G V S → Serving G V S
    shut s = record s { shutdown = finished; group = errgroup.returned (some canceled) s.group }

    abbrev pub serve_ended : Option Error → Serving G V S → Serving G V S
    serve_ended r s = record s { server = over; group = errgroup.returned r s.group }

    -- The subscriber goes on after an event, or returns its error.
    abbrev pub after_event : Serving G V S → Option Error × S → Serving G V S
    after_event s (none, w) = record s { world = w }
    after_event s (some e, w) = record s {
      subscriber = over;
      world = w;
      group = errgroup.returned (some e) s.group;
    }

    abbrev pub received : Exec S (Unit {0}) → Event → Serving G V S → Serving G V S
    received reload event s = after_event s (Subscriber.start reload (event ∷ []) s.world)

    -- `g.Go` for the goroutines; the subscriber has one if there is a subscriber.
    abbrev pub launched : GrpcServer V → Bool → S → Serving G V S
    launched server has_subscriber w = record {
      group = errgroup.start;
      grpc = server.start;
      signalled = false;
      shutdown = awaiting;
      subscriber = if has_subscriber then pending else absent;
      server = pending;
      world = w;
      log = [];
    }

    -- What `run` returns after `Wait`.
    abbrev pub result : (ℕ → Bool) → Serving G V S → Result (Unit {0})
    result library s = (outcome library (errgroup.first s.group)).0

module _ {G V S : Type 0} (errgroup : Errgroup G) (server : GrpcServer V)
    (reload : Exec S (Unit {0})) where
  -- `signal` is one of the operating system; `outside` stands for the calls that the server handles
  -- and for the other instances.
  pub data Step : Serving G V S → Serving G V S → Type 0 where
    signal : (s : Serving G V S) → Step s (record s { signalled = true })
    outside : (s : Serving G V S) (w : S) → Step s (record s { world = w })
    wake :
        (s : Serving G V S) → s.shutdown ≡ awaiting → ctx_done errgroup s ≡ true → Step s (woken s)
    drain : (s : Serving G V S) → s.shutdown ≡ draining → Step s (stopped_gracefully server s)
    force : (s : Serving G V S) → s.shutdown ≡ draining → Step s (stopped_by_force server s)
    leave : (s : Serving G V S) → s.shutdown ≡ settled → Step s (shut errgroup s)
    subscribe : (s : Serving G V S) → s.subscriber ≡ pending → Step s (subscribed s)
    receive :
        (s : Serving G V S) (event : Event)
        → s.subscriber ≡ running
        → is_received (ctx_done errgroup s) event ≡ true
        → Step s (received errgroup reload event s)
    serve : (s : Serving G V S) → s.server ≡ pending → Step s (serving server s)
    serve_return :
        (s : Serving G V S) (r : Option Error)
        → s.server ≡ running
        → server.may_return s.grpc r ≡ true
        → Step s (serve_ended errgroup r s)

  pub data Reach (s : Serving G V S) : Serving G V S → Type 0 where
    here : Reach s s
    next : {t u : Serving G V S} → Reach s t → Step t u → Reach s u
