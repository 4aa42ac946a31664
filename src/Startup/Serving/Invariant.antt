-- ===== src/Startup/Serving/Invariant.antt =====
-- What holds of the goroutines of `run` at any time.
use otus_anti_bruteforce.Base.{
  Bool, true, false, [], ◌∷◌, Option, none, some, Error, Exec, ◌≡◌, arith,
}
use otus_anti_bruteforce.Adapters.Redis.{Event, done, message, closed}
use otus_anti_bruteforce.Adapters.Redis as Subscriber
use otus_anti_bruteforce.Startup.Serving.{
  Errgroup, GrpcServer, Shutdown, awaiting, settled, finished, Task, absent, Serving, ctx_done,
  after_event, serve_ended, Step, signal, outside, wake, drain, force, leave, subscribe, receive,
  serve, serve_return, Reach, here, next, launched, is_finished, is_over, is_some,
}

abbrev pub is_awake : Shutdown → Bool
is_awake awaiting = false
is_awake _ = true

abbrev pub is_down : Shutdown → Bool
is_down settled = true
is_down finished = true
is_down _ = false

abbrev pub is_absent : Task → Bool
is_absent absent = true
is_absent _ = false

module _ {G V S : Type 0} (errgroup : Errgroup G) (server : GrpcServer V) where
  -- The shutdown begins only at the end of the context, which also comes with the end of any
  -- goroutine; the server stops only then.
  pub record Inv (s : Serving G V S) : Type 0 where
    pub awake : is_awake s.shutdown ≡ true → ctx_done errgroup s ≡ true
    pub down : is_down s.shutdown ≡ true → server.stopped s.grpc ≡ true
    pub stopped : server.stopped s.grpc ≡ true → ctx_done errgroup s ≡ true
    pub silent : is_over s.subscriber ≡ true → ctx_done errgroup s ≡ true
    pub served : is_over s.server ≡ true → ctx_done errgroup s ≡ true
    pub failed : is_some (errgroup.first s.group) ≡ errgroup.cancelled s.group
    pub manned : is_absent s.server ≡ false
    pub left : is_finished s.shutdown ≡ true → is_some (errgroup.first s.group) ≡ true

  pub launched-Inv : (b : Bool) (w : S) → Inv (launched errgroup server b w)
  launched-Inv true w =
      grind (arith, errgroup.first_start, errgroup.cancelled_start, server.stopped_start)
  launched-Inv false w =
      grind (arith, errgroup.first_start, errgroup.cancelled_start, server.stopped_start)

  after_event-Inv :
      (s : Serving G V S) (x : Option Error × S) → Inv s → Inv (after_event errgroup s x)
  after_event-Inv s (none, w) i = grind arith
  after_event-Inv s (some e, w) i =
      grind (arith, errgroup.first_returned, errgroup.cancelled_returned)

  serve_ended-Inv :
      (s : Serving G V S) (r : Option Error)
      → server.may_return s.grpc r ≡ true
      → Inv s
      → Inv (serve_ended errgroup r s)
  serve_ended-Inv s none may i =
      grind (arith, errgroup.first_returned, errgroup.cancelled_returned, server.nil_stopped)
  serve_ended-Inv s (some e) may i =
      grind (arith, errgroup.first_returned, errgroup.cancelled_returned)

  module _ (reload : Exec S (Unit {0})) where
    pub Step-Inv : {s t : Serving G V S} → Step errgroup server reload s t → Inv s → Inv t
    Step-Inv (signal s) i = grind arith
    Step-Inv (outside s w) i = grind arith
    Step-Inv (wake s at ended) i = grind arith
    Step-Inv (drain s at) i = grind (arith, server.stopped_graceful_stop)
    Step-Inv (force s at) i = grind (arith, server.stopped_stop)
    Step-Inv (leave s at) i = grind (arith, errgroup.first_returned, errgroup.cancelled_returned)
    Step-Inv (subscribe s at) i = grind arith
    Step-Inv (receive s event at may) i =
        after_event-Inv s (Subscriber.start reload (event ∷ []) s.world) i
    Step-Inv (serve s at) i = grind (arith, server.stopped_serve)
    Step-Inv (serve_return s r at may) i = serve_ended-Inv s r may i

    pub Reach-Inv : {s t : Serving G V S} → Reach errgroup server reload s t → Inv s → Inv t
    Reach-Inv here i = i
    Reach-Inv (next r st) i = Step-Inv st (Reach-Inv r i)
