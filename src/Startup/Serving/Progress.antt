-- ===== src/Startup/Serving/Progress.antt =====
-- The goroutines of `run` end together, in whatever order they take their steps.
use otus_anti_bruteforce.Base.{ℕ, ◌+◌, Bool, true, false, ◌||◌, Exec, ◌≡◌}
use otus_anti_bruteforce.Adapters.Redis.{Event, message, closed}
use otus_anti_bruteforce.Adapters.Redis as Subscriber
use otus_anti_bruteforce.Startup.Serving.{
  Errgroup, GrpcServer, Shutdown, awaiting, draining, settled, finished, Task, absent, pending,
  running, over, Serving, Step, signal, outside, receive, Reach, here, next, is_finished, is_over,
}

-- The steps that a goroutine still has to take.
abbrev shutdown_left : Shutdown → ℕ
shutdown_left awaiting = 3
shutdown_left draining = 2
shutdown_left settled = 1
shutdown_left finished = 0

abbrev task_left : Task → ℕ
task_left absent = 0
task_left pending = 2
task_left running = 1
task_left over = 0

abbrev count : Bool → ℕ
count true = 1
count false = 0

module _ {G V S : Type 0} (errgroup : Errgroup G) (server : GrpcServer V)
    (reload : Exec S (Unit {0})) where
  -- A signal came, or one of the goroutines returned.
  abbrev pub is_ending : Serving G V S → Bool
  is_ending s = s.signalled || is_finished s.shutdown || is_over s.subscriber || is_over s.server

  -- The steps that the goroutines take by themselves: not a signal, nor the calls and the other
  -- instances, nor an event of the channel of the subscriber. That the subscriber hears of the end
  -- of its context is one of them.
  abbrev pub is_own : {s t : Serving G V S} → Step errgroup server reload s t → Bool
  is_own (signal s) = false
  is_own (outside s w) = false
  is_own (receive s message at may) = false
  is_own (receive s closed at may) = false
  is_own _ = true

  abbrev pub own_steps : {s t : Serving G V S} → Reach errgroup server reload s t → ℕ
  own_steps here = 0
  own_steps (next r st) = own_steps r + count (is_own st)

  abbrev left : Serving G V S → ℕ
  left s = shutdown_left s.shutdown + task_left s.subscriber + task_left s.server

  -- A goroutine can take a step of its own.
  abbrev pub CanStep : Serving G V S → Type 0
  CanStep s = (t : Serving G V S) × (st : Step errgroup server reload s t) × (is_own st ≡ true)
