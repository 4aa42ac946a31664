-- ===== src/Startup/Serving/Graceful.antt =====
-- A run of the service that nothing but a signal ends.
use otus_anti_bruteforce.Base.{
  ℕ, Bool, true, false, ◌&&◌, [], ◌∷◌, Option, none, some, Result, ok, err, Error, new, wrap, join,
  foreign, Exec, ◌≡◌, refl, sym, ap, ◌∙◌, Result-cases, inl, inr, arith,
}
use otus_anti_bruteforce.Base.Text.{beq}
use otus_anti_bruteforce.Adapters.Redis.{Event, done, message, closed}
use otus_anti_bruteforce.Adapters.Redis as Subscriber
use otus_anti_bruteforce.Startup.Serving.{
  Errgroup, GrpcServer, is_canceled, is_received, Serving, Step, signal, outside, wake, drain,
  force, leave, subscribe, receive, serve, serve_return, Reach, here, next, launched, waited,
  or_else, result,
}
use otus_anti_bruteforce.Startup.Serving.Outcome.{step_error, first_error, result-waited}

abbrev pub is_cancelled_or_ok : (ℕ → Bool) → Result (Unit {0}) → Bool
is_cancelled_or_ok library (ok _) = true
is_cancelled_or_ok library (err e) = is_canceled library e

module _ {G V S : Type 0} (errgroup : Errgroup G) (server : GrpcServer V)
    (reload : Exec S (Unit {0})) (library : ℕ → Bool) where
  -- The channel of the subscriber stays open, its reloads fail only by cancellation, and `Serve`
  -- does not fail.
  abbrev pub is_calm_step : {s t : Serving G V S} → Step errgroup server reload s t → Bool
  is_calm_step (receive s closed at may) = false
  is_calm_step (receive s message at may) = is_cancelled_or_ok library (reload s.world).0
  is_calm_step (serve_return s (some e) at may) = false
  is_calm_step _ = true

  abbrev pub is_calm : {s t : Serving G V S} → Reach errgroup server reload s t → Bool
  is_calm here = true
  is_calm (next r st) = is_calm r && is_calm_step st

module _ (library : ℕ → Bool) where
  abbrev is_harmless : Option Error → Bool
  is_harmless none = true
  is_harmless (some e) = is_canceled library e

  harmless-or_else :
      (r later : Option Error)
      → is_harmless r ≡ true
      → is_harmless later ≡ true
      → is_harmless (or_else r later) ≡ true
  harmless-or_else none later h k = k
  harmless-or_else (some e) later h k = h

  received_harmless :
      (ended : Bool) (e : Error) → is_received ended (done e) ≡ true → is_canceled library e ≡ true
  unfolding is_canceled
  received_harmless ended (new text) h = grind arith
  received_harmless ended (wrap text e) h = cc
  received_harmless ended (join a b) h = cc
  received_harmless ended (foreign n) h = cc

  module _ {G V S : Type 0} (errgroup : Errgroup G) (server : GrpcServer V)
      (reload : Exec S (Unit {0})) where
    message_harmless :
        (w : S)
        → is_cancelled_or_ok library (reload w).0 ≡ true
        → is_harmless (Subscriber.start reload (message ∷ []) w).0 ≡ true
    unfolding Subscriber.start is_canceled
    message_harmless w = elim (Result-cases (reload w).0) [
      | inl (tt, fine) ↦ rw (Subscriber.start, fine) (λ h. refl)
      | inr (e, failed) ↦ rw (Subscriber.start, failed) (λ h. h)
    ]

    step_harmless :
        {s t : Serving G V S} (st : Step errgroup server reload s t)
        → is_calm_step errgroup server reload library st ≡ true
        → is_harmless (step_error errgroup server reload st) ≡ true
    unfolding Subscriber.start is_canceled beq
    step_harmless (receive s closed at may) h = cc
    step_harmless (receive s message at may) h = message_harmless s.world h
    step_harmless (receive s (done e) at may) h = received_harmless _ e may
    step_harmless (serve_return s (some e) at may) h = cc
    step_harmless (serve_return s none at may) h = refl
    step_harmless (leave s at) h = refl
    step_harmless (signal s) h = refl
    step_harmless (outside s w) h = refl
    step_harmless (wake s at ended) h = refl
    step_harmless (drain s at) h = refl
    step_harmless (force s at) h = refl
    step_harmless (subscribe s at) h = refl
    step_harmless (serve s at) h = refl

    first_harmless :
        {s t : Serving G V S} (r : Reach errgroup server reload s t)
        → is_calm errgroup server reload library r ≡ true
        → is_harmless (first_error errgroup server reload r) ≡ true
    first_harmless here h = refl
    first_harmless (next r st) h =
        harmless-or_else (first_error errgroup server reload r)
          (step_error errgroup server reload st) (first_harmless r (ground arith))
          (step_harmless st (ground arith))

    -- When every goroutine has returned after a calm run, `run` returns nil.
    pub result_calm :
        (b : Bool) (w : S) {t : Serving G V S}
        (r : Reach errgroup server reload (launched errgroup server b w) t)
        → is_calm errgroup server reload library r ≡ true
        → waited t ≡ true
        → result errgroup library t ≡ ok tt
    result_calm b w r calm all_over =
        let (down, (e, first, returned)) =
          result-waited errgroup server reload library b w r all_over in
        let harmless : is_canceled library e ≡ true =
          ap is_harmless (sym first) ∙ first_harmless r calm in
        returned ∙ rw harmless refl
