-- ===== src/Startup/Serving/Outcome.antt =====
-- What `run` returns, from the errors of its goroutines in their order.
use otus_anti_bruteforce.Base.{
  ℕ, Bool, true, [], ◌∷◌, Option, none, some, ok, err, Error, Exec, ◌≡◌, refl, sym, ap, ◌∙◌,
  Bool-cases, inl, inr, if◌then◌else◌, arith,
}
use otus_anti_bruteforce.Adapters.Redis.{Event, done, message, closed}
use otus_anti_bruteforce.Adapters.Redis as Subscriber
use otus_anti_bruteforce.Startup.Serving.{
  Errgroup, GrpcServer, canceled, is_canceled, Serving, after_event, Step, signal, outside, wake,
  drain, force, leave, subscribe, receive, serve, serve_return, Reach, here, next, launched, waited,
  is_some, or_else, outcome, result,
}
use otus_anti_bruteforce.Startup.Serving.Invariant.{launched-Inv, Reach-Inv}

or_else-none : (r : Option Error) → or_else r none ≡ r
or_else-none none = refl
or_else-none (some e) = refl

some_of_is_some : (r : Option Error) → is_some r ≡ true → (e : Error) × (r ≡ some e)
some_of_is_some none h = cc
some_of_is_some (some e) h = (e, refl)

outcome-some :
    (library : ℕ → Bool) (e : Error)
    → (outcome library (some e)).0 ≡ (if is_canceled library e then ok tt else err e)
unfolding outcome
outcome-some library e = elim (Bool-cases (is_canceled library e)) [
  | inl yes_canceled ↦ rw (outcome, yes_canceled) refl
  | inr failed ↦ rw (outcome, failed) refl
]

module _ {G V S : Type 0} (errgroup : Errgroup G) (server : GrpcServer V)
    (reload : Exec S (Unit {0})) where
  -- The error that a step returns from a goroutine.
  abbrev pub step_error : {s t : Serving G V S} → Step errgroup server reload s t → Option Error
  step_error (leave s at) = some canceled
  step_error (receive s event at may) = (Subscriber.start reload (event ∷ []) s.world).0
  step_error (serve_return s r at may) = r
  step_error _ = none

  -- The first error that a goroutine returned.
  abbrev pub first_error : {s t : Serving G V S} → Reach errgroup server reload s t → Option Error
  first_error here = none
  first_error (next r st) = or_else (first_error r) (step_error st)

  first-after_event :
      (s : Serving G V S) (x : Option Error × S)
      → errgroup.first (after_event errgroup s x).group ≡ or_else (errgroup.first s.group) x.0
  first-after_event s (none, w) = sym (or_else-none _)
  first-after_event s (some e, w) = errgroup.first_returned (some e) s.group

  first-Step :
      {s t : Serving G V S} (st : Step errgroup server reload s t)
      → errgroup.first t.group ≡ or_else (errgroup.first s.group) (step_error st)
  first-Step (leave s at) = errgroup.first_returned (some canceled) s.group
  first-Step (receive s event at may) =
      first-after_event s (Subscriber.start reload (event ∷ []) s.world)
  first-Step (serve_return s r at may) = errgroup.first_returned r s.group
  first-Step (signal s) = sym (or_else-none _)
  first-Step (outside s w) = sym (or_else-none _)
  first-Step (wake s at ended) = sym (or_else-none _)
  first-Step (drain s at) = sym (or_else-none _)
  first-Step (force s at) = sym (or_else-none _)
  first-Step (subscribe s at) = sym (or_else-none _)
  first-Step (serve s at) = sym (or_else-none _)

  first-Reach :
      (b : Bool) (w : S) {t : Serving G V S}
      (r : Reach errgroup server reload (launched errgroup server b w) t)
      → errgroup.first t.group ≡ first_error r
  first-Reach b w here = errgroup.first_start
  first-Reach b w (next r st) =
      first-Step st ∙ ap (λ e. or_else e (step_error st)) (first-Reach b w r)

  -- Over an errgroup and a gRPC server that behave as documented, with or without a subscriber: in
  -- whatever order the goroutines of the service take their steps, when all of them have returned,
  -- the gRPC server is stopped, one of them has returned an error, and `run` returns the first such
  -- error, or nil if this is `context.Canceled` or wraps it.
  pub result-waited :
      (library : ℕ → Bool) (b : Bool) (w : S) {t : Serving G V S}
      (r : Reach errgroup server reload (launched errgroup server b w) t)
      → waited t ≡ true
      → (server.stopped t.grpc ≡ true)
        × ((e : Error) × (first_error r ≡ some e)
            × (result errgroup library t ≡ (if is_canceled library e then ok tt else err e)))
  result-waited library b w {t} r all_over =
      let i = Reach-Inv errgroup server reload r (launched-Inv errgroup server b w) in
      let (e, found) = some_of_is_some (errgroup.first t.group) (i.left (ground arith)) in
      (
        i.down (ground arith),
        (
          e,
          sym (first-Reach b w r) ∙ found,
          ap (λ x. (outcome library x).0) found ∙ outcome-some library e,
        ),
      )
