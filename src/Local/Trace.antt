-- ===== src/Local/Trace.antt =====
-- What attempts, resets and changes of the lists do to bucketsdb.go: the calls that each makes, and
-- the accepted attempts that they leave.
use otus_anti_bruteforce.Base.{
  ℕ, false, ◌&&◌, ◌||◌, List, [], ◌∷◌, ◌++◌, ◌≡◌, refl, ◌∙◌, if◌then◌else◌, inl, inr, ◌⊎◌, ap, sym,
  state-wrapping,
}
use otus_anti_bruteforce.Base.Int.{ℤ}
use otus_anti_bruteforce.Base.Text.{Bytes, beq}
use otus_anti_bruteforce.Base.GoMap.{Visits}
use otus_anti_bruteforce.Base.Time.{unix_milli}
use otus_anti_bruteforce.Domain.{
  login_limit, password_limit, ip_limit, PolicyDecision, decision_continue, decision_deny,
  decision_allow,
}
use otus_anti_bruteforce.Net.{NetPackage}
use otus_anti_bruteforce.Memory.Buckets.Window.{Call, IsChronological, run}
use otus_anti_bruteforce.Memory.Buckets.Window
use otus_anti_bruteforce.Memory.Buckets.Safety.{accepted}
use otus_anti_bruteforce.RateLimit.Limiter.{bucket_key}
use otus_anti_bruteforce.RateLimit.Checker.{LimitsConfig}
use otus_anti_bruteforce.App.Password.{hash_password}
use otus_anti_bruteforce.App.RateLimiter.Outcomes.{check_denied, check_allowed, check_continued}
use otus_anti_bruteforce.Local.World.{World, LoopOrders, subnet_policer, rate_limiter}
use otus_anti_bruteforce.Local.Manage.{Manage, manage, manage-reload}
use otus_anti_bruteforce.Local.Limits.{reset_forgotten, forgotten}
use otus_anti_bruteforce.Local.Chain.{calls_made, extended, accepted-calls_made}
use otus_anti_bruteforce.Local.Attempts.{asked, outcome, check_limits-asked}
use otus_anti_bruteforce.Local.Events.{
  Event, attempt, forget, change, is_judged, is_passed, at_time, thrice_emptied,
}

module _ (net : NetPackage) (orders : LoopOrders net.IpNet) (sum256 : Bytes → List ℕ)
    (cfg : LimitsConfig) where
  open net use {Ip, IpNet}

  abbrev pub next : Event Ip → World IpNet → World IpNet
  next (attempt now login password ip) w =
      ((rate_limiter net orders sum256 cfg).check login password ip (at_time now w)).1
  next (forget login password ip) w =
      ((rate_limiter net orders sum256 cfg).reset login password ip w).1
  next (change m) w = (manage net orders sum256 cfg m w).1

  -- The attempts on the login that no list decides and that `Check` lets through.
  abbrev pub noted : Bytes → Event Ip → World IpNet → List ℤ → List ℤ
  noted login (attempt now l password ip) w acc =
      let judged = is_judged ((subnet_policer net orders).check ip (at_time now w)) in
      let reply = ((rate_limiter net orders sum256 cfg).check l password ip (at_time now w)).0 in
      if beq l login && judged && is_passed reply then acc ++ unix_milli now ∷ [] else acc
  noted login (forget l password ip) w acc = if beq l login then [] else acc
  noted login (change m) w acc = acc

  -- The attempts on the login that the limits let through since its last reset, in milliseconds.
  abbrev pub let_through : Bytes → List ℤ → List (Event Ip) → World IpNet → List ℤ
  let_through login acc [] w = acc
  let_through login acc (e ∷ events) w = let_through login (noted login e w acc) events (next e w)

  -- The calls of bucketsdb.go that an event makes.
  abbrev pub made : Event Ip → World IpNet → List Call
  made (attempt now login password ip) w =
      if is_judged ((subnet_policer net orders).check ip (at_time now w))
      then calls_made cfg.window now (asked net sum256 cfg login password ip) w.buckets
      else []
  made (forget login password ip) w =
      Window.reset (bucket_key login_limit login)
      ∷ Window.reset (bucket_key password_limit (hash_password sum256 password))
      ∷ Window.reset (bucket_key ip_limit (net.ip_string ip))
      ∷ []
  made (change m) w = []

  abbrev pub all_made : List (Event Ip) → World IpNet → List Call
  all_made [] w = []
  all_made (e ∷ events) w = made e w ++ all_made events (next e w)

  abbrev pub window : Bytes → ℤ
  window key = cfg.window

  abbrev pub grown : Bytes → Event Ip → World IpNet → List ℤ → List ℤ
  grown k (attempt now login password ip) w acc =
      if is_judged ((subnet_policer net orders).check ip (at_time now w))
      then extended cfg.window now k (asked net sum256 cfg login password ip) w.buckets acc
      else acc
  grown k (forget login password ip) w acc =
      if beq (bucket_key login_limit login) k
        || beq (bucket_key password_limit (hash_password sum256 password)) k
        || beq (bucket_key ip_limit (net.ip_string ip)) k
      then []
      else acc
  grown k (change m) w acc = acc

  module _ (limits_visited : Visits orders.limits) where
    pub checked :
        (now : ℤ) (login password : Bytes) (ip : Ip) (w : World IpNet)
        → (subnet_policer net orders).check ip (at_time now w) ≡ decision_continue
        → (rate_limiter net orders sum256 cfg).check login password ip (at_time now w)
          ≡ outcome net sum256 cfg (asked net sum256 cfg login password ip) (at_time now w)
    checked now login password ip w h =
        check_continued _ _ _ _ login password ip (at_time now w) h
        ∙ check_limits-asked net orders limits_visited sum256 cfg login password ip (at_time now w)

    -- A decision of the lists leaves the world as it is, and any other attempt goes to the limits.
    pub decided :
        (now : ℤ) (login password : Bytes) (ip : Ip) (w : World IpNet)
        → ((subnet_policer net orders).check ip (at_time now w) ≡ decision_continue)
          ⊎ ((is_judged ((subnet_policer net orders).check ip (at_time now w)) ≡ false)
              × (((rate_limiter net orders sum256 cfg).check login password ip (at_time now w)).1
                  ≡ at_time now w))
    decided now login password ip w = by_decision _ refl
      where
        by_decision :
            (d : PolicyDecision)
            → (subnet_policer net orders).check ip (at_time now w) ≡ d
            → ((subnet_policer net orders).check ip (at_time now w) ≡ decision_continue)
              ⊎ ((is_judged ((subnet_policer net orders).check ip (at_time now w)) ≡ false)
                  × (((rate_limiter net orders sum256 cfg).check login password ip
                        (at_time now w)).1
                      ≡ at_time now w))
        by_decision decision_continue h = inl h
        by_decision decision_deny h =
            inr (rw h, ap (λ x. x.1) (check_denied _ _ _ _ login password ip (at_time now w) h))
        by_decision decision_allow h =
            inr (rw h, ap (λ x. x.1) (check_allowed _ _ _ _ login password ip (at_time now w) h))

    change_keeps :
        (m : Manage) (w : World IpNet) → (manage net orders sum256 cfg m w).1.buckets ≡ w.buckets
    change_keeps m w = rw (manage-reload, state-wrapping)

    -- What an event does to the store is what its calls do.
    pub accepted-made :
        (k : Bytes) (e : Event Ip) (w : World IpNet) (acc : List ℤ) (later : List Call)
        → accepted k acc (made e w ++ later) (run window (made e w ++ later) w.buckets).0
          ≡ accepted k (grown k e w acc) later (run window later (next e w).buckets).0
    unfolding run
    accepted-made k (attempt now login password ip) w acc later =
        elim (decided now login password ip w) [
          | inl h ↦ rw h (
              accepted-calls_made cfg.window now k (asked net sum256 cfg login password ip)
                w.buckets acc later
              ∙ ap
                  (λ x.
                    accepted k
                      (extended cfg.window now k (asked net sum256 cfg login password ip) w.buckets
                        acc)
                      later (run window later x.1.buckets).0)
                  (sym (checked now login password ip w h)))
          | inr (listed, kept) ↦
              rw listed (ap (λ x. accepted k acc later (run window later x.buckets).0) (sym kept))
        ]
    accepted-made k (forget login password ip) w acc later =
        ap
          (λ h.
            accepted k h later
              (run window later
                (forgotten net orders limits_visited sum256 cfg login password ip w).buckets).0)
          (thrice_emptied (beq (bucket_key login_limit login) k)
            (beq (bucket_key password_limit (hash_password sum256 password)) k)
            (beq (bucket_key ip_limit (net.ip_string ip)) k) acc)
        ∙ ap
            (λ x.
              accepted k (grown k (forget login password ip) w acc) later
                (run window later x.1.buckets).0)
            (sym (reset_forgotten net orders limits_visited sum256 cfg login password ip w))
    accepted-made k (change m) w acc later =
        ap (λ b. accepted k acc later (run window later b).0) (sym (change_keeps m w))
