-- ===== src/Local/Bruteforce.antt =====
-- The bound on brute force in the local mode: attempts, resets and changes of the lists in any order.
use otus_anti_bruteforce.Base.{
  ℕ, ◌*◌, ◌<◌, ◌≤◌, true, ◌&&◌, List, [], ◌∷◌, ◌++◌, ◌≡◌, ◌∙◌, Bool-cases, inl, inr, ap, sym, arith,
}
use otus_anti_bruteforce.Base.Int.{ℤ, pos, ◌-ℤ◌}
use otus_anti_bruteforce.Base.Text.{Bytes, beq, beq_iff}
use otus_anti_bruteforce.Base.GoMap.{Visits}
use otus_anti_bruteforce.Base.Time.{unix_milli, nanos_per_milli}
use otus_anti_bruteforce.Domain.{login_limit, password_limit, ip_limit, decision_continue}
use otus_anti_bruteforce.Net.{NetPackage}
use otus_anti_bruteforce.Memory.Buckets.Window.{IsChronological, run}
use otus_anti_bruteforce.Memory.Buckets.Safety.{
  accepted, count_between, HasLimit, accepted_le_limit,
}
use otus_anti_bruteforce.RateLimit.Limiter.{bucket_key}
use otus_anti_bruteforce.RateLimit.Keys.{beq-bucket_key}
use otus_anti_bruteforce.RateLimit.Checker.{LimitsConfig}
use otus_anti_bruteforce.App.Password.{hash_password}
use otus_anti_bruteforce.Local.World.{World, LoopOrders, new_world, subnet_policer, rate_limiter}
use otus_anti_bruteforce.Local.Chain.{
  earlier, all_pass, IsChronological-calls_made, limited-calls_made, extended_grows,
  extended_by_first,
}
use otus_anti_bruteforce.Local.Attempts.{asked, asked_next}
use otus_anti_bruteforce.Local.Events.{
  Event, attempt, forget, change, IsOrdered, is_judged, is_passed, at_time, le_trans, append_le,
  count_if, password-login, ip-login,
}
use otus_anti_bruteforce.Local.Trace.{
  noted, next, grown, all_made, let_through, decided, checked, accepted-made,
}

module _ (net : NetPackage) (orders : LoopOrders net.IpNet) (sum256 : Bytes → List ℕ)
    (cfg : LimitsConfig) where
  open net use {Ip, IpNet}

  module _ (limits_visited : Visits orders.limits) where
    passed_first :
        (now : ℤ) (login l password : Bytes) (ip : Ip) (w : World IpNet) (seen acc : List ℤ)
        (lo hi : ℤ)
        → ((a b : ℤ) → count_between a b seen ≤ count_between a b acc)
        → (subnet_policer net orders).check ip (at_time now w) ≡ decision_continue
        → (beq l login
            && is_judged ((subnet_policer net orders).check ip (at_time now w))
            && is_passed
                ((rate_limiter net orders sum256 cfg).check l password ip (at_time now w)).0)
          ≡ true
        → count_between lo hi (seen ++ unix_milli now ∷ [])
          ≤ count_between lo hi (
              grown net orders sum256 cfg
                (bucket_key login_limit login)
                (attempt now l password ip)
                w
                acc)
    passed_first now login l password ip w seen acc lo hi h judged c =
        let same : l ≡ login = (beq_iff l login).0 (ground arith) in
        let all : all_pass cfg.window now (asked net sum256 cfg l password ip) w.buckets ≡ true =
          sym (
            ap (λ x. is_passed x.0)
              (checked net orders sum256 cfg limits_visited now l password ip w judged))
          ∙ ground arith in
        rw (judged, ← same)
          (le_trans (append_le lo hi (unix_milli now) seen acc h) (
            extended_by_first cfg.window now (bucket_key login_limit l) lo hi cfg.login_attempts
              (asked_next net sum256 cfg password ip) w.buckets acc all))

    -- Every attempt that is noted has been accepted by the bucket of its login.
    noted-grown :
        (login : Bytes) (e : Event Ip) (w : World IpNet) (seen acc : List ℤ) (lo hi : ℤ)
        → ((a b : ℤ) → count_between a b seen ≤ count_between a b acc)
        → count_between lo hi (noted net orders sum256 cfg login e w seen)
          ≤ count_between lo hi (grown net orders sum256 cfg (bucket_key login_limit login) e w acc)
    noted-grown login (attempt now l password ip) w seen acc lo hi h =
        count_if lo hi _ (seen ++ unix_milli now ∷ []) seen _
          (λ c. elim (decided net orders sum256 cfg limits_visited now l password ip w) [
            | inl judged ↦ passed_first now login l password ip w seen acc lo hi h judged c
            | inr (listed, kept) ↦ ground arith
          ])
          (elim (decided net orders sum256 cfg limits_visited now l password ip w) [
            | inl judged ↦ rw judged (
                le_trans (h lo hi) (
                  extended_grows cfg.window now (bucket_key login_limit login) lo hi
                    (asked net sum256 cfg l password ip) w.buckets acc))
            | inr (listed, kept) ↦ rw listed (h lo hi)
          ])
    noted-grown login (forget l password ip) w seen acc lo hi h = ground (
      arith,
      beq-bucket_key l login login_limit,
      password-login (hash_password sum256 password) login,
      ip-login (net.ip_string ip) login,
      h lo hi,
    )
    noted-grown login (change m) w seen acc lo hi h = h lo hi

    let_through-accepted :
        (login : Bytes) (events : List (Event Ip)) (w : World IpNet) (seen acc : List ℤ) (lo hi : ℤ)
        → ((a b : ℤ) → count_between a b seen ≤ count_between a b acc)
        → count_between lo hi (let_through net orders sum256 cfg login seen events w)
          ≤ count_between lo hi (
              accepted
                (bucket_key login_limit login)
                acc
                (all_made net orders sum256 cfg events w)
                (run (λ key. cfg.window) (all_made net orders sum256 cfg events w) w.buckets).0)
    let_through-accepted login [] w seen acc lo hi h = h lo hi
    let_through-accepted login (e ∷ events) w seen acc lo hi h =
        rw
          (accepted-made net orders sum256 cfg limits_visited (bucket_key login_limit login) e w acc
            (all_made net orders sum256 cfg events (next net orders sum256 cfg e w)))
          (let_through-accepted login events (next net orders sum256 cfg e w) _ _ lo hi
            (λ a b. noted-grown login e w seen acc a b h))

    limited-all_made :
        (login : Bytes) (n : ℕ) (events : List (Event Ip)) (w : World IpNet)
        → cfg.login_attempts ≡ pos n
        → HasLimit (bucket_key login_limit login) n (all_made net orders sum256 cfg events w)
    limited-all_made login n [] w e = tt
    limited-all_made login n (attempt now l password ip ∷ events) w e =
        elim (Bool-cases (is_judged ((subnet_policer net orders).check ip (at_time now w)))) [
          | inl judged ↦ rw judged (
              limited-calls_made cfg.window now (bucket_key login_limit login) n
                (asked net sum256 cfg l password ip) w.buckets
                (all_made net orders sum256 cfg events
                  (next net orders sum256 cfg (attempt now l password ip) w))
                (
                  λ _. e,
                  (
                    λ same. ground (
                      arith,
                      password-login (hash_password sum256 password) login,
                      (beq_iff (bucket_key password_limit (hash_password sum256 password))
                            (bucket_key login_limit login)).1
                          same,
                    ),
                    (
                      λ same. ground (
                        arith,
                        ip-login (net.ip_string ip) login,
                        (beq_iff (bucket_key ip_limit (net.ip_string ip))
                              (bucket_key login_limit login)).1
                            same,
                      ),
                      tt,
                    ),
                  ),
                )
                (limited-all_made login n events
                  (next net orders sum256 cfg (attempt now l password ip) w) e))
          | inr listed ↦ rw listed (
              limited-all_made login n events
                (next net orders sum256 cfg (attempt now l password ip) w) e)
        ]
    limited-all_made login n (forget l password ip ∷ events) w e =
        limited-all_made login n events (next net orders sum256 cfg (forget l password ip) w) e
    limited-all_made login n (change m ∷ events) w e =
        limited-all_made login n events (next net orders sum256 cfg (change m) w) e

    IsChronological-all_made :
        (clock : ℤ) (events : List (Event Ip)) (w : World IpNet)
        → IsOrdered clock events
        → IsChronological clock (all_made net orders sum256 cfg events w)
    IsChronological-all_made clock [] w c = tt
    IsChronological-all_made clock (attempt now l password ip ∷ events) w (h, c) =
        elim (Bool-cases (is_judged ((subnet_policer net orders).check ip (at_time now w)))) [
          | inl judged ↦ rw judged (
              IsChronological-calls_made cfg.window now (asked net sum256 cfg l password ip)
                w.buckets clock
                (all_made net orders sum256 cfg events
                  (next net orders sum256 cfg (attempt now l password ip) w))
                h
                (IsChronological-all_made now events
                  (next net orders sum256 cfg (attempt now l password ip) w) c))
          | inr listed ↦ rw listed (
              earlier clock now
                (all_made net orders sum256 cfg events
                  (next net orders sum256 cfg (attempt now l password ip) w))
                h
                (IsChronological-all_made now events
                  (next net orders sum256 cfg (attempt now l password ip) w) c))
        ]
    IsChronological-all_made clock (forget l password ip ∷ events) w c =
        IsChronological-all_made clock events (next net orders sum256 cfg (forget l password ip) w)
          c
    IsChronological-all_made clock (change m ∷ events) w c =
        IsChronological-all_made clock events (next net orders sum256 cfg (change m) w) c

    -- From the start of the service in the local mode, with the limit `n` for a login and a window
    -- of `w` milliseconds, `0 < w`: whatever attempts, resets and changes of the lists follow, in
    -- order of time, and however the window is placed, at most `n` of the attempts on the login
    -- that no list decided and that `Check` let through since the last reset of the login lie
    -- inside it.
    pub let_through_le_limit :
        (login : Bytes) (n w : ℕ) (events : List (Event Ip)) (clock : ℤ)
        → 0 < w
        → cfg.login_attempts ≡ pos n
        → cfg.window ≡ pos (w * nanos_per_milli)
        → IsOrdered clock events
        → (x : ℤ)
        → count_between
            (x -ℤ pos w)
            x
            (let_through net orders sum256 cfg login [] events (new_world clock))
          ≤ n
    let_through_le_limit login n w events clock pos_w limit windowed ordered x =
        le_trans
          (let_through-accepted login events (new_world clock) [] [] (x -ℤ pos w) x
            (λ a b. omega arith))
          (accepted_le_limit (λ key. cfg.window) (bucket_key login_limit login) n w pos_w windowed
            (all_made net orders sum256 cfg events (new_world clock)) clock
            (IsChronological-all_made clock events (new_world clock) ordered)
            (limited-all_made login n events (new_world clock) limit) x)
