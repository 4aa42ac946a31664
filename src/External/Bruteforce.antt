-- ===== src/External/Bruteforce.antt =====
-- The bound on brute force in the external mode: attempts and resets at any instances, in any order.
use otus_anti_bruteforce.Base.{
  ℕ, ◌<◌, ◌≤◌, true, ◌&&◌, List, [], ◌∷◌, ◌++◌, ◌≡◌, ◌∙◌, ap, sym, Bool-cases, inl, inr,
  if◌then◌else◌, arith,
}
use otus_anti_bruteforce.Base.Int.{ℤ, pos, ◌-ℤ◌}
use otus_anti_bruteforce.Base.Text.{Bytes, beq, beq_iff}
use otus_anti_bruteforce.Base.GoMap.{Visits}
use otus_anti_bruteforce.Base.Time.{unix_milli}
use otus_anti_bruteforce.Domain.{PolicyDecision, login_limit, password_limit, ip_limit}
use otus_anti_bruteforce.Memory.Buckets.Safety.{count_between}
use otus_anti_bruteforce.Redis.{Client}
use otus_anti_bruteforce.Redis.Server.{Sets, no_set, Serves}
use otus_anti_bruteforce.Redis.Window.{Call, run_redis, IsFresh}
use otus_anti_bruteforce.Redis.Bound.{accepted, passed_le_limit}
use otus_anti_bruteforce.RateLimit.Limiter.{bucket_key}
use otus_anti_bruteforce.RateLimit.Checker.{Limits, LimitsConfig}
use otus_anti_bruteforce.RateLimit.Keys.{beq-bucket_key}
use otus_anti_bruteforce.App.Password.{hash_password}
use otus_anti_bruteforce.Local.Chain.{Buckets}
use otus_anti_bruteforce.Local.Events.{
  is_judged, is_passed, le_trans, append_le, count_if, password-login, ip-login,
}
use otus_anti_bruteforce.External.{
  Shared, Event, attempt, forget, IsOrdered, rate_limiter, next, noted, let_through,
}
use otus_anti_bruteforce.External.Attempts.{
  limits, judged_continues, asked, asked_next, checked, listed_keeps, reset_forgotten,
}
use otus_anti_bruteforce.External.Calls.{
  made_by, all_made, limited-all_made, IsChronological-all_made,
}
use otus_anti_bruteforce.External.Chain.{chain, grown, accepted-made, grown_grows, grown_by_first}

module _ {R : Type 0} (client : Client R) (random : ℕ → ℕ) {Ip : Type 0} (ip_string : Ip → Bytes)
    (sum256 : Bytes → List ℕ) (order : Limits → Limits) (visits : Visits order) (n : ℕ) (p i : ℤ)
    (w : ℕ) where
  abbrev cfg : LimitsConfig
  cfg = limits n p i w

  abbrev hash : Bytes → Bytes
  hash = hash_password sum256

  abbrev asking : Bytes → Bytes → Ip → Buckets
  asking = asked ip_string sum256 n p i

  abbrev grown_by : Bytes → Event Ip → Shared R → List ℤ → List ℤ
  grown_by k (attempt now decision login password ip) s acc =
      if is_judged decision
      then grown client random w now k (asking login password ip) s acc
      else acc
  grown_by k (forget login password ip) s acc =
      if beq (bucket_key ip_limit (ip_string ip)) k
      then []
      else if beq (bucket_key password_limit (hash password)) k
      then []
      else if beq (bucket_key login_limit login) k
      then []
      else acc

  module _ (ttl : ℤ → ℤ) (view : R → Sets) (serves : Serves client ttl view) where
    -- What an event does to Redis is what its calls do.
    accepted-made_by :
        (k : Bytes) (e : Event Ip) (s : Shared R) (acc : List ℤ) (later : List Call)
        → accepted k acc
            (made_by client random ip_string sum256 order visits n p i w e s ++ later)
            (run_redis
              (λ key. w)
              client
              (made_by client random ip_string sum256 order visits n p i w e s ++ later)
              s.1).0
          ≡ accepted k
              (grown_by k e s acc)
              later
              (run_redis
                (λ key. w)
                client
                later
                (next client random ip_string sum256 order cfg e s).1).0
    unfolding run_redis
    accepted-made_by k (attempt now decision login password ip) s acc later =
        elim (Bool-cases (is_judged decision)) [
          | inl judged ↦ rw judged (
              accepted-made client random w now k (asking login password ip) s acc later
              ∙ ap
                  (λ x.
                    accepted k (grown client random w now k (asking login password ip) s acc) later
                      (run_redis (λ key. w) client later x.1.1).0)
                  (sym (
                    checked client random ip_string sum256 order visits n p i w now decision login
                      password ip s (judged_continues decision judged))))
          | inr listed ↦ rw listed (
              ap (λ x. accepted k acc later (run_redis (λ key. w) client later x.1).0)
                (sym (
                  listed_keeps client random ip_string sum256 order visits n p i w now decision
                    login password ip s listed)))
        ]
    accepted-made_by k (forget login password ip) s acc later =
        ap
          (λ x.
            accepted k (grown_by k (forget login password ip) s acc) later
              (run_redis (λ key. w) client later x.1.1).0)
          (sym (
            reset_forgotten client random ip_string sum256 order visits n p i w ttl view serves
              login password ip s))

    passed_first :
        (login : Bytes) (now : ℤ) (decision : PolicyDecision) (l password : Bytes) (ip : Ip)
        (s : Shared R) (seen acc : List ℤ) (lo hi : ℤ)
        → ((a b : ℤ) → count_between a b seen ≤ count_between a b acc)
        → (beq l login
            && is_judged decision
            && is_passed
                ((rate_limiter client random ip_string sum256 order cfg now decision).check l
                  password ip s).0)
          ≡ true
        → count_between lo hi (seen ++ unix_milli now ∷ [])
          ≤ count_between lo hi
              (grown_by (bucket_key login_limit login) (attempt now decision l password ip) s acc)
    passed_first login now decision l password ip s seen acc lo hi h c =
        let same : l ≡ login = (beq_iff l login).0 (ground arith) in
        let judged : is_judged decision ≡ true = ground arith in
        let passes : is_passed (chain client random w now (asking l password ip) s).0 ≡ true =
          sym (
            ap (λ x. is_passed x.0)
              (checked client random ip_string sum256 order visits n p i w now decision l password
                ip s (judged_continues decision judged)))
          ∙ ground arith in
        rw (judged, ← same)
          (le_trans (append_le lo hi (unix_milli now) seen acc h) (
            grown_by_first client random w now (bucket_key login_limit l) lo hi (pos n)
              (asked_next ip_string sum256 n p i password ip) s acc passes))

    -- Every attempt that is noted has been accepted by the bucket of its login.
    noted-grown_by :
        (login : Bytes) (e : Event Ip) (s : Shared R) (seen acc : List ℤ) (lo hi : ℤ)
        → ((a b : ℤ) → count_between a b seen ≤ count_between a b acc)
        → count_between lo hi (noted client random ip_string sum256 order cfg login e s seen)
          ≤ count_between lo hi (grown_by (bucket_key login_limit login) e s acc)
    noted-grown_by login (attempt now decision l password ip) s seen acc lo hi h =
        count_if lo hi _ (seen ++ unix_milli now ∷ []) seen _
          (passed_first login now decision l password ip s seen acc lo hi h)
          (elim (Bool-cases (is_judged decision)) [
            | inl judged ↦ rw judged (
                le_trans (h lo hi) (
                  grown_grows client random w now (bucket_key login_limit login) lo hi
                    (asking l password ip) s acc))
            | inr listed ↦ rw listed (h lo hi)
          ])
    noted-grown_by login (forget l password ip) s seen acc lo hi h = ground (
      arith,
      beq-bucket_key l login login_limit,
      password-login (hash password) login,
      ip-login (ip_string ip) login,
      h lo hi,
    )

    let_through-accepted :
        (login : Bytes) (events : List (Event Ip)) (s : Shared R) (seen acc : List ℤ) (lo hi : ℤ)
        → ((a b : ℤ) → count_between a b seen ≤ count_between a b acc)
        → count_between lo hi
            (let_through client random ip_string sum256 order cfg login seen events s)
          ≤ count_between lo hi (
              accepted
                (bucket_key login_limit login)
                acc
                (all_made client random ip_string sum256 order visits n p i w events s)
                (run_redis
                  (λ key. w)
                  client
                  (all_made client random ip_string sum256 order visits n p i w events s)
                  s.1).0)
    let_through-accepted login [] s seen acc lo hi h = h lo hi
    let_through-accepted login (e ∷ events) s seen acc lo hi h =
        rw
          (accepted-made_by (bucket_key login_limit login) e s acc (
            all_made client random ip_string sum256 order visits n p i w events
              (next client random ip_string sum256 order cfg e s)))
          (let_through-accepted login events (next client random ip_string sum256 order cfg e s) _ _
            lo hi (λ a b. noted-grown_by login e s seen acc a b h))

  -- In the external mode, over a Redis that is up and starts empty, with the limit `n` for a login
  -- and a window of `w` milliseconds, `0 < w`: whatever attempts and resets follow at any
  -- instances, one after the other, in order of time and not before 1970, whatever the lists of
  -- each instance say and whatever the order of the loop over the limits, if no two of the calls of
  -- `Allow` that they make on a key get the same member, which spells the millisecond and the
  -- random number: however the window is placed, at most `n` of the attempts on the login that no
  -- list decided and that `Check` let through since the last reset of the login lie inside it.
  pub passed_attempts_le_limit :
      (ttl : ℤ → ℤ) (view : R → Sets)
      → Serves client ttl view
      → 0 < w
      → (login : Bytes) (events : List (Event Ip)) (clock : ℤ) (r : R)
      → ((key : Bytes) → view r key ≡ no_set)
      → IsOrdered clock events
      → IsFresh [] (all_made client random ip_string sum256 order visits n p i w events (0, r))
      → (x : ℤ)
      → count_between
          (x -ℤ pos w)
          x
          (let_through client random ip_string sum256 order cfg login [] events (0, r))
        ≤ n
  passed_attempts_le_limit ttl view serves positive login events clock r empty ordered fresh x =
      le_trans
        (let_through-accepted ttl view serves login events (0, r) [] [] (x -ℤ pos w) x
          (λ a b. omega arith))
        (passed_le_limit (λ key. w) (λ key. positive) (bucket_key login_limit login) n client ttl
          view serves (all_made client random ip_string sum256 order visits n p i w events (0, r))
          clock r empty
          (IsChronological-all_made client random ip_string sum256 order visits n p i w clock events
            (0, r) ordered)
          fresh
          (limited-all_made client random ip_string sum256 order visits n p i w login events (0, r))
          x)
