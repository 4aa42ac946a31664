-- ===== src/External/Calls.antt =====
-- The calls of Redis that attempts and resets make, their limits and their order.
use otus_anti_bruteforce.Base.{
  ℕ, List, [], ◌∷◌, ◌++◌, refl, Bool-cases, inl, inr, if◌then◌else◌, arith,
}
use otus_anti_bruteforce.Base.Int.{ℤ}
use otus_anti_bruteforce.Base.Text.{Bytes, beq_iff}
use otus_anti_bruteforce.Base.GoMap.{Visits}
use otus_anti_bruteforce.Domain.{login_limit, password_limit, ip_limit}
use otus_anti_bruteforce.Redis.{Client}
use otus_anti_bruteforce.Redis.Window.{Call, reset, IsChronological}
use otus_anti_bruteforce.Redis.Bound.{HasLimit}
use otus_anti_bruteforce.RateLimit.Limiter.{bucket_key}
use otus_anti_bruteforce.RateLimit.Checker.{Limits, LimitsConfig}
use otus_anti_bruteforce.App.Password.{hash_password}
use otus_anti_bruteforce.Local.Chain.{Buckets}
use otus_anti_bruteforce.Local.Events.{is_judged, password-login, ip-login}
use otus_anti_bruteforce.External.{Shared, Event, attempt, forget, IsOrdered, next}
use otus_anti_bruteforce.External.Attempts.{limits, asked}
use otus_anti_bruteforce.External.Chain.{made, limited-made, earlier, IsChronological-made}

module _ {R : Type 0} (client : Client R) (random : ℕ → ℕ) {Ip : Type 0} (ip_string : Ip → Bytes)
    (sum256 : Bytes → List ℕ) (order : Limits → Limits) (visits : Visits order) (n : ℕ) (p i : ℤ)
    (w : ℕ) where
  abbrev cfg : LimitsConfig
  cfg = limits n p i w

  abbrev hash : Bytes → Bytes
  hash = hash_password sum256

  abbrev asking : Bytes → Bytes → Ip → Buckets
  asking = asked ip_string sum256 n p i

  -- The calls of Redis that an event makes.
  abbrev pub made_by : Event Ip → Shared R → List Call
  made_by (attempt now decision login password ip) s =
      if is_judged decision then made client random w now (asking login password ip) s else []
  made_by (forget login password ip) s =
      reset (bucket_key login_limit login)
      ∷ reset (bucket_key password_limit (hash password))
      ∷ reset (bucket_key ip_limit (ip_string ip))
      ∷ []

  abbrev pub all_made : List (Event Ip) → Shared R → List Call
  all_made [] s = []
  all_made (e ∷ events) s =
      made_by e s ++ all_made events (next client random ip_string sum256 order cfg e s)

  pub limited-all_made :
      (login : Bytes) (events : List (Event Ip)) (s : Shared R)
      → HasLimit (bucket_key login_limit login) n (all_made events s)
  limited-all_made login [] s = tt
  limited-all_made login (attempt now decision l password ip ∷ events) s =
      elim (Bool-cases (is_judged decision)) [
        | inl judged ↦ rw judged (
            limited-made client random w now (bucket_key login_limit login) n (asking l password ip)
              s
              (all_made events (
                next client random ip_string sum256 order cfg (attempt now decision l password ip)
                  s))
              (
                λ _. refl,
                (
                  λ same. ground (
                    arith,
                    password-login (hash password) login,
                    (beq_iff (bucket_key password_limit (hash password))
                          (bucket_key login_limit login)).1
                        same,
                  ),
                  (
                    λ same. ground (
                      arith,
                      ip-login (ip_string ip) login,
                      (beq_iff (bucket_key ip_limit (ip_string ip))
                            (bucket_key login_limit login)).1
                          same,
                    ),
                    tt,
                  ),
                ),
              )
              (limited-all_made login events (
                next client random ip_string sum256 order cfg (attempt now decision l password ip)
                  s)))
        | inr listed ↦ rw listed (
            limited-all_made login events (
              next client random ip_string sum256 order cfg (attempt now decision l password ip) s))
      ]
  limited-all_made login (forget l password ip ∷ events) s =
      limited-all_made login events
        (next client random ip_string sum256 order cfg (forget l password ip) s)

  pub IsChronological-all_made :
      (clock : ℤ) (events : List (Event Ip)) (s : Shared R)
      → IsOrdered clock events
      → IsChronological clock (all_made events s)
  IsChronological-all_made clock [] s c = tt
  IsChronological-all_made clock (attempt now decision l password ip ∷ events) s (epoch, h, c) =
      elim (Bool-cases (is_judged decision)) [
        | inl judged ↦ rw judged (
            IsChronological-made client random w now (asking l password ip) s clock
              (all_made events (
                next client random ip_string sum256 order cfg (attempt now decision l password ip)
                  s))
              epoch h
              (IsChronological-all_made now events
                (next client random ip_string sum256 order cfg (attempt now decision l password ip)
                  s)
                c))
        | inr listed ↦ rw listed (
            earlier client random w now clock
              (all_made events (
                next client random ip_string sum256 order cfg (attempt now decision l password ip)
                  s))
              h
              (IsChronological-all_made now events
                (next client random ip_string sum256 order cfg (attempt now decision l password ip)
                  s)
                c))
      ]
  IsChronological-all_made clock (forget l password ip ∷ events) s c =
      IsChronological-all_made clock events
        (next client random ip_string sum256 order cfg (forget l password ip) s) c
