-- ===== src/Local/Events.antt =====
-- What clients do to the local mode over time, and the counting of attempts.
use otus_anti_bruteforce.Base.{
  ℕ, ◌≤◌, Bool, true, false, ◌||◌, List, [], ◌∷◌, ◌++◌, Result, ok, err, ◌≡◌, refl, if◌then◌else◌,
  arith,
}
use otus_anti_bruteforce.Base.Int.{ℤ, ◌≤ℤ◌}
use otus_anti_bruteforce.Base.Text.{Bytes, beq}
use otus_anti_bruteforce.Domain.{
  login_limit, password_limit, ip_limit, PolicyDecision, decision_continue, decision_deny,
  decision_allow,
}
use otus_anti_bruteforce.Memory.Buckets.Safety.{count_between, count_between-append}
use otus_anti_bruteforce.RateLimit.Limiter.{bucket_key}
use otus_anti_bruteforce.Local.World.{World}
use otus_anti_bruteforce.Local.Manage.{Manage}

-- What clients do: an attempt at a time, in nanoseconds, a reset, or a change of the lists.
pub data Event (Ip : Type 0) : Type 0 where
  attempt : ℤ → Bytes → Bytes → Ip → Event Ip
  forget : Bytes → Bytes → Ip → Event Ip
  change : Manage → Event Ip

-- The clock does not run backwards between the attempts.
abbrev pub IsOrdered : {Ip : Type 0} → ℤ → List (Event Ip) → Type 0
IsOrdered clock [] = Unit
IsOrdered clock (attempt now login password ip ∷ events) = (clock ≤ℤ now) × IsOrdered now events
IsOrdered clock (forget login password ip ∷ events) = IsOrdered clock events
IsOrdered clock (change m ∷ events) = IsOrdered clock events

abbrev pub is_judged : PolicyDecision → Bool
is_judged decision_continue = true
is_judged decision_deny = false
is_judged decision_allow = false

abbrev pub is_passed : Result Bool → Bool
is_passed (ok passed) = passed
is_passed (err e) = false

abbrev pub at_time : {IpNet : Type 0} → ℤ → World IpNet → World IpNet
at_time now w = record w { clock = now }

pub le_trans : {a b c : ℕ} → a ≤ b → b ≤ c → a ≤ c
le_trans h k = omega arith

pub append_le :
    (lo hi t : ℤ) (xs ys : List ℤ)
    → ((a b : ℤ) → count_between a b xs ≤ count_between a b ys)
    → count_between lo hi (xs ++ t ∷ []) ≤ count_between lo hi (ys ++ t ∷ [])
append_le lo hi t xs ys h =
    ground (arith, count_between-append lo hi t xs, count_between-append lo hi t ys, h lo hi)

pub thrice_emptied :
    (a b c : Bool) (acc : List ℤ)
    → (if c then [] else if b then [] else if a then [] else acc)
      ≡ (if a || b || c then [] else acc)
thrice_emptied a b c acc = ground arith

pub count_if :
    (lo hi : ℤ) (c : Bool) (xs ys zs : List ℤ)
    → (c ≡ true → count_between lo hi xs ≤ count_between lo hi zs)
    → count_between lo hi ys ≤ count_between lo hi zs
    → count_between lo hi (if c then xs else ys) ≤ count_between lo hi zs
count_if lo hi true xs ys zs h k = h refl
count_if lo hi false xs ys zs h k = k

-- The bucket of a login is neither one of a password nor one of an address.
pub password-login :
    (a b : Bytes) → beq (bucket_key password_limit a) (bucket_key login_limit b) ≡ false
unfolding beq
password-login a b = refl

pub ip-login : (a b : Bytes) → beq (bucket_key ip_limit a) (bucket_key login_limit b) ≡ false
unfolding beq
ip-login a b = refl
