-- ===== src/Tests/Buckets.antt =====
-- The store of attempts over Redis, at concrete inputs.
use otus_anti_bruteforce.Base.{
  ℕ, ◌*◌, ◌/◌, ◌≤◌, true, false, List, [], ◌∷◌, ok, ◌≡◌, refl, if◌then◌else◌, ltb, ◌&&◌, arith,
}
use otus_anti_bruteforce.Base.Int.{ℤ, pos, negsuc, ◌+ℤ◌, ◌-ℤ◌}
use otus_anti_bruteforce.Base.Text.{Bytes, codes, beq}
use otus_anti_bruteforce.Base.Time.{nanos_per_milli, unix_milli}
use otus_anti_bruteforce.Base.Decimal.{digits, show_int, show_nat}
use otus_anti_bruteforce.Memory.Buckets.Safety.{count_between}
use otus_anti_bruteforce.Redis.{Client, member}
use otus_anti_bruteforce.Redis.Server.{Sets, no_set, put, serve, Serves}
use otus_anti_bruteforce.Redis.Window.{
  Call, attempt, reset, IsChronological, IsFresh, run_redis, strict_ledger, record_attempt,
}
use otus_anti_bruteforce.Redis.Refinement.{run_redis-strict_ledger}
use otus_anti_bruteforce.Redis.Bound.{accepted, passed_le_limit}

-- Whole seconds, and one second for a shorter time, as go-redis rounds the argument of `EXPIRE`.
abbrev pub seconds : ℤ → ℤ
seconds (pos d) = if ltb 0 d && ltb d 1000000000 then pos 1000 else pos (d / 1000000000 * 1000)
seconds (negsuc d) = pos 0

abbrev pub store : Client Sets
store = record {
  exec = λ now cs sets. let (replies, sets') = serve seconds now cs sets in (ok replies, sets');
  del = λ key sets. (ok tt, put key no_set sets);
}

pub store-Serves : Serves store seconds (λ sets. sets)
unfolding ◌+ℤ◌
store-Serves = record {
  exec_ok = λ now cs sets. refl;
  exec_view = λ now cs sets k. refl;
  del_ok = λ key sets. refl;
  del_view = λ key sets k. refl;
  ttl_long = λ w h. ground arith;
}

abbrev minute : Bytes → ℕ
minute key = 60000

-- Two attempts pass, and a third is refused and counted: with the fourth, a minute after the second,
-- it fills the window, so that the fifth is refused. A reset lets the sixth pass.
abbrev calls : List Call
calls =
    attempt (codes "login:ann") (pos 2) (pos (1000 * nanos_per_milli)) 7
    ∷ attempt (codes "login:ann") (pos 2) (pos (2000 * nanos_per_milli)) 7
    ∷ attempt (codes "login:ann") (pos 2) (pos (30000 * nanos_per_milli)) 8
    ∷ attempt (codes "login:ann") (pos 2) (pos (62000 * nanos_per_milli)) 9
    ∷ attempt (codes "login:ann") (pos 2) (pos (62000 * nanos_per_milli)) 10
    ∷ reset (codes "login:ann")
    ∷ attempt (codes "login:ann") (pos 2) (pos (63000 * nanos_per_milli)) 11
    ∷ []

calls-IsChronological : IsChronological (pos 0) calls
calls-IsChronological = (
  omega arith,
  omega arith,
  (
    omega arith,
    omega arith,
    (
      omega arith,
      omega arith,
      (omega arith, omega arith, (omega arith, omega arith, (omega arith, omega arith, tt))),
    ),
  ),
)

calls-IsFresh : IsFresh [] calls
unfolding member unix_milli beq digits show_int show_nat
calls-IsFresh = (refl, (refl, (refl, (refl, (refl, (refl, tt))))))

redis_replies :
    (strict_ledger minute calls (λ key. [])).0
    ≡ ok true ∷ ok true ∷ ok false ∷ ok true ∷ ok false ∷ ok true ∷ []
unfolding strict_ledger record_attempt unix_milli ◌-ℤ◌ beq
redis_replies = refl

run_redis-strict_ledger_example :
    (run_redis minute store calls (λ key. no_set)).0 ≡ (strict_ledger minute calls (λ key. [])).0
run_redis-strict_ledger_example =
    run_redis-strict_ledger store seconds (λ sets. sets) store-Serves minute (λ key. omega arith)
      calls (pos 0) (λ key. no_set) (λ key. refl) calls-IsChronological calls-IsFresh

passed_le_limit_example :
    count_between
      (pos 62500 -ℤ pos 60000)
      (pos 62500)
      (accepted (codes "login:ann") [] calls (run_redis minute store calls (λ key. no_set)).0)
    ≤ 2
passed_le_limit_example =
    passed_le_limit minute (λ key. omega arith) (codes "login:ann") 2 store seconds (λ sets. sets)
      store-Serves calls (pos 0) (λ key. no_set) (λ key. refl) calls-IsChronological calls-IsFresh
      (λ e. refl, (λ e. refl, (λ e. refl, (λ e. refl, (λ e. refl, (λ e. refl, tt)))))) (pos 62500)
