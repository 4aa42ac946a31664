-- ===== src/Tests/Stores.antt =====
-- The theorems on the two memory stores, at concrete inputs.
use otus_anti_bruteforce.Base.{ℕ, ◌*◌, ◌≤◌, List, [], ◌∷◌, ok, ◌≡◌, refl, arith}
use otus_anti_bruteforce.Base.Int.{ℤ, pos, ◌-ℤ◌}
use otus_anti_bruteforce.Base.Text.{Bytes, codes}
use otus_anti_bruteforce.Base.Time.{nanos_per_milli}
use otus_anti_bruteforce.Domain.{whitelist}
use otus_anti_bruteforce.Memory.Buckets.Defs.{new_buckets_db}
use otus_anti_bruteforce.Memory.Buckets.Window.{Call, attempt, reset, run, run_ledger}
use otus_anti_bruteforce.Memory.Buckets.Refinement.{run-run_ledger}
use otus_anti_bruteforce.Memory.Buckets.Safety.{count_between, accepted, accepted_le_limit}
use otus_anti_bruteforce.Memory.Subnets.Defs.{new_subnet_list_db, get_subnet_lists}
use otus_anti_bruteforce.Memory.Subnets.Contents.{
  add, has, expected, perform, mem, perform-expected, get_subnet_lists-has,
}
use otus_anti_bruteforce.Tests.Fixtures.{office, as_they_stand, stand_visits}

abbrev minute : Bytes → ℤ
minute key = pos (60000 * nanos_per_milli)

abbrev seconds : ℕ → ℤ
seconds n = pos (n * 1000 * nanos_per_milli)

abbrev ann : Bytes
ann = codes "login:ann"

-- Two attempts pass, the third does not; a minute after the first, one passes again.
abbrev calls : List Call
calls =
    attempt ann (pos 2) (seconds 1)
    ∷ attempt ann (pos 2) (seconds 2)
    ∷ attempt ann (pos 2) (seconds 3)
    ∷ attempt ann (pos 2) (seconds 61)
    ∷ reset ann
    ∷ attempt ann (pos 2) (seconds 62)
    ∷ []

run-run_ledger_example :
    (run minute calls new_buckets_db).0 ≡ (run_ledger minute calls (λ key. [])).0
run-run_ledger_example = run-run_ledger minute calls (pos 0) (omega arith)

accepted_le_limit_example :
    count_between
      (pos 61000 -ℤ pos 60000)
      (pos 61000)
      (accepted ann [] calls (run minute calls new_buckets_db).0)
    ≤ 2
accepted_le_limit_example =
    accepted_le_limit minute ann 2 60000 (omega arith) refl calls (pos 0) (omega arith)
      (λ e. refl, (λ e. refl, (λ e. refl, (λ e. refl, (λ e. refl, tt))))) (pos 61000)

perform-expected_example :
    ((perform (add whitelist office) new_subnet_list_db).0 ≡ ok tt)
    × ((m k : Bytes)
        → has (perform (add whitelist office) new_subnet_list_db).1 m k
          ≡ expected (add whitelist office) (has new_subnet_list_db) m k)
perform-expected_example = perform-expected (add whitelist office) new_subnet_list_db

get_subnet_lists-has_example :
    let db = (perform (add whitelist office) new_subnet_list_db).1 in
    (cidrs : List Bytes) × (get_subnet_lists as_they_stand whitelist db ≡ (ok cidrs, db))
    × ((k : Bytes) → mem k cidrs ≡ has db whitelist k)
get_subnet_lists-has_example =
    get_subnet_lists-has as_they_stand whitelist
      (perform (add whitelist office) new_subnet_list_db).1 stand_visits
