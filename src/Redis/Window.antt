-- ===== src/Redis/Window.antt =====
-- The sliding window that buckets_repo.go keeps: refused attempts count too. A ledger of all the
-- attempts, and runs of calls against it and against the store.
use otus_anti_bruteforce.Base.{ℕ, ◌*◌, Bool, false, ◌&&◌, List, [], ◌∷◌, ◌++◌, Result, ok, ◌≡◌, any}
use otus_anti_bruteforce.Base.Int.{ℤ, pos, ◌≤ℤ◌, ◌-ℤ◌, leb_ℤ}
use otus_anti_bruteforce.Base.Text.{Bytes, beq}
use otus_anti_bruteforce.Base.Time.{unix_milli, nanos_per_milli}
use otus_anti_bruteforce.Memory.Buckets.Pruning.{count_after}
use otus_anti_bruteforce.Memory.Buckets.Window.{Ledger, set}
use otus_anti_bruteforce.Redis
use otus_anti_bruteforce.Redis.{Client, member, allow}

-- `attempt key limit now sfx` is a call of `Allow` at the time `now`, in nanoseconds, for which the
-- random number is `sfx`.
pub data Call : Type 0 where
  attempt : Bytes → ℤ → ℤ → ℕ → Call
  reset : Bytes → Call

-- The clock does not run backwards between the calls, and does not stand before 1970.
abbrev pub IsChronological : ℤ → List Call → Type 0
IsChronological clock [] = Unit
IsChronological clock (attempt key limit now sfx ∷ calls) =
    (pos 0 ≤ℤ now) × (clock ≤ℤ now) × IsChronological now calls
IsChronological clock (reset key ∷ calls) = IsChronological clock calls

abbrev pub is_used : Bytes → Bytes → List (Bytes × Bytes) → Bool
is_used key m = any (λ e. beq e.0 key && beq e.1 m)

-- No two attempts on a key get the same member, which is made of the millisecond and the random
-- number. `used` has the keys with the members so far.
abbrev pub IsFresh : List (Bytes × Bytes) → List Call → Type 0
IsFresh used [] = Unit
IsFresh used (attempt key limit now sfx ∷ calls) =
    (is_used key (member (unix_milli now) sfx) used ≡ false)
    × IsFresh ((key, member (unix_milli now) sfx) ∷ used) calls
IsFresh used (reset key ∷ calls) = IsFresh used calls

-- An attempt is put on record, and passes if the window then holds at most `limit` of them.
unfoldable pub record_attempt : ℤ → ℕ → ℤ → List ℤ → Bool × List ℤ
record_attempt limit w now h =
    let h' = h ++ now ∷ [] in (leb_ℤ (pos (count_after (now -ℤ pos w) h')) limit, h')

-- The window of a key, in milliseconds.
module _ (w : Bytes → ℕ) where
  unfoldable pub run_redis : {R : Type 0} → Client R → List Call → R → List (Result Bool) × R
  run_redis client [] r = ([], r)
  run_redis client (attempt key limit now sfx ∷ calls) r =
      let (reply, r') = allow client now (ok sfx) key limit (pos (w key * nanos_per_milli)) r in
      let (replies, r'') = run_redis client calls r' in (reply ∷ replies, r'')
  run_redis client (reset key ∷ calls) r = run_redis client calls (Redis.reset client key r).1

  unfoldable pub strict_ledger : List Call → Ledger → List (Result Bool) × Ledger
  strict_ledger [] h = ([], h)
  strict_ledger (attempt key limit now sfx ∷ calls) h =
      let (passed, times) = record_attempt limit (w key) (unix_milli now) (h key) in
      let (replies, h') = strict_ledger calls (set h key times) in (ok passed ∷ replies, h')
  strict_ledger (reset key ∷ calls) h = strict_ledger calls (set h key [])
