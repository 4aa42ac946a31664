-- ===== src/Memory/Buckets/Window.antt =====
-- The sliding window that ports.LimiterRepo promises, over a ledger that forgets nothing but what
-- a reset clears, and runs of calls against it and against bucketsdb.go.
use otus_anti_bruteforce.Base.{Bool, true, false, List, [], ◌∷◌, ◌++◌, Result, ok, if◌then◌else◌}
use otus_anti_bruteforce.Base.Int.{ℤ, pos, ◌≤ℤ◌, ◌-ℤ◌, leb_ℤ}
use otus_anti_bruteforce.Base.Text.{Bytes, beq}
use otus_anti_bruteforce.Base.Time.{unix_milli}
use otus_anti_bruteforce.Memory.Buckets.Defs
use otus_anti_bruteforce.Memory.Buckets.Defs.{BucketsDb, allow}
use otus_anti_bruteforce.Memory.Buckets.Pruning.{count_after}

-- `attempt key limit now` is a call of `Allow` at the time `now`, in nanoseconds.
pub data Call : Type 0 where
  attempt : Bytes → ℤ → ℤ → Call
  reset : Bytes → Call

-- The clock does not run backwards between the calls.
abbrev pub IsChronological : ℤ → List Call → Type 0
IsChronological clock [] = Unit
IsChronological clock (attempt key limit now ∷ calls) = (clock ≤ℤ now) × IsChronological now calls
IsChronological clock (reset key ∷ calls) = IsChronological clock calls

-- The accepted attempts of a key, in milliseconds.
abbrev pub Ledger : Type 0
Ledger = Bytes → List ℤ

abbrev pub set : Ledger → Bytes → List ℤ → Ledger
set h key times k = if beq key k then times else h k

-- An attempt passes if fewer than `limit` accepted ones lie inside the window.
unfoldable pub judge : ℤ → ℤ → ℤ → List ℤ → Bool × List ℤ
judge limit window now h =
    if leb_ℤ limit (pos 0)
    then (false, h)
    else if leb_ℤ window (pos 0)
    then (true, h)
    else if leb_ℤ limit (pos (count_after (unix_milli (now -ℤ window)) h))
    then (false, h)
    else (true, h ++ unix_milli now ∷ [])

module _ (window : Bytes → ℤ) where
  -- The replies of the store to the calls of `Allow`, and the store after them.
  unfoldable pub run : List Call → BucketsDb → List (Result Bool) × BucketsDb
  run [] l = ([], l)
  run (attempt key limit now ∷ calls) l =
      let (reply, l') = allow now key limit (window key) l in
      let (replies, l'') = run calls l' in (reply ∷ replies, l'')
  run (reset key ∷ calls) l = run calls (Defs.reset key l).1

  unfoldable pub run_ledger : List Call → Ledger → List (Result Bool) × Ledger
  run_ledger [] h = ([], h)
  run_ledger (attempt key limit now ∷ calls) h =
      let (passed, times) = judge limit (window key) now (h key) in
      let (replies, h') = run_ledger calls (set h key times) in (ok passed ∷ replies, h')
  run_ledger (reset key ∷ calls) h = run_ledger calls (set h key [])
