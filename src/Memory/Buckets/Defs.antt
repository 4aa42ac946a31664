-- ===== src/Memory/Buckets/Defs.antt =====
-- internal/storage/memory/bucketsdb.go: a timeline of accepted attempts for each key. The mutexes
-- make each call atomic, so a call is one function; its `time.Now()` is the argument `now`.
use otus_anti_bruteforce.Base.{
  ℕ, suc, Bool, true, false, none, some, List, [], ◌∷◌, ◌++◌, ok, Exec, length, drop, ltb,
  if◌then◌else◌,
}
use otus_anti_bruteforce.Base.Int.{ℤ, pos, ◌-ℤ◌, leb_ℤ}
use otus_anti_bruteforce.Base.Text.{Bytes}
use otus_anti_bruteforce.Base.GoMap.{GoMap, lookup, insert}
use otus_anti_bruteforce.Base.Time.{unix_milli}

-- the accepted attempts, in milliseconds
pub record Timeline : Type 0 where
  pub times : List ℤ

pub record BucketsDb : Type 0 where
  pub data_of : GoMap Timeline

abbrev pub new_buckets_db : BucketsDb
new_buckets_db = record { data_of = [] }

abbrev pub new_timeline : Timeline
new_timeline = record { times = [] }

-- A key that is not there yet gets an empty timeline.
unfoldable pub get_timeline : Bytes → BucketsDb → Timeline × BucketsDb
get_timeline key l = elim (lookup key l.data_of) [
  | some tl ↦ (tl, l)
  | none ↦ (new_timeline, record { data_of = insert key new_timeline l.data_of })
]

-- the loop of `Allow`: the index of the first attempt inside the window
unfoldable pub stale : ℤ → List ℤ → ℕ
stale cut [] = 0
stale cut (t ∷ times) = if leb_ℤ t cut then suc (stale cut times) else 0

unfoldable pub prune : ℤ → List ℤ → List ℤ
unfolding stale
prune cut times = let i = stale cut times in if ltb 0 i then drop i times else times

-- the part of `Allow` under the lock of the timeline
unfoldable pub admit : ℤ → ℤ → ℤ → List ℤ → Bool × List ℤ
admit limit window now times =
    let kept = prune (unix_milli (now -ℤ window)) times in
    if leb_ℤ limit (pos (length kept)) then (false, kept) else (true, kept ++ unix_milli now ∷ [])

unfoldable pub allow : ℤ → Bytes → ℤ → ℤ → Exec BucketsDb Bool
allow now key limit window l =
    if leb_ℤ limit (pos 0)
    then (ok false, l)
    else if leb_ℤ window (pos 0)
    then (ok true, l)
    else let (tl, l') = get_timeline key l in
      let (allowed, times) = admit limit window now tl.times in
      (ok allowed, record { data_of = insert key (record { times = times }) l'.data_of })

unfoldable pub reset : Bytes → Exec BucketsDb (Unit {0})
reset key l = elim (lookup key l.data_of) [
  | none ↦ (ok tt, l)
  | some tl ↦ (ok tt, record { data_of = insert key (record { times = [] }) l.data_of })
]
