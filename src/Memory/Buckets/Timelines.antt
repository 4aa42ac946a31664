-- ===== src/Memory/Buckets/Timelines.antt =====
-- bucketsdb.go seen through the timeline of each key: what `allow` and `reset` do to it.
use otus_anti_bruteforce.Base.{
  Bool, true, false, Option, none, some, List, [], ◌≡◌, refl, ok, if◌then◌else◌, Option-cases, inl,
  inr, arith,
}
use otus_anti_bruteforce.Base.Int.{ℤ, pos, leb_ℤ}
use otus_anti_bruteforce.Base.Text.{Bytes, beq, beq_iff}
use otus_anti_bruteforce.Base.GoMap.{lookup, insert, lookup-insert}
use otus_anti_bruteforce.Memory.Buckets.Defs.{
  Timeline, BucketsDb, new_buckets_db, get_timeline, admit, allow, reset,
}

abbrev times_in : Option Timeline → List ℤ
times_in none = []
times_in (some tl) = tl.times

-- The attempts on record for a key; none for a key that has no timeline.
unfoldable pub times_of : BucketsDb → Bytes → List ℤ
times_of l key = times_in (lookup key l.data_of)

-- One call of `allow`, as a function of the key's timeline alone.
unfoldable pub attempt : ℤ → ℤ → ℤ → List ℤ → Bool × List ℤ
attempt limit window now times =
    if leb_ℤ limit (pos 0)
    then (false, times)
    else if leb_ℤ window (pos 0)
    then (true, times)
    else admit limit window now times

pub times_of_new : (key : Bytes) → times_of new_buckets_db key ≡ []
unfolding times_of lookup
times_of_new key = refl

module _ (l : BucketsDb) (key : Bytes) where
  times-get_timeline : (get_timeline key l).0.times ≡ times_of l key
  unfolding get_timeline times_of
  times-get_timeline = ground arith

  times_of-store :
      (tl : Timeline) (k : Bytes)
      → times_of (record { data_of = insert key tl (get_timeline key l).1.data_of }) k
        ≡ (if beq key k then tl.times else times_of l k)
  unfolding get_timeline times_of
  times_of-store tl k = elim (Option-cases (lookup key l.data_of)) [
    | inl new ↦ rw (new, get_timeline) (simp (lookup-insert) (ground (arith, beq_iff key k)))
    | inr (old, found) ↦
        rw (found, get_timeline) (simp (lookup-insert) (ground (arith, beq_iff key k)))
  ]

  pub reply-allow :
      (now limit window : ℤ)
      → (allow now key limit window l).0 ≡ ok (attempt limit window now (times_of l key)).0
  unfolding allow attempt
  reply-allow now limit window = rw (← times-get_timeline) (ground arith)

  -- Only the timeline of the key of the call changes.
  pub times_of-allow :
      (now limit window : ℤ) (k : Bytes)
      → times_of (allow now key limit window l).1 k
        ≡ (if beq key k then (attempt limit window now (times_of l key)).1 else times_of l k)
  unfolding allow attempt
  times_of-allow now limit window k = ground (
    arith,
    times-get_timeline,
    beq_iff key k,
    times_of-store (record { times = (admit limit window now (get_timeline key l).0.times).1 }) k,
  )

  pub times_of-reset :
      (k : Bytes) → times_of (reset key l).1 k ≡ (if beq key k then [] else times_of l k)
  unfolding reset times_of
  times_of-reset k =
      ground (arith, beq_iff key k, lookup-insert key k (record { times = [] }) l.data_of)

  pub reply-reset : (reset key l).0 ≡ ok tt
  unfolding reset
  reply-reset = ground arith
