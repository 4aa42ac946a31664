-- ===== src/Local/Chain.antt =====
-- The three limits of an attempt as calls of bucketsdb.go: a chain that stops at the first refusal.
use otus_anti_bruteforce.Base.{
  ℕ, Bool, true, ◌&&◌, List, [], ◌∷◌, ◌++◌, ◌≡◌, refl, if◌then◌else◌, Bool-cases, inl, inr, arith,
  ◌≤◌, All,
}
use otus_anti_bruteforce.Base.Int.{ℤ, pos, ◌≤ℤ◌}
use otus_anti_bruteforce.Base.Text.{Bytes, beq, beq_refl}
use otus_anti_bruteforce.Base.Time.{unix_milli}
use otus_anti_bruteforce.Memory.Buckets.Defs.{BucketsDb, allow}
use otus_anti_bruteforce.Memory.Buckets.Timelines.{times_of, reply-allow}
use otus_anti_bruteforce.Memory.Buckets.Timelines
use otus_anti_bruteforce.Memory.Buckets.Window.{Call, attempt, reset, IsChronological, run}
use otus_anti_bruteforce.Memory.Buckets.Safety.{
  accepted, count_between, count_between-append, HasLimit,
}

pub earlier :
    (before now : ℤ) (calls : List Call)
    → before ≤ℤ now
    → IsChronological now calls
    → IsChronological before calls
earlier before now [] h c = tt
earlier before now (attempt key limit later ∷ calls) h (c, cs) = (omega arith, cs)
earlier before now (reset key ∷ calls) h c = earlier before now calls h c

-- The buckets to ask, each with its limit.
abbrev pub Buckets : Type 0
Buckets = List (Bytes × ℤ)

module _ (window now : ℤ) where
  abbrev pub passes : Bytes → ℤ → BucketsDb → Bool
  passes key limit b = (Timelines.attempt limit window now (times_of b key)).0

  -- The calls that are made, what they answer together, and the store after them.
  abbrev pub calls_made : Buckets → BucketsDb → List Call
  calls_made [] b = []
  calls_made ((key, limit) ∷ keys) b =
      let rest = calls_made keys (allow now key limit window b).1 in
      attempt key limit now ∷ (if passes key limit b then rest else [])

  abbrev pub all_pass : Buckets → BucketsDb → Bool
  all_pass [] b = true
  all_pass ((key, limit) ∷ keys) b =
      let rest = all_pass keys (allow now key limit window b).1 in passes key limit b && rest

  abbrev pub after_calls : Buckets → BucketsDb → BucketsDb
  after_calls [] b = b
  after_calls ((key, limit) ∷ keys) b =
      let rest = after_calls keys (allow now key limit window b).1 in
      if passes key limit b then rest else (allow now key limit window b).1

  -- The accepted attempts on a bucket, once the calls have been made.
  abbrev pub extended : Bytes → Buckets → BucketsDb → List ℤ → List ℤ
  extended k [] b acc = acc
  extended k ((key, limit) ∷ keys) b acc =
      let acc' = if beq key k && passes key limit b then acc ++ unix_milli now ∷ [] else acc in
      let rest = extended k keys (allow now key limit window b).1 acc' in
      if passes key limit b then rest else acc'

  pub accepted-calls_made :
      (k : Bytes) (keys : Buckets) (b : BucketsDb) (acc : List ℤ) (later : List Call)
      → accepted k acc
          (calls_made keys b ++ later)
          (run (λ key. window) (calls_made keys b ++ later) b).0
        ≡ accepted k
            (extended k keys b acc)
            later
            (run (λ key. window) later (after_calls keys b)).0
  unfolding run
  accepted-calls_made k [] b acc later = refl
  accepted-calls_made k ((key, limit) ∷ keys) b acc later =
      rw reply-allow (elim (Bool-cases (passes key limit b)) [
        | inl lets ↦ rw lets (accepted-calls_made k keys (allow now key limit window b).1 _ later)
        | inr stops ↦ rw stops
      ])

  pub IsChronological-calls_made :
      (keys : Buckets) (b : BucketsDb) (clock : ℤ) (later : List Call)
      → clock ≤ℤ now
      → IsChronological now later
      → IsChronological clock (calls_made keys b ++ later)
  IsChronological-calls_made [] b clock later h c = earlier clock now later h c
  IsChronological-calls_made ((key, limit) ∷ keys) b clock later h c = (
    h,
    elim (Bool-cases (passes key limit b)) [
      | inl lets ↦ rw lets (
          IsChronological-calls_made keys (allow now key limit window b).1 now later (omega arith)
            c)
      | inr stops ↦ rw stops c
    ],
  )

  pub limited-calls_made :
      (k : Bytes) (n : ℕ) (keys : Buckets) (b : BucketsDb) (later : List Call)
      → All (λ e. e.0 ≡ k → e.1 ≡ pos n) keys
      → HasLimit k n later
      → HasLimit k n (calls_made keys b ++ later)
  limited-calls_made k n [] b later h c = c
  limited-calls_made k n ((key, limit) ∷ keys) b later (h, hs) c = (
    h,
    elim (Bool-cases (passes key limit b)) [
      | inl lets ↦ rw lets (limited-calls_made k n keys (allow now key limit window b).1 later hs c)
      | inr stops ↦ rw stops c
    ],
  )

  pub extended_grows :
      (k : Bytes) (lo hi : ℤ) (keys : Buckets) (b : BucketsDb) (acc : List ℤ)
      → count_between lo hi acc ≤ count_between lo hi (extended k keys b acc)
  extended_grows k lo hi [] b acc = omega arith
  extended_grows k lo hi ((key, limit) ∷ keys) b acc =
      let acc' : List ℤ =
        if beq key k && passes key limit b then acc ++ unix_milli now ∷ [] else acc in
      ground (
        arith,
        count_between-append lo hi (unix_milli now) acc,
        extended_grows k lo hi keys (allow now key limit window b).1 acc',
      )

  -- If all calls pass, and the first is on the bucket, its accepted attempts have grown by one.
  pub extended_by_first :
      (k : Bytes) (lo hi limit : ℤ) (keys : Buckets) (b : BucketsDb) (acc : List ℤ)
      → all_pass ((k, limit) ∷ keys) b ≡ true
      → count_between lo hi (acc ++ unix_milli now ∷ [])
        ≤ count_between lo hi (extended k ((k, limit) ∷ keys) b acc)
  extended_by_first k lo hi limit keys b acc h =
      let passed : passes k limit b ≡ true = ground arith in
      rw (passed, beq_refl)
        (extended_grows k lo hi keys (allow now k limit window b).1 (acc ++ unix_milli now ∷ []))
