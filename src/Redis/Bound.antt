-- ===== src/Redis/Bound.antt =====
-- The bound that buckets_repo.go enforces, although it counts the attempts that it refuses too.
use otus_anti_bruteforce.Base.{
  ℕ, ◌≤◌, ◌<◌, Bool, List, [], ◌∷◌, ◌++◌, ◌≡◌, ok, err, Result, ◌&&◌, if◌then◌else◌, Bool-cases,
  inl, inr, arith,
}
use otus_anti_bruteforce.Base.Int.{ℤ, pos, ◌-ℤ◌, leb_ℤ, -ℤ_parts}
use otus_anti_bruteforce.Base.Text.{Bytes, beq, beq_iff, beq_refl}
use otus_anti_bruteforce.Base.Time.{unix_milli}
use otus_anti_bruteforce.Memory.Buckets.Pruning.{count_after, count_after-append}
use otus_anti_bruteforce.Memory.Buckets.Safety.{count_between, IsBounded, append-IsBounded}
use otus_anti_bruteforce.Memory.Buckets.Window.{Ledger, set}
use otus_anti_bruteforce.Redis.{Client}
use otus_anti_bruteforce.Redis.Server.{Sets, no_set, Serves}
use otus_anti_bruteforce.Redis.Window.{
  Call, attempt, reset, IsChronological, IsFresh, record_attempt, run_redis, strict_ledger,
}
use otus_anti_bruteforce.Redis.Refinement.{run_redis-strict_ledger}

-- The attempts on a key that were answered `true` since its last reset, in milliseconds, read off
-- the calls and the replies.
abbrev pub accepted : Bytes → List ℤ → List Call → List (Result Bool) → List ℤ
accepted k acc (attempt key limit now sfx ∷ calls) (ok passed ∷ replies) =
    accepted k (if beq key k && passed then acc ++ unix_milli now ∷ [] else acc) calls replies
accepted k acc (attempt key limit now sfx ∷ calls) (err e ∷ replies) = accepted k acc calls replies
accepted k acc (attempt key limit now sfx ∷ calls) [] = acc
accepted k acc (reset key ∷ calls) replies =
    accepted k (if beq key k then [] else acc) calls replies
accepted k acc [] replies = acc

-- Every call on the key `k` is made with the limit `n`.
abbrev pub HasLimit : Bytes → ℕ → List Call → Type 0
HasLimit k n [] = Unit
HasLimit k n (attempt key limit now sfx ∷ calls) = (key ≡ k → limit ≡ pos n) × HasLimit k n calls
HasLimit k n (reset key ∷ calls) = HasLimit k n calls

-- The attempts let through are bounded and among those on record.
abbrev IsPart : ℕ → ℕ → List ℤ → List ℤ → Type 0
IsPart n w acc h = IsBounded n w acc × ((cut : ℤ) → count_after cut acc ≤ count_after cut h)

record_attempt-IsPart :
    (n w : ℕ) (now : ℤ) (acc h : List ℤ)
    → 0 < w
    → IsPart n w acc h
    → IsPart n w
        (if (record_attempt (pos n) w now h).0 then acc ++ now ∷ [] else acc)
        (record_attempt (pos n) w now h).1
unfolding record_attempt
record_attempt-IsPart n w now acc h pos_w (bounded, part) =
    elim (Bool-cases (leb_ℤ (pos (count_after (now -ℤ pos w) (h ++ now ∷ []))) (pos n))) [
      | inl passes ↦ rw passes (
        append-IsBounded n w now acc
            (ground (
              arith,
              count_after-append (now -ℤ pos w) h (now ∷ []),
              part (now -ℤ pos w),
              -ℤ_parts now (pos w),
            ))
            bounded,
        λ cut. omega (
          arith,
          count_after-append cut h (now ∷ []),
          count_after-append cut acc (now ∷ []),
          part cut,
        ),
      )
      | inr refused ↦
          rw refused (bounded, λ cut. omega (arith, count_after-append cut h (now ∷ []), part cut))
    ]

module _ (w : Bytes → ℕ) (positive : (key : Bytes) → 0 < w key) (k : Bytes) (n : ℕ) where
  next-IsPart :
      (key : Bytes) (limit now : ℤ) (acc : List ℤ) (h : Ledger)
      → (key ≡ k → limit ≡ pos n)
      → IsPart n (w k) acc (h k)
      → IsPart n
          (w k)
          (if beq key k && (record_attempt limit (w key) now (h key)).0
            then acc ++ now ∷ []
            else acc)
          (set h key (record_attempt limit (w key) now (h key)).1 k)
  next-IsPart key limit now acc h same_limit p = elim (Bool-cases (beq key k)) [
    | inl same ↦
        let e = (beq_iff key k).0 same in
        rw (same_limit e, e, beq_refl) (record_attempt-IsPart n (w k) now acc (h k) (positive k) p)
    | inr other ↦ rw other p
  ]

  strict_ledger-IsBounded :
      (calls : List Call) (acc : List ℤ) (h : Ledger)
      → HasLimit k n calls
      → IsPart n (w k) acc (h k)
      → IsBounded n (w k) (accepted k acc calls (strict_ledger w calls h).0)
  unfolding strict_ledger
  strict_ledger-IsBounded [] acc h c p = p.0
  strict_ledger-IsBounded (attempt key limit now sfx ∷ calls) acc h (same_limit, c) p =
      strict_ledger-IsBounded calls _ _ c
        (next-IsPart key limit (unix_milli now) acc h same_limit p)
  strict_ledger-IsBounded (reset key ∷ calls) acc h c p =
      strict_ledger-IsBounded calls _ (set h key []) c (elim (Bool-cases (beq key k)) [
        | inl same ↦ rw same (λ x. omega arith, λ cut. omega arith)
        | inr other ↦ rw other p
      ])

  module _ {R : Type 0} (client : Client R) (ttl : ℤ → ℤ) (view : R → Sets)
      (s : Serves client ttl view) where
    -- Over a Redis that is up and starts empty, with a window of whole positive milliseconds for
    -- each key: for any calls on any keys, in order of time and not before 1970, where no two
    -- attempts on a key get the same member, which spells the millisecond and the random number, if
    -- the calls on a key have the limit `n`: however a window of the key is placed, at most `n` of
    -- the attempts on the key that were let through since its last reset lie inside it.
    pub passed_le_limit :
        (calls : List Call) (clock : ℤ) (r : R)
        → ((key : Bytes) → view r key ≡ no_set)
        → IsChronological clock calls
        → IsFresh [] calls
        → HasLimit k n calls
        → (x : ℤ)
        → count_between (x -ℤ pos (w k)) x (accepted k [] calls (run_redis w client calls r).0) ≤ n
    passed_le_limit calls clock r empty ordered fresh limits x =
        rw (run_redis-strict_ledger client ttl view s w positive calls clock r empty ordered fresh)
          (strict_ledger-IsBounded calls [] (λ key. []) limits
            (λ y. omega arith, λ cut. omega arith) x)
