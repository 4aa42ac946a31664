-- ===== src/Memory/Buckets/Size.antt =====
-- How much bucketsdb.go keeps for a key.
use otus_anti_bruteforce.Base.{
  ℕ, ◌≤◌, List, [], ◌∷◌, ap, length, length-append, Bool-cases, inl, inr, arith,
}
use otus_anti_bruteforce.Base.Int.{ℤ, pos, ◌-ℤ◌}
use otus_anti_bruteforce.Base.Text.{Bytes, beq, beq_iff, beq_refl}
use otus_anti_bruteforce.Base.Time.{unix_milli}
use otus_anti_bruteforce.Memory.Buckets.Defs.{BucketsDb, new_buckets_db, prune, admit}
use otus_anti_bruteforce.Memory.Buckets.Pruning.{prune_split}
use otus_anti_bruteforce.Memory.Buckets.Timelines
use otus_anti_bruteforce.Memory.Buckets.Timelines.{
  times_of, times_of_new, times_of-allow, times_of-reset,
}
use otus_anti_bruteforce.Memory.Buckets.Window.{Call, attempt, reset, run}
use otus_anti_bruteforce.Memory.Buckets.Safety.{HasLimit}

length-prune_le : (cut : ℤ) (ts : List ℤ) → length (prune cut ts) ≤ length ts
length-prune_le cut ts =
    let (old, split, _) = prune_split cut ts in
    omega (arith, length-append old (prune cut ts), ap (λ (xs : List ℤ). length xs) split)

length-attempt_le :
    (n : ℕ) (window now : ℤ) (ts : List ℤ)
    → length ts ≤ n
    → length (Timelines.attempt (pos n) window now ts).1 ≤ n
unfolding Timelines.attempt admit
length-attempt_le n window now ts h = ground (
  arith,
  length-prune_le (unix_milli (now -ℤ window)) ts,
  length-append (prune (unix_milli (now -ℤ window)) ts) (unix_milli now ∷ []),
)

module _ (window : Bytes → ℤ) (k : Bytes) (n : ℕ) where
  length-run_le :
      (calls : List Call) (l : BucketsDb)
      → HasLimit k n calls
      → length (times_of l k) ≤ n
      → length (times_of (run window calls l).1 k) ≤ n
  unfolding run
  length-run_le [] l c h = h
  length-run_le (attempt key limit now ∷ calls) l (same_limit, c) h = length-run_le calls _ c (
      rw times_of-allow (elim (Bool-cases (beq key k)) [
        | inl same ↦
            let e = (beq_iff key k).0 same in
            rw (same_limit e, e, beq_refl) (length-attempt_le n (window k) now (times_of l k) h)
        | inr other ↦ rw other h
      ]))
  length-run_le (reset key ∷ calls) l c h = length-run_le calls _ c (
      rw times_of-reset (elim (Bool-cases (beq key k)) [
        | inl same ↦ rw same (omega arith)
        | inr other ↦ rw other h
      ]))

  -- For any calls on any keys, the clock may even run backwards, if the calls on a key have the
  -- limit `n`, then the memory store never keeps more than `n` attempts for the key.
  pub length-times_of_le_limit :
      (calls : List Call)
      → HasLimit k n calls
      → length (times_of (run window calls new_buckets_db).1 k) ≤ n
  length-times_of_le_limit calls c =
      length-run_le calls new_buckets_db c (rw times_of_new (omega arith))
