-- ===== src/External/Chain.antt =====
-- The three limits of an attempt as calls of buckets_repo.go: a chain that stops at the first
-- refusal or error.
use otus_anti_bruteforce.Base.{
  ℕ, ◌*◌, ◌≤◌, Bool, true, false, ◌&&◌, List, [], ◌∷◌, ◌++◌, Exec, pure, ◌>>=◌, ◌≡◌, refl,
  Result-cases, Bool-cases, inl, inr, if◌then◌else◌, arith, All,
}
use otus_anti_bruteforce.Base.Int.{ℤ, pos, ◌≤ℤ◌}
use otus_anti_bruteforce.Base.Text.{Bytes, beq, beq_refl}
use otus_anti_bruteforce.Base.Time.{unix_milli, nanos_per_milli}
use otus_anti_bruteforce.Memory.Buckets.Safety.{count_between, count_between-append}
use otus_anti_bruteforce.Redis.{Client}
use otus_anti_bruteforce.Redis.Window.{Call, attempt, reset, run_redis, IsChronological}
use otus_anti_bruteforce.Redis.Bound.{accepted, HasLimit}
use otus_anti_bruteforce.Local.Chain.{Buckets}
use otus_anti_bruteforce.Local.Events.{is_passed}
use otus_anti_bruteforce.External.{Shared, limiter_repo}

module _ {R : Type 0} (client : Client R) (random : ℕ → ℕ) (w : ℕ) (now : ℤ) where
  abbrev pub ask : Bytes → ℤ → Exec (Shared R) Bool
  ask key limit = (limiter_repo client random now).allow key limit (pos (w * nanos_per_milli))

  abbrev pub chain : Buckets → Exec (Shared R) Bool
  chain [] = pure true
  chain ((key, limit) ∷ keys) = do passed ← ask key limit; if passed then chain keys else pure false

  -- The calls that are made.
  abbrev pub made : Buckets → Shared R → List Call
  made [] s = []
  made ((key, limit) ∷ keys) s =
      let rest = made keys (ask key limit s).1 in
      attempt key limit now (random s.0) ∷ (if is_passed (ask key limit s).0 then rest else [])

  -- The accepted attempts on a bucket, once the calls have been made.
  abbrev pub grown : Bytes → Buckets → Shared R → List ℤ → List ℤ
  grown k [] s acc = acc
  grown k ((key, limit) ∷ keys) s acc =
      let acc' =
        if beq key k && is_passed (ask key limit s).0 then acc ++ unix_milli now ∷ [] else acc in
      let rest = grown k keys (ask key limit s).1 acc' in
      if is_passed (ask key limit s).0 then rest else acc'

  pub accepted-made :
      (k : Bytes) (keys : Buckets) (s : Shared R) (acc : List ℤ) (later : List Call)
      → accepted k acc
          (made keys s ++ later)
          (run_redis (λ key. w) client (made keys s ++ later) s.1).0
        ≡ accepted k
            (grown k keys s acc)
            later
            (run_redis (λ key. w) client later (chain keys s).1.1).0
  unfolding run_redis
  accepted-made k [] s acc later = refl
  accepted-made k ((key, limit) ∷ keys) s acc later = elim (Result-cases (ask key limit s).0) [
    | inl (true, e) ↦ rw e (accepted-made k keys (ask key limit s).1 _ later)
    | inl (false, e) ↦ rw e refl
    | inr (e, failed) ↦
        rw failed
          (elim (Bool-cases (beq key k)) [ inl same ↦ rw same refl | inr other ↦ rw other refl ])
  ]

  pub grown_grows :
      (k : Bytes) (lo hi : ℤ) (keys : Buckets) (s : Shared R) (acc : List ℤ)
      → count_between lo hi acc ≤ count_between lo hi (grown k keys s acc)
  grown_grows k lo hi [] s acc = omega arith
  grown_grows k lo hi ((key, limit) ∷ keys) s acc =
      let acc' : List ℤ =
        if beq key k && is_passed (ask key limit s).0 then acc ++ unix_milli now ∷ [] else acc in
      ground (
        arith,
        count_between-append lo hi (unix_milli now) acc,
        grown_grows k lo hi keys (ask key limit s).1 acc',
      )

  first_passed :
      (key : Bytes) (limit : ℤ) (keys : Buckets) (s : Shared R)
      → is_passed (chain ((key, limit) ∷ keys) s).0 ≡ true
      → is_passed (ask key limit s).0 ≡ true
  first_passed key limit keys s = elim (Result-cases (ask key limit s).0) [
    | inl (true, e) ↦ rw e (λ h. refl)
    | inl (false, e) ↦ rw e (λ h. h)
    | inr (e, failed) ↦ rw failed (λ h. h)
  ]

  -- If the chain passes, and its first call is on the bucket, the accepted attempts have grown.
  pub grown_by_first :
      (k : Bytes) (lo hi limit : ℤ) (keys : Buckets) (s : Shared R) (acc : List ℤ)
      → is_passed (chain ((k, limit) ∷ keys) s).0 ≡ true
      → count_between lo hi (acc ++ unix_milli now ∷ [])
        ≤ count_between lo hi (grown k ((k, limit) ∷ keys) s acc)
  grown_by_first k lo hi limit keys s acc h =
      rw (first_passed k limit keys s h, beq_refl)
        (grown_grows k lo hi keys (ask k limit s).1 (acc ++ unix_milli now ∷ []))

  pub limited-made :
      (k : Bytes) (n : ℕ) (keys : Buckets) (s : Shared R) (later : List Call)
      → All (λ e. e.0 ≡ k → e.1 ≡ pos n) keys
      → HasLimit k n later
      → HasLimit k n (made keys s ++ later)
  limited-made k n [] s later h c = c
  limited-made k n ((key, limit) ∷ keys) s later (h, hs) c = (
    h,
    elim (Bool-cases (is_passed (ask key limit s).0)) [
      | inl lets ↦ rw lets (limited-made k n keys (ask key limit s).1 later hs c)
      | inr stops ↦ rw stops c
    ],
  )

  pub earlier :
      (clock : ℤ) (calls : List Call)
      → clock ≤ℤ now
      → IsChronological now calls
      → IsChronological clock calls
  earlier clock [] h c = tt
  earlier clock (attempt key limit later sfx ∷ calls) h (epoch, c, cs) = (epoch, omega arith, cs)
  earlier clock (reset key ∷ calls) h c = earlier clock calls h c

  pub IsChronological-made :
      (keys : Buckets) (s : Shared R) (clock : ℤ) (later : List Call)
      → pos 0 ≤ℤ now
      → clock ≤ℤ now
      → IsChronological now later
      → IsChronological clock (made keys s ++ later)
  IsChronological-made [] s clock later epoch h c = earlier clock later h c
  IsChronological-made ((key, limit) ∷ keys) s clock later epoch h c = (
    epoch,
    h,
    elim (Bool-cases (is_passed (ask key limit s).0)) [
      | inl lets ↦
          rw lets (IsChronological-made keys (ask key limit s).1 now later epoch (omega arith) c)
      | inr stops ↦ rw stops c
    ],
  )
