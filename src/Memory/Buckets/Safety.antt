-- ===== src/Memory/Buckets/Safety.antt =====
-- The bound that bucketsdb.go enforces: no window holds more accepted attempts than the limit.
use otus_anti_bruteforce.Base.{
  ℕ, suc, ◌*◌, ◌≤◌, ◌<◌, Bool, false, List, [], ◌∷◌, ◌++◌, ◌≡◌, refl, sym, ok, err, Result, ◌&&◌,
  not, if◌then◌else◌, Bool-cases, inl, inr, arith,
}
use otus_anti_bruteforce.Base.Int.{ℤ, pos, ◌≤ℤ◌, ◌-ℤ◌, leb_ℤ, -ℤ_parts, gt→leb_ℤ}
use otus_anti_bruteforce.Base.Text.{Bytes, beq, beq_iff, beq_refl}
use otus_anti_bruteforce.Base.Time.{unix_milli, nanos_per_milli, unix_milli-sub}
use otus_anti_bruteforce.Memory.Buckets.Defs.{new_buckets_db}
use otus_anti_bruteforce.Memory.Buckets.Pruning.{count_after}
use otus_anti_bruteforce.Memory.Buckets.Window.{
  Call, attempt, reset, IsChronological, Ledger, set, judge, run, run_ledger,
}
use otus_anti_bruteforce.Memory.Buckets.Refinement.{run-run_ledger}

-- How many instants lie after `lo` and not after `hi`.
abbrev pub count_between : ℤ → ℤ → List ℤ → ℕ
count_between lo hi [] = 0
count_between lo hi (t ∷ ts) =
    if not (leb_ℤ t lo) && leb_ℤ t hi then suc (count_between lo hi ts) else count_between lo hi ts

-- The attempts on a key that were answered `true` since its last reset, in milliseconds, read off
-- the calls and the replies.
abbrev pub accepted : Bytes → List ℤ → List Call → List (Result Bool) → List ℤ
accepted k acc (attempt key limit now ∷ calls) (ok passed ∷ replies) =
    accepted k (if beq key k && passed then acc ++ unix_milli now ∷ [] else acc) calls replies
accepted k acc (attempt key limit now ∷ calls) (err e ∷ replies) = accepted k acc calls replies
accepted k acc (attempt key limit now ∷ calls) [] = acc
accepted k acc (reset key ∷ calls) replies =
    accepted k (if beq key k then [] else acc) calls replies
accepted k acc [] replies = acc

-- Every call on the key `k` is made with the limit `n`.
abbrev pub HasLimit : Bytes → ℕ → List Call → Type 0
HasLimit k n [] = Unit
HasLimit k n (attempt key limit now ∷ calls) = (key ≡ k → limit ≡ pos n) × HasLimit k n calls
HasLimit k n (reset key ∷ calls) = HasLimit k n calls

count_between-le-count_after :
    (lo hi : ℤ) (ts : List ℤ) → count_between lo hi ts ≤ count_after lo ts
count_between-le-count_after lo hi [] = omega arith
count_between-le-count_after lo hi (t ∷ ts) = ground (arith, count_between-le-count_after lo hi ts)

count_after_mono : (a b : ℤ) (ts : List ℤ) → a ≤ℤ b → count_after b ts ≤ count_after a ts
count_after_mono a b [] h = omega arith
count_after_mono a b (t ∷ ts) h = ground (arith, count_after_mono a b ts)

pub count_between-append :
    (lo hi t : ℤ) (ts : List ℤ)
    → count_between lo hi (ts ++ t ∷ []) ≡ (
        if not (leb_ℤ t lo) && leb_ℤ t hi
        then suc (count_between lo hi ts)
        else count_between lo hi ts)
count_between-append lo hi t [] = refl
count_between-append lo hi t (u ∷ ts) = ground (arith, count_between-append lo hi t ts)

-- Every window of `w` milliseconds holds at most `n` of the attempts.
abbrev pub IsBounded : ℕ → ℕ → List ℤ → Type 0
IsBounded n w h = (x : ℤ) → count_between (x -ℤ pos w) x h ≤ n

-- Adding an attempt at `t` keeps the bound if the window that ends at `t` has room.
pub append-IsBounded :
    (n w : ℕ) (t : ℤ) (h : List ℤ)
    → count_after (t -ℤ pos w) h < n
    → IsBounded n w h
    → IsBounded n w (h ++ t ∷ [])
append-IsBounded n w t h room b x = rw count_between-append (elim (Bool-cases (leb_ℤ t x)) [
  | inl before ↦ ground (
    arith,
    b x,
    count_between-le-count_after (x -ℤ pos w) x h,
    count_after_mono (t -ℤ pos w) (x -ℤ pos w) h,
    -ℤ_parts t (pos w),
    -ℤ_parts x (pos w),
  )
  | inr after ↦ rw after (ground (arith, b x))
])

judge-IsBounded :
    (n w : ℕ) (now : ℤ) (h : List ℤ)
    → 0 < w
    → IsBounded n w h
    → IsBounded n w (judge (pos n) (pos (w * nanos_per_milli)) now h).1
unfolding judge
judge-IsBounded n w now h pos_w b = elim (Bool-cases (leb_ℤ (pos n) (pos 0))) [
  | inl shut ↦ rw shut b
  | inr open_limit ↦
      rw (open_limit, is_limited, unix_milli-sub)
        (elim (Bool-cases (leb_ℤ (pos n) (pos (count_after (unix_milli now -ℤ pos w) h)))) [
          | inl full ↦ rw full b
          | inr room ↦ rw room (append-IsBounded n w (unix_milli now) h (ground arith) b)
        ])
]
  where
    is_limited : leb_ℤ (pos (w * nanos_per_milli)) (pos 0) ≡ false
    is_limited = gt→leb_ℤ (pos (w * nanos_per_milli)) (pos 0) (omega arith)

judge-accepted :
    (limit now : ℤ) (w : ℕ) (h : List ℤ)
    → 0 < w
    → (judge limit (pos (w * nanos_per_milli)) now h).1
      ≡ (if (judge limit (pos (w * nanos_per_milli)) now h).0 then h ++ unix_milli now ∷ [] else h)
unfolding judge
judge-accepted limit now w h pos_w = ground arith

module _ (window : Bytes → ℤ) (k : Bytes) (n w : ℕ) (pos_w : 0 < w)
    (windowed : window k ≡ pos (w * nanos_per_milli)) where
  next-accepted :
      (key : Bytes) (limit now : ℤ) (h : Ledger)
      → (if beq key k && (judge limit (window key) now (h key)).0
          then h k ++ unix_milli now ∷ []
          else h k)
        ≡ set h key (judge limit (window key) now (h key)).1 k
  next-accepted key limit now h = elim (Bool-cases (beq key k)) [
    | inl same ↦
        rw ((beq_iff key k).0 same, beq_refl, windowed)
          (sym (judge-accepted limit now w (h k) pos_w))
    | inr other ↦ rw other
  ]

  set-IsBounded :
      (key : Bytes) (limit now : ℤ) (h : Ledger)
      → (key ≡ k → limit ≡ pos n)
      → IsBounded n w (h k)
      → IsBounded n w (set h key (judge limit (window key) now (h key)).1 k)
  set-IsBounded key limit now h same_limit b = elim (Bool-cases (beq key k)) [
    | inl same ↦
        let e = (beq_iff key k).0 same in
        rw (same_limit e, e, beq_refl, windowed) (judge-IsBounded n w now (h k) pos_w b)
    | inr other ↦ rw other b
  ]

  -- The attempts that the replies of the ledger show are those that it holds, and they are bounded.
  run_ledger-IsBounded :
      (calls : List Call) (h : Ledger)
      → HasLimit k n calls
      → IsBounded n w (h k)
      → IsBounded n w (accepted k (h k) calls (run_ledger window calls h).0)
  unfolding run_ledger
  run_ledger-IsBounded [] h c b x = b x
  run_ledger-IsBounded (attempt key limit now ∷ calls) h (same_limit, c) b x =
      rw (next-accepted key limit now h) (
        run_ledger-IsBounded calls (set h key (judge limit (window key) now (h key)).1) c
          (set-IsBounded key limit now h same_limit b) x)
  run_ledger-IsBounded (reset key ∷ calls) h c b x =
      run_ledger-IsBounded calls (set h key []) c
        (elim (Bool-cases (beq key k)) [
          | inl same ↦ rw same (λ x. omega arith)
          | inr other ↦ rw other b
        ])
        x

  -- For any calls on any keys in order of time, if the calls on a key have the limit `n` and a
  -- window of `w` milliseconds, `0 < w`, then however a window of `w` milliseconds is placed, at
  -- most `n` of the attempts on the key that were let through since its last reset lie inside it.
  pub accepted_le_limit :
      (calls : List Call) (clock : ℤ)
      → IsChronological clock calls
      → HasLimit k n calls
      → (x : ℤ)
      → count_between (x -ℤ pos w) x (accepted k [] calls (run window calls new_buckets_db).0) ≤ n
  accepted_le_limit calls clock ordered limits x =
      rw (run-run_ledger window calls clock ordered)
        (run_ledger-IsBounded calls (λ key. []) limits (λ y. omega arith) x)
