-- ===== src/Memory/Buckets/Pruning.antt =====
-- The pruning loop of bucketsdb.go on a timeline: what it drops and what it keeps.
use otus_anti_bruteforce.Base.{
  ℕ, suc, ◌+◌, List, [], ◌∷◌, ◌++◌, ◌≡◌, refl, ap, All, All-append, length, Bool-cases, inl, inr,
  if◌then◌else◌, arith,
}
use otus_anti_bruteforce.Base.Int.{ℤ, ◌≤ℤ◌, ◌<ℤ◌, leb_ℤ, leb_ℤ→le, leb_ℤ→gt}
use otus_anti_bruteforce.Memory.Buckets.Defs.{stale, prune}

-- In order, the earliest first.
abbrev pub IsSorted : List ℤ → Type 0
IsSorted [] = Unit
IsSorted (t ∷ ts) = All (λ u. t ≤ℤ u) ts × IsSorted ts

-- How many instants lie after `cut`.
abbrev pub count_after : ℤ → List ℤ → ℕ
count_after cut [] = 0
count_after cut (t ∷ ts) = if leb_ℤ t cut then count_after cut ts else suc (count_after cut ts)

pub count_after-append :
    (cut : ℤ) (xs ys : List ℤ)
    → count_after cut (xs ++ ys) ≡ count_after cut xs + count_after cut ys
count_after-append cut [] ys = omega arith
count_after-append cut (x ∷ xs) ys = ground (arith, count_after-append cut xs ys)

pub count_after_stale : (cut : ℤ) (ts : List ℤ) → All (λ t. t ≤ℤ cut) ts → count_after cut ts ≡ 0
count_after_stale cut [] h = refl
count_after_stale cut (t ∷ ts) h = ground (arith, count_after_stale cut ts)

count_after_fresh :
    (cut t : ℤ) (ts : List ℤ) → cut <ℤ t → All (λ u. t ≤ℤ u) ts → count_after cut ts ≡ length ts
count_after_fresh cut t [] h k = refl
count_after_fresh cut t (u ∷ ts) h k = ground (arith, count_after_fresh cut t ts)

pub prune-cons :
    (cut t : ℤ) (ts : List ℤ) → prune cut (t ∷ ts) ≡ (if leb_ℤ t cut then prune cut ts else t ∷ ts)
unfolding prune stale
prune-cons cut t [] = ground arith
prune-cons cut t (u ∷ ts) = ground arith

prune-nil : (cut : ℤ) → prune cut [] ≡ []
unfolding prune stale
prune-nil cut = refl

-- What the loop drops is a prefix of attempts that are not after `cut`.
pub prune_split :
    (cut : ℤ) (ts : List ℤ) → (old : List ℤ) × (ts ≡ old ++ prune cut ts) × All (λ t. t ≤ℤ cut) old
prune_split cut [] = ([], rw prune-nil, tt)
prune_split cut (t ∷ ts) = elim (Bool-cases (leb_ℤ t cut)) [
  | inl old ↦
      let (dropped, split, are_old) = prune_split cut ts in
      (t ∷ dropped, rw (prune-cons, old) (ap (◌∷◌ t) split), (leb_ℤ→le t cut old, are_old))
  | inr fresh ↦ ([], rw (prune-cons, fresh), tt)
]

-- On a timeline in order just the attempts after `cut` are left.
pub length-prune :
    (cut : ℤ) (ts : List ℤ) → IsSorted ts → length (prune cut ts) ≡ count_after cut ts
length-prune cut [] h = rw prune-nil
length-prune cut (t ∷ ts) (first, rest) = elim (Bool-cases (leb_ℤ t cut)) [
  | inl old ↦ rw (prune-cons, old) (length-prune cut ts rest)
  | inr fresh ↦
      rw (prune-cons, fresh)
        (ground (arith, count_after_fresh cut t ts (leb_ℤ→gt t cut fresh) first))
]

pub All-prune {ℓ} : (P : ℤ → Type ℓ) (cut : ℤ) (ts : List ℤ) → All P ts → All P (prune cut ts)
All-prune P cut [] h = rw prune-nil tt
All-prune P cut (t ∷ ts) (h, hs) = elim (Bool-cases (leb_ℤ t cut)) [
  | inl old ↦ rw (prune-cons, old) (All-prune P cut ts hs)
  | inr fresh ↦ rw (prune-cons, fresh) (h, hs)
]

pub prune-IsSorted : (cut : ℤ) (ts : List ℤ) → IsSorted ts → IsSorted (prune cut ts)
prune-IsSorted cut [] h = rw prune-nil tt
prune-IsSorted cut (t ∷ ts) (first, rest) = elim (Bool-cases (leb_ℤ t cut)) [
  | inl old ↦ rw (prune-cons, old) (prune-IsSorted cut ts rest)
  | inr fresh ↦ rw (prune-cons, fresh) (first, rest)
]

pub append-IsSorted :
    (ts : List ℤ) (now : ℤ) → IsSorted ts → All (λ t. t ≤ℤ now) ts → IsSorted (ts ++ now ∷ [])
append-IsSorted [] now s h = (tt, tt)
append-IsSorted (t ∷ ts) now (first, rest) (h, hs) =
    (All-append (λ u. t ≤ℤ u) ts (now ∷ []) first (h, tt), append-IsSorted ts now rest hs)
