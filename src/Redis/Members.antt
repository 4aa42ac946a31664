-- ===== src/Redis/Members.antt =====
-- The members of a sorted set, counted by their scores.
use otus_anti_bruteforce.Base.{
  ℕ, suc, ◌+◌, true, false, ◌&&◌, List, [], ◌∷◌, none, ◌≡◌, refl, ap, All, length, Bool-cases, inl,
  inr, if◌then◌else◌, arith,
}
use otus_anti_bruteforce.Base.Int.{ℤ, ◌≤ℤ◌, leb_ℤ}
use otus_anti_bruteforce.Base.Text.{Bytes, beq, beq_iff}
use otus_anti_bruteforce.Base.GoMap.{GoMap, lookup, insert}
use otus_anti_bruteforce.Redis.Server.{without_range}
use otus_anti_bruteforce.Redis.Window.{is_used}

-- How many members have a score after `cut`.
abbrev pub scores_after : ℤ → GoMap ℤ → ℕ
scores_after cut [] = 0
scores_after cut ((m, score) ∷ ms) =
    let rest = scores_after cut ms in if leb_ℤ score cut then rest else suc rest

pub scores_after-insert :
    (cut score : ℤ) (m : Bytes) (ms : GoMap ℤ)
    → lookup m ms ≡ none
    → scores_after cut (insert m score ms)
      ≡ (if leb_ℤ score cut then 0 else 1) + scores_after cut ms
unfolding lookup insert
scores_after-insert cut score m [] h = ground arith
scores_after-insert cut score m ((j, s) ∷ ms) h = ground (arith, scores_after-insert cut score m ms)

pub scores_after-without_range :
    (lo hi cut : ℤ) (ms : GoMap ℤ)
    → hi ≤ℤ cut
    → scores_after cut (without_range lo hi ms) ≡ scores_after cut ms
unfolding without_range
scores_after-without_range lo hi cut [] h = refl
scores_after-without_range lo hi cut ((m, s) ∷ ms) h =
    ground (arith, scores_after-without_range lo hi cut ms)

-- What a range from the lowest score on leaves are the members after it.
pub length-without_range :
    (lo hi : ℤ) (ms : GoMap ℤ)
    → All (λ e. lo ≤ℤ e.1) ms
    → length (without_range lo hi ms) ≡ scores_after hi ms
unfolding without_range
length-without_range lo hi [] h = refl
length-without_range lo hi ((m, s) ∷ ms) (h, hs) = ground (arith, length-without_range lo hi ms)

pub All-without_range {ℓ} :
    (P : Bytes × ℤ → Type ℓ) (lo hi : ℤ) (ms : GoMap ℤ) → All P ms → All P (without_range lo hi ms)
unfolding without_range
All-without_range P lo hi [] h = tt
All-without_range P lo hi ((m, s) ∷ ms) (h, hs) = elim (Bool-cases (leb_ℤ lo s && leb_ℤ s hi)) [
  | inl within ↦ rw within (All-without_range P lo hi ms hs)
  | inr outside ↦ rw outside (h, All-without_range P lo hi ms hs)
]

pub All-insert {ℓ} :
    (P : Bytes × ℤ → Type ℓ) (m : Bytes) (score : ℤ) (ms : GoMap ℤ)
    → P (m, score)
    → All P ms
    → All P (insert m score ms)
unfolding insert
All-insert P m score [] p h = (p, tt)
All-insert P m score ((j, s) ∷ ms) p (h, hs) = elim (Bool-cases (beq j m)) [
  | inl same ↦ rw same (p, hs)
  | inr other ↦ rw other (h, All-insert P m score ms p hs)
]

-- A member that was not used before is not in the set.
pub lookup_unused :
    (key m : Bytes) (used : List (Bytes × Bytes)) (ms : GoMap ℤ)
    → All (λ e. is_used key e.0 used ≡ true) ms
    → is_used key m used ≡ false
    → lookup m ms ≡ none
unfolding lookup
lookup_unused key m used [] h k = refl
lookup_unused key m used ((j, s) ∷ ms) (h, hs) k = elim (Bool-cases (beq j m)) [
  | inl same ↦ cc (ap (λ x. is_used key x used) ((beq_iff j m).0 same))
  | inr other ↦ rw other (lookup_unused key m used ms hs k)
]
