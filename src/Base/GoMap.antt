-- ===== src/Base/GoMap.antt =====
-- Go maps with string keys. Entries stand in some order; a loop over a map visits them in an order
-- that the runtime chooses, and takes it as an argument.
use mathlib.Core.Path.{◌≡◌, refl, ◌∙◌}
use mathlib.Core.Logic.{∥∥₁_elim, inl, inr}
use mathlib.Core.HLevel.{×_prop, Π_prop}
use mathlib.Core.Option.{Option, none, some}
use mathlib.Core.List.{List, [], ◌∷◌, map, Perm, Permᴰ}
use native.Mathlib.Omega.{arith}
use otus_anti_bruteforce.Base.Tests.{if◌then◌else◌, Bool-cases}
use otus_anti_bruteforce.Base.Lists.{All}
use otus_anti_bruteforce.Base.Text.{Bytes, beq, beq_iff}

abbrev pub GoMap {ℓ} : Type ℓ → Type ℓ
GoMap V = List (Bytes × V)

module _ {ℓ} {V : Type ℓ} where
  -- `v, exists := m[k]`
  unfoldable pub lookup : Bytes → GoMap V → Option V
  lookup k [] = none
  lookup k ((j, v) ∷ m) = if beq j k then some v else lookup k m

  -- `m[k] = v`
  unfoldable pub insert : Bytes → V → GoMap V → GoMap V
  insert k v [] = (k, v) ∷ []
  insert k v ((j, w) ∷ m) = if beq j k then (k, v) ∷ m else (j, w) ∷ insert k v m

  -- `delete(m, k)`
  unfoldable pub delete : Bytes → GoMap V → GoMap V
  delete k [] = []
  delete k ((j, w) ∷ m) = let rest = delete k m in if beq j k then rest else (j, w) ∷ rest

  abbrev pub keys : GoMap V → List Bytes
  keys = map (λ e. e.0)

  -- No key stands twice, as in every Go map.
  abbrev pub HasDistinctKeys : GoMap V → Type ℓ
  HasDistinctKeys [] = Unit
  HasDistinctKeys ((k, v) ∷ m) = (lookup k m ≡ none) × HasDistinctKeys m

  pub lookup-insert :
      (k j : Bytes) (v : V) (m : GoMap V)
      → lookup j (insert k v m) ≡ (if beq k j then some v else lookup j m)
  unfolding lookup insert
  lookup-insert k j v [] = refl
  lookup-insert k j v ((i, w) ∷ m) =
      ground (arith, beq_iff k j, beq_iff i k, beq_iff i j, lookup-insert k j v m)

  pub lookup-delete :
      (k j : Bytes) (m : GoMap V) → lookup j (delete k m) ≡ (if beq k j then none else lookup j m)
  unfolding lookup delete
  lookup-delete k j [] = ground arith
  lookup-delete k j ((i, w) ∷ m) =
      ground (arith, beq_iff k j, beq_iff i k, beq_iff i j, lookup-delete k j m)

  pub insert-HasDistinctKeys :
      (k : Bytes) (v : V) (m : GoMap V) → HasDistinctKeys m → HasDistinctKeys (insert k v m)
  unfolding lookup insert
  insert-HasDistinctKeys k v [] h = (refl, tt)
  insert-HasDistinctKeys k v ((j, w) ∷ m) h =
      ground (arith, beq_iff j k, beq_iff k j, lookup-insert k j v m, insert-HasDistinctKeys k v m)

  pub delete-HasDistinctKeys :
      (k : Bytes) (m : GoMap V) → HasDistinctKeys m → HasDistinctKeys (delete k m)
  unfolding lookup delete
  delete-HasDistinctKeys k [] h = tt
  delete-HasDistinctKeys k ((j, w) ∷ m) h =
      ground (arith, beq_iff j k, beq_iff k j, lookup-delete k j m, delete-HasDistinctKeys k m)

  -- A value that is found is one of those that the map holds.
  pub lookup-All {κ} :
      (P : V → Type κ) (k : Bytes) (m : GoMap V) (v : V)
      → All (λ e. P e.1) m
      → lookup k m ≡ some v
      → P v
  unfolding lookup
  lookup-All P k [] v h = λ e. ground arith
  lookup-All P k ((j, w) ∷ m) v (h, hs) = elim (Bool-cases (beq j k)) [
    | inl same ↦ rw same (λ e. let at : w ≡ v = cc in rw⁻¹ at h)
    | inr other ↦ rw other (lookup-All P k m v hs)
  ]

  -- The order of one loop over a map: each entry once.
  abbrev pub Visits : (GoMap V → GoMap V) → Type ℓ
  Visits order = (m : GoMap V) → Perm (order m) m

module _ {ℓ} {V : Type ℓ} where
  lookup-permᴰ :
      {m n : GoMap V}
      → Permᴰ m n
      → HasDistinctKeys m
      → HasDistinctKeys n × ((k : Bytes) → lookup k m ≡ lookup k n)
  unfolding lookup
  lookup-permᴰ Permᴰ.nil d = (tt, λ k. refl)
  lookup-permᴰ (Permᴰ.cons {a = (i, v)} {b = (j, w)} e h) d =
      let (d', f) = lookup-permᴰ h d.1 in ((ground (arith, f j), d'), λ k. ground (arith, f k))
  lookup-permᴰ (Permᴰ.swap {a = (i, v)} {b = (j, w)} {a' = (i', v')} {b' = (j', w')} {l} e f) d = (
    (ground (arith, beq_iff i j, beq_iff j i), (ground arith, ground arith)),
    λ k. ground (arith, beq_iff i j, beq_iff j i, beq_iff i k, beq_iff j k),
  )
  lookup-permᴰ (Permᴰ.trans h k) d =
      let (d', e) = lookup-permᴰ h d in let (d'', f) = lookup-permᴰ k d' in (d'', λ j. e j ∙ f j)

  module _ (V-set : IsSet V) where
    lookup_prop : (k : Bytes) (m : GoMap V) (o : Option V) → IsProp (lookup k m ≡ o)
    lookup_prop k m o = Option-set (lookup k m) o
      where
        Option-set : IsSet (Option V)
        Option-set = hlevel V-set

    HasDistinctKeys-prop : (m : GoMap V) → IsProp (HasDistinctKeys m)
    HasDistinctKeys-prop [] = hlevel
    HasDistinctKeys-prop ((k, v) ∷ m) = ×_prop (lookup_prop k m none) (HasDistinctKeys-prop m)

    -- The order of a loop matters for no lookup.
    pub lookup-perm :
        {m n : GoMap V}
        → Perm m n
        → HasDistinctKeys m
        → HasDistinctKeys n × ((k : Bytes) → lookup k m ≡ lookup k n)
    lookup-perm {m} {n} h d =
        ∥∥₁_elim h (×_prop (HasDistinctKeys-prop n) (Π_prop (λ k. lookup_prop k m (lookup k n))))
          (λ p. lookup-permᴰ p d)
