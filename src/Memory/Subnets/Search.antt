-- ===== src/Memory/Subnets/Search.antt =====
-- Searches of the texts of a list after a change of the store.
use otus_anti_bruteforce.Base.{
  Bool, true, false, not, ◌&&◌, ◌||◌, List, [], ◌∷◌, ◌≡◌, refl, ◌∙◌, sym, any, Bool-cases, inl, inr,
  arith,
}
use otus_anti_bruteforce.Base.Text.{Bytes, beq, beq_iff, beq_refl}
use otus_anti_bruteforce.Domain.{ListType}
use otus_anti_bruteforce.Memory.Subnets.Defs.{SubnetListDb}
use otus_anti_bruteforce.Memory.Subnets.Contents.{
  mem, texts, mem-texts, add, remove, perform, expected, perform-expected,
}

true_iff : (a b : Bool) → (a ≡ true → b ≡ true) → (b ≡ true → a ≡ true) → a ≡ b
true_iff true b f g = sym (f refl)
true_iff false true f g = g refl
true_iff false false f g = refl

pub any_of_mem :
    (p : Bytes → Bool) (k : Bytes) (xs : List Bytes)
    → mem k xs ≡ true
    → p k ≡ true
    → any p xs ≡ true
any_of_mem p k [] m h = cc
any_of_mem p k (x ∷ xs) m h = ground (arith, beq_iff x k, any_of_mem p k xs)

pub mem_of_any :
    (p : Bytes → Bool) (xs : List Bytes)
    → any p xs ≡ true
    → (k : Bytes) × (mem k xs ≡ true) × (p k ≡ true)
mem_of_any p [] h = cc
mem_of_any p (x ∷ xs) h = elim (Bool-cases (p x)) [
  | inl here ↦ (x, ground (arith, beq_refl x), here)
  | inr other ↦ let (k, among, holds) = mem_of_any p xs (ground arith) in (k, ground arith, holds)
]

module _ (db : SubnetListDb) (l m : ListType) (cidr : Bytes) where
  pub mem-texts-add :
      (k : Bytes)
      → mem k (texts (perform (add l cidr) db).1 m)
        ≡ (mem k (texts db m) || (beq l m && beq cidr k))
  unfolding expected
  mem-texts-add k =
      mem-texts (perform (add l cidr) db).1 m k
      ∙ (perform-expected (add l cidr) db).1 m k
      ∙ ground (arith, mem-texts db m k)

  pub mem-texts-remove :
      (k : Bytes)
      → mem k (texts (perform (remove l cidr) db).1 m)
        ≡ (mem k (texts db m) && not (beq l m && beq cidr k))
  unfolding expected
  mem-texts-remove k =
      mem-texts (perform (remove l cidr) db).1 m k
      ∙ (perform-expected (remove l cidr) db).1 m k
      ∙ ground (arith, mem-texts db m k)

  module _ (p : Bytes → Bool) where
    -- A search after an addition also finds the added text.
    pub any-texts-add :
        any p (texts (perform (add l cidr) db).1 m) ≡ (any p (texts db m) || (beq l m && p cidr))
    any-texts-add =
        true_iff _ _
          (λ h.
            let (k, among, holds) = mem_of_any p _ h in
            ground (arith, mem-texts-add k, beq_iff cidr k, any_of_mem p k (texts db m)))
          (λ h. elim (Bool-cases (any p (texts db m))) [
            | inl old ↦
                let (k, among, holds) = mem_of_any p _ old in
                any_of_mem p k _ (ground (arith, mem-texts-add k)) holds
            | inr new ↦
                any_of_mem p cidr _ (ground (arith, mem-texts-add cidr, beq_refl cidr))
                  (ground arith)
          ])

    -- A search after a removal passes the removed text over.
    pub any-texts-remove :
        any p (texts (perform (remove l cidr) db).1 m)
        ≡ any (λ k. p k && not (beq l m && beq cidr k)) (texts db m)
    any-texts-remove =
        true_iff _ _
          (λ h.
            let (k, among, holds) = mem_of_any p _ h in
            any_of_mem (λ x. p x && not (beq l m && beq cidr x)) k (texts db m)
              (ground (arith, mem-texts-remove k)) (ground (arith, mem-texts-remove k)))
          (λ h.
            let (k, among, holds) =
              mem_of_any (λ x. p x && not (beq l m && beq cidr x)) (texts db m) h in
            any_of_mem p k _ (ground (arith, mem-texts-remove k)) (ground arith))
