-- ===== src/Base/Text.antt =====
-- Go strings as their bytes, with the equality test that map keys and `==` use.
use Prim.Native.Char.{code}
use Prim.Native.String.{String}
use Prim.Native.Nat.{ℕ}
use mathlib.Core.Path.{◌≡◌, refl}
use mathlib.Core.Logic.{◌↔◌}
use mathlib.Core.Bool.{Bool, true, false, ◌&&◌}
use mathlib.Core.List.{List, [], ◌∷◌, ◌++◌}
use native.Mathlib.Omega.{arith}
use otus_anti_bruteforce.Base.Tests.{◌==◌}

abbrev pub Bytes : Type 0
Bytes = List ℕ

-- The bytes of an ASCII literal.
abbrev pub codes : String → Bytes
codes String.[] = []
codes (String.◌∷◌ c s) = code c ∷ codes s

unfoldable pub beq : Bytes → Bytes → Bool
beq [] [] = true
beq (a ∷ s) (b ∷ t) = a == b && beq s t
beq _ _ = false

eq_of_beq : (s t : Bytes) → beq s t ≡ true → s ≡ t
unfolding beq
eq_of_beq [] [] h = refl
eq_of_beq [] (b ∷ t) h = cc
eq_of_beq (a ∷ s) [] h = cc
eq_of_beq (a ∷ s) (b ∷ t) h = ground (arith, eq_of_beq s t)

pub beq_refl : (s : Bytes) → beq s s ≡ true
unfolding beq
beq_refl [] = refl
beq_refl (a ∷ s) = ground (arith, beq_refl s)

pub beq_iff : (s t : Bytes) → (beq s t ≡ true) ↔ (s ≡ t)
beq_iff s t = (eq_of_beq s t, λ e. rw e (beq_refl t))

pub beq_append_cancel : (p s t : Bytes) → beq (p ++ s) (p ++ t) ≡ beq s t
unfolding beq
beq_append_cancel [] s t = refl
beq_append_cancel (a ∷ p) s t = ground (arith, beq_append_cancel p s t)
