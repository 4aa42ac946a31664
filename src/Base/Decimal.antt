-- ===== src/Base/Decimal.antt =====
-- Decimal texts of integers, as `fmt` prints them by `%d`.
use Prim.Native.Nat.{ℕ, zero, suc, ◌+◌, ◌-◌, ◌*◌, ◌/◌, ◌%◌, ◌<◌}
use mathlib.Core.Path.{◌≡◌, refl, ap}
use native.Mathlib.Omega.{arith}
use mathlib.Core.List.{[], ◌∷◌, ◌++◌}
use otus_anti_bruteforce.Base.Tests.{ltb, if◌then◌else◌}
use otus_anti_bruteforce.Base.Int.{ℤ, pos, negsuc}
use otus_anti_bruteforce.Base.Text.{Bytes}

-- The fuel is above the number, and each round divides the number by ten.
unfoldable pub digits : ℕ → ℕ → Bytes
digits zero n = []
digits (suc fuel) n =
    let rest = digits fuel (n / 10) in
    if ltb n 10 then (b'0' + n) ∷ [] else rest ++ (b'0' + n % 10) ∷ []

unfoldable pub show_nat : ℕ → Bytes
unfolding digits
show_nat n = digits (suc n) n

unfoldable pub show_int : ℤ → Bytes
unfolding show_nat
show_int (pos n) = show_nat n
show_int (negsuc n) = b'-' ∷ show_nat (suc n)

-- The number that decimal digits stand for, read from the left on top of `n`.
abbrev number_from : ℕ → Bytes → ℕ
number_from n [] = n
number_from n (c ∷ s) = number_from (n * 10 + (c - b'0')) s

number_from-append :
    (n c : ℕ) (s : Bytes) → number_from n (s ++ c ∷ []) ≡ number_from n s * 10 + (c - b'0')
number_from-append n c [] = refl
number_from-append n c (d ∷ s) = number_from-append (n * 10 + (d - b'0')) c s

-- With fuel above the number the digits are complete.
pub number_from-digits : (fuel n : ℕ) → n < fuel → number_from 0 (digits fuel n) ≡ n
unfolding digits
number_from-digits zero n h = omega arith
number_from-digits (suc fuel) n h = ground (
  arith,
  number_from-append 0 (b'0' + n % 10) (digits fuel (n / 10)),
  number_from-digits fuel (n / 10),
)

pub show_nat_injective : (m n : ℕ) → show_nat m ≡ show_nat n → m ≡ n
unfolding show_nat
show_nat_injective m n e = omega (
  arith,
  number_from-digits (suc m) m (omega arith),
  number_from-digits (suc n) n (omega arith),
  ap (number_from 0) e,
)
