-- ===== src/Base/Time.antt =====
-- `time.Time` as nanoseconds since the Unix epoch, `time.Duration` as nanoseconds, and
-- `Time.UnixMilli`, which rounds down.
use Prim.Native.Nat.{ℕ, ◌+◌, ◌*◌, ◌/◌}
use mathlib.Core.Path.{◌≡◌}
use native.Mathlib.Omega.{arith}
use otus_anti_bruteforce.Base.Int.{ℤ, pos, negsuc, ◌-ℤ◌, ◌≤ℤ◌}

abbrev pub nanos_per_milli : ℕ
nanos_per_milli = 1000000

unfoldable pub unix_milli : ℤ → ℤ
unix_milli (pos n) = pos (n / nanos_per_milli)
unix_milli (negsuc n) = negsuc (n / nanos_per_milli)

pub unix_milli_mono : (a b : ℤ) → a ≤ℤ b → unix_milli a ≤ℤ unix_milli b
unfolding unix_milli
unix_milli_mono a b h = ground arith

-- A window of whole milliseconds moves the rounded time by just as many.
pub unix_milli-sub :
    (now : ℤ) (w : ℕ) → unix_milli (now -ℤ pos (w * nanos_per_milli)) ≡ unix_milli now -ℤ pos w
unfolding unix_milli ◌-ℤ◌
unix_milli-sub (pos n) w = ground arith
unix_milli-sub (negsuc n) w = ground arith

-- `Duration.Milliseconds`, which rounds towards zero.
unfoldable pub milliseconds : ℤ → ℤ
milliseconds (pos n) = pos (n / nanos_per_milli)
milliseconds (negsuc n) = pos 0 -ℤ pos ((n + 1) / nanos_per_milli)

pub milliseconds-whole : (w : ℕ) → milliseconds (pos (w * nanos_per_milli)) ≡ pos w
unfolding milliseconds
milliseconds-whole w = ground arith

pub unix_milli_epoch : (now : ℤ) → pos 0 ≤ℤ now → pos 0 ≤ℤ unix_milli now
unfolding unix_milli
unix_milli_epoch now h = ground arith
