-- ===== src/App/Password.antt =====
-- `hashPassword` of internal/app/ratelimit_service.go: the lower-case hexadecimal digits of the
-- SHA-256 digest, which is a parameter.
use otus_anti_bruteforce.Base.{
  ℕ, ◌+◌, ◌-◌, ◌/◌, ◌%◌, ◌<◌, List, [], ◌∷◌, ◌≡◌, refl, All, ltb, if◌then◌else◌, arith,
}
use otus_anti_bruteforce.Base.Text.{Bytes}

unfoldable pub hex_digit : ℕ → ℕ
hex_digit n = if ltb n 10 then b'0' + n else b'a' + (n - 10)

-- `fmt.Sprintf("%x", …)` of bytes
unfoldable pub hex : List ℕ → Bytes
hex [] = []
hex (b ∷ bs) = hex_digit (b / 16) ∷ hex_digit (b % 16) ∷ hex bs

unfoldable pub hash_password : (Bytes → List ℕ) → Bytes → Bytes
hash_password sum256 password = hex (sum256 password)

abbrev pub IsByte : ℕ → Type 0
IsByte b = b < 256

hex_digit_injective : (m n : ℕ) → m < 16 → n < 16 → hex_digit m ≡ hex_digit n → m ≡ n
unfolding hex_digit
hex_digit_injective m n h k e = ground arith

hex_injective : (xs ys : List ℕ) → All IsByte xs → All IsByte ys → hex xs ≡ hex ys → xs ≡ ys
unfolding hex
hex_injective [] [] h k e = refl
hex_injective [] (y ∷ ys) h k e = cc
hex_injective (x ∷ xs) [] h k e = cc
hex_injective (x ∷ xs) (y ∷ ys) (h, hs) (k, ks) e = ground (
  arith,
  hex_digit_injective (x / 16) (y / 16),
  hex_digit_injective (x % 16) (y % 16),
  hex_injective xs ys hs ks,
)

-- If the digest consists of bytes, two passwords share a bucket only if their digests are equal.
hash_password_injective :
    (sum256 : Bytes → List ℕ)
    → ((p : Bytes) → All IsByte (sum256 p))
    → (p q : Bytes) → hash_password sum256 p ≡ hash_password sum256 q
    → sum256 p ≡ sum256 q
unfolding hash_password
hash_password_injective sum256 are_bytes p q e =
    hex_injective (sum256 p) (sum256 q) (are_bytes p) (are_bytes q) e
