-- ===== src/Net/Go.antt =====
-- Go's package `net` for IPv4 texts, as an instance of the interface: addresses and masks are byte
-- slices, an IPv4 address has 4 bytes or the 16 of its IPv6 form. Texts with a colon are IPv6, whose
-- parser and printer are parameters.
use Prim.Native.Nat.{bit_and}
use otus_anti_bruteforce.Base.{
  ℕ, zero, suc, ◌+◌, ◌-◌, ◌*◌, ◌/◌, ◌%◌, ◌^◌, Bool, false, ◌&&◌, ◌||◌, List, [], ◌∷◌, ◌++◌, Option,
  none, some, Result, ok, err, Error, foreign, ◌≡◌, refl, length, drop, ltb, leb, ◌==◌,
  if◌then◌else◌,
}
use otus_anti_bruteforce.Base.Text.{Bytes, beq, codes}
use otus_anti_bruteforce.Net.{NetPackage}

abbrev pub IpBytes : Type 0
IpBytes = List ℕ

pub record MaskedNet : Type 0 where
  pub ip : IpBytes
  pub mask : List ℕ

-- The first text before a separator, and the rest behind it, if there is one.
unfoldable pub cut : ℕ → Bytes → Option (Bytes × Bytes)
cut sep [] = none
cut sep (c ∷ s) =
    let rest = cut sep s in
    if c == sep then some ([], s) else elim rest [ none ↦ none | some (a, b) ↦ some (c ∷ a, b) ]

unfoldable pub is_digit : ℕ → Bool
is_digit c = leb b'0' c && leb c b'9'

-- digits up to the end of the text
unfoldable pub decimal : ℕ → Bytes → Option ℕ
decimal n [] = some n
decimal n (c ∷ s) = let rest = decimal (n * 10 + (c - b'0')) s in if is_digit c then rest else none

-- A field of an IPv4 text: at most 255, with no leading zero.
unfoldable pub octet : Bytes → Option ℕ
octet [] = none
octet (c ∷ []) = decimal 0 (c ∷ [])
octet (c ∷ d ∷ s) =
    if c == b'0'
    then none
    else elim (decimal 0 (c ∷ d ∷ s)) [ none ↦ none | some n ↦ if leb n 255 then some n else none ]

infixl 5 ◌>>=◌
abbrev ◌>>=◌ {ℓ κ} : {A : Type ℓ} {B : Type κ} → Option A → (A → Option B) → Option B
none >>= f = none
some a >>= f = f a

unfoldable pub parse_v4 : Bytes → Option IpBytes
parse_v4 s = do
  (a, s1) ← cut b'.' s
  (b, s2) ← cut b'.' s1
  (c, d) ← cut b'.' s2
  w ← octet a
  x ← octet b
  y ← octet c
  z ← octet d
  some (w ∷ x ∷ y ∷ z ∷ [])

-- the bytes before an IPv4 address in its IPv6 form
abbrev pub v4_in_v6 : List ℕ
v4_in_v6 = 0 ∷ 0 ∷ 0 ∷ 0 ∷ 0 ∷ 0 ∷ 0 ∷ 0 ∷ 0 ∷ 0 ∷ 255 ∷ 255 ∷ []

abbrev take : ℕ → List ℕ → List ℕ
take zero xs = []
take (suc n) [] = []
take (suc n) (x ∷ xs) = x ∷ take n xs

-- `ip.To4()`
unfoldable pub to_4 : IpBytes → Option IpBytes
to_4 ip =
    if length ip == 4
    then some ip
    else if length ip == 16 && beq (take 12 ip) v4_in_v6
    then some (drop 12 ip)
    else none

unfoldable pub go_ip_equal : IpBytes → IpBytes → Bool
go_ip_equal a b =
    if length a == length b
    then beq a b
    else if length a == 4 && length b == 16
    then beq (v4_in_v6 ++ a) b
    else if length a == 16 && length b == 4
    then beq a (v4_in_v6 ++ b)
    else false

-- the bytes of `net.CIDRMask(n, 8 * count)`
unfoldable pub cidr_mask : ℕ → ℕ → List ℕ
cidr_mask n zero = []
cidr_mask n (suc count) = (if leb 8 n then 255 else 256 - 2 ^ (8 - n)) ∷ cidr_mask (n - 8) count

unfoldable pub and_bytes : List ℕ → List ℕ → List ℕ
and_bytes (x ∷ xs) (m ∷ ms) = bit_and x m ∷ and_bytes xs ms
and_bytes _ _ = []

-- `n.Contains(ip)`: the lengths agree, and so do the bytes under the mask.
unfoldable pub go_contains : MaskedNet → IpBytes → Bool
go_contains n ip =
    let x : IpBytes = elim (to_4 ip) [ none ↦ ip | some v4 ↦ v4 ] in
    length x == length n.ip && beq (and_bytes n.ip n.mask) (and_bytes x n.mask)

-- the decimal text of a byte
unfoldable pub show_octet : ℕ → Bytes
show_octet n =
    if ltb n 10
    then (b'0' + n) ∷ []
    else if ltb n 100
    then (b'0' + n / 10) ∷ (b'0' + n % 10) ∷ []
    else (b'0' + n / 100) ∷ (b'0' + n / 10 % 10) ∷ (b'0' + n % 10) ∷ []

unfoldable pub show_v4 : IpBytes → Bytes
show_v4 [] = []
show_v4 (x ∷ []) = show_octet x
show_v4 (x ∷ y ∷ ip) = show_octet x ++ b'.' ∷ show_v4 (y ∷ ip)

unfoldable pub has_colon : Bytes → Bool
has_colon [] = false
has_colon (c ∷ s) = c == b':' || has_colon s

-- `net.ParseCIDR` fails with a `*net.ParseError`.
abbrev pub parse_error : Error
parse_error = foreign 0

module _ (parse_v6 : Bytes → Option IpBytes) (show_v6 : IpBytes → Bytes) where
  unfoldable pub go_parse_ip : Bytes → Option IpBytes
  go_parse_ip s =
      if has_colon s
      then parse_v6 s
      else elim (parse_v4 s) [ none ↦ none | some v4 ↦ some (v4_in_v6 ++ v4) ]

  -- The number behind the slash; Go refuses those from 0xffffff on, far above any prefix length.
  unfoldable pub prefix_length : Bytes → Option ℕ
  prefix_length [] = none
  prefix_length (c ∷ s) = decimal 0 (c ∷ s)

  -- An address of `count` bytes, with its 16 bytes, and the length of the prefix.
  unfoldable pub masked : ℕ → IpBytes → IpBytes → ℕ → Result (IpBytes × MaskedNet)
  masked count ip ip16 n =
      if ltb (8 * count) n
      then err parse_error
      else ok (ip16, record { ip = and_bytes ip (cidr_mask n count); mask = cidr_mask n count })

  unfoldable pub go_parse_cidr : Bytes → Result (IpBytes × MaskedNet)
  go_parse_cidr s = elim (cut b'/' s) [
    | none ↦ err parse_error
    | some (addr, bits) ↦ elim (prefix_length bits) [
      | none ↦ err parse_error
      | some n ↦
          if has_colon addr
          then elim (parse_v6 addr) [ none ↦ err parse_error | some ip ↦ masked 16 ip ip n ]
          else elim (parse_v4 addr) [
            | none ↦ err parse_error
            | some ip ↦ masked 4 ip (v4_in_v6 ++ ip) n
          ]
    ]
  ]

  unfoldable pub go_ip_string : IpBytes → Bytes
  go_ip_string ip = elim (to_4 ip) [ none ↦ show_v6 ip | some v4 ↦ show_v4 v4 ]

  abbrev pub go_net : NetPackage
  go_net = record {
    Ip = IpBytes;
    IpNet = MaskedNet;
    parse_ip = go_parse_ip;
    parse_cidr = go_parse_cidr;
    ip_equal = go_ip_equal;
    ip_of = λ n. n.ip;
    contains = go_contains;
    ip_string = go_ip_string;
  }

  -- the functions of this file, for tests
  unfoldable pub computing : Unit {0}
  unfolding cut is_digit decimal octet parse_v4 to_4 go_ip_equal cidr_mask and_bytes go_contains
      show_octet show_v4 has_colon go_parse_ip prefix_length masked go_parse_cidr go_ip_string beq
  computing = tt

tests :
    let net = go_net (λ s. none) (λ ip. []) in
    (net.parse_cidr (codes "192.168.1.0/24")
      ≡ ok (
        v4_in_v6 ++ 192 ∷ 168 ∷ 1 ∷ 0 ∷ [],
        record { ip = 192 ∷ 168 ∷ 1 ∷ 0 ∷ []; mask = 255 ∷ 255 ∷ 255 ∷ 0 ∷ [] },
      ))
    × (net.parse_cidr (codes "192.168.1.0/33") ≡ err parse_error)
    × (net.parse_cidr (codes "192.168.01.0/24") ≡ err parse_error)
    × (net.parse_ip (codes "10.0.0.256") ≡ none)
    × (net.ip_string (v4_in_v6 ++ 192 ∷ 168 ∷ 1 ∷ 7 ∷ []) ≡ codes "192.168.1.7")
unfolding computing
tests = (refl, refl, refl, refl, refl)
