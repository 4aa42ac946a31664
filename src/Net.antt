-- ===== src/Net.antt =====
-- What the program uses of Go's package `net`, as an interface: the modules that work with
-- addresses take it as a parameter, so that their theorems hold for IPv4 and IPv6 texts alike.
pub mod Go
use otus_anti_bruteforce.Base.{Bool, Option, Result}
use otus_anti_bruteforce.Base.Text.{Bytes}

pub record NetPackage : Type 1 where
  pub Ip : Type 0
  pub IpNet : Type 0
  -- `net.ParseIP`; `none` is a nil address
  pub parse_ip : Bytes → Option Ip
  -- `net.ParseCIDR`
  pub parse_cidr : Bytes → Result (Ip × IpNet)
  -- `a.Equal(b)`
  pub ip_equal : Ip → Ip → Bool
  -- the field `IP` of a `net.IPNet`
  pub ip_of : IpNet → Ip
  -- `n.Contains(ip)`
  pub contains : IpNet → Ip → Bool
  -- `ip.String()`
  pub ip_string : Ip → Bytes
