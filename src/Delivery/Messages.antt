-- ===== src/Delivery/Messages.antt =====
-- The messages of api/proto/anti_bruteforce/v1/anti_bruteforce.pb.go, without protobuf's own state,
-- and their getters, which answer for a nil message too.
use otus_anti_bruteforce.Base.{Bool, false, Option, none, some}
use otus_anti_bruteforce.Base.Text.{Bytes}

pub record CheckAttemptRequest : Type 0 where
  pub login : Bytes
  pub password : Bytes
  pub ip : Bytes

pub record CheckAttemptResponse : Type 0 where
  pub allowed : Bool

pub record ResetBucketRequest : Type 0 where
  pub login : Bytes
  pub password : Bytes
  pub ip : Bytes

pub record ManageCidrRequest : Type 0 where
  pub cidr : Bytes

-- `ResetBucketResponse` and `ManageCIDRResponse` have no field.
pub data ResetBucketResponse : Type 0 where
  reset_done : ResetBucketResponse

pub data ManageCidrResponse : Type 0 where
  manage_done : ManageCidrResponse

-- the field `Ok`
abbrev pub get_ok : Option CheckAttemptResponse → Bool
get_ok none = false
get_ok (some resp) = resp.allowed
