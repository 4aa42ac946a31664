-- ===== src/Delivery/Server.antt =====
-- internal/delivery/grpc/server.go: each handler checks its service, then its input, then calls.
use otus_anti_bruteforce.Base.{Option, none, some, Error, new, Exec, pure, raise, ◌>>=◌, ◌>>◌}
use otus_anti_bruteforce.Base.Text.{codes}
use otus_anti_bruteforce.Net.{NetPackage}
use otus_anti_bruteforce.App.RateLimiter.{RateLimiterUseCase}
use otus_anti_bruteforce.App.SubnetLists.{SubnetListUseCase}
use otus_anti_bruteforce.Delivery.Messages.{
  CheckAttemptRequest, CheckAttemptResponse, ResetBucketRequest, ResetBucketResponse, reset_done,
  ManageCidrRequest, ManageCidrResponse, manage_done,
}

-- errors.go
abbrev pub err_rate_limiter_not_configured : Error
err_rate_limiter_not_configured = new (codes "rate limiter not configured")

abbrev pub err_invalid_ip : Error
err_invalid_ip = new (codes "invalid IP address")

abbrev pub err_subnet_list_not_configured : Error
err_subnet_list_not_configured = new (codes "subnet list not configured")

-- The use cases are interfaces that may be nil.
pub record Server (Ip S : Type 0) : Type 0 where
  pub rate_limiter : Option (RateLimiterUseCase Ip S)
  pub subnet_list : Option (SubnetListUseCase S)

abbrev pub new_server :
    {Ip S : Type 0} → RateLimiterUseCase Ip S → SubnetListUseCase S → Server Ip S
new_server rate_limiter subnet_list = record {
  rate_limiter = some rate_limiter;
  subnet_list = some subnet_list;
}

module _ (net : NetPackage) {S : Type 0} (s : Server net.Ip S) where
  unfoldable pub check_attempt : CheckAttemptRequest → Exec S CheckAttemptResponse
  check_attempt req = elim s.rate_limiter [
    | none ↦ raise err_rate_limiter_not_configured
    | some rate_limiter ↦ elim (net.parse_ip req.ip) [
      | none ↦ raise err_invalid_ip
      | some ip ↦ do
        allowed ← rate_limiter.check req.login req.password ip
        pure (record { allowed = allowed })
    ]
  ]

  unfoldable pub reset_bucket : ResetBucketRequest → Exec S ResetBucketResponse
  reset_bucket req = elim s.rate_limiter [
    | none ↦ raise err_rate_limiter_not_configured
    | some rate_limiter ↦ elim (net.parse_ip req.ip) [
      | none ↦ raise err_invalid_ip
      | some ip ↦ do rate_limiter.reset req.login req.password ip; pure reset_done
    ]
  ]

  unfoldable pub add_to_whitelist : ManageCidrRequest → Exec S ManageCidrResponse
  add_to_whitelist req = elim s.subnet_list [
    | none ↦ raise err_subnet_list_not_configured
    | some subnet_list ↦ do subnet_list.add_to_whitelist req.cidr; pure manage_done
  ]

  unfoldable pub add_to_blacklist : ManageCidrRequest → Exec S ManageCidrResponse
  add_to_blacklist req = elim s.subnet_list [
    | none ↦ raise err_subnet_list_not_configured
    | some subnet_list ↦ do subnet_list.add_to_blacklist req.cidr; pure manage_done
  ]

  unfoldable pub remove_from_whitelist : ManageCidrRequest → Exec S ManageCidrResponse
  remove_from_whitelist req = elim s.subnet_list [
    | none ↦ raise err_subnet_list_not_configured
    | some subnet_list ↦ do subnet_list.remove_from_whitelist req.cidr; pure manage_done
  ]

  unfoldable pub remove_from_blacklist : ManageCidrRequest → Exec S ManageCidrResponse
  remove_from_blacklist req = elim s.subnet_list [
    | none ↦ raise err_subnet_list_not_configured
    | some subnet_list ↦ do subnet_list.remove_from_blacklist req.cidr; pure manage_done
  ]
