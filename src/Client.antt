-- ===== src/Client.antt =====
-- internal/abfclient/client.go: a client of the service. The connection, the stub on it and the
-- dialling are gRPC's, and parameters.
pub mod Commands
pub mod Exit
pub mod Program
pub mod Root
pub mod Served
use otus_anti_bruteforce.Base.{
  Bool, Option, none, some, List, [], ◌++◌, Result, ok, err, Error, wrap, Exec, pure, ◌>>=◌, ◌>>◌,
}
use otus_anti_bruteforce.Base.Text.{Bytes, codes}
use otus_anti_bruteforce.Delivery.Messages.{
  CheckAttemptRequest, CheckAttemptResponse, get_ok, ResetBucketRequest, ResetBucketResponse,
  ManageCidrRequest, ManageCidrResponse,
}

-- The interface `AntiBruteforceClient` of api/proto/anti_bruteforce/v1/anti_bruteforce_grpc.pb.go.
pub record Stub (S : Type 0) : Type 0 where
  pub check_attempt : CheckAttemptRequest → Exec S CheckAttemptResponse
  pub reset_bucket : ResetBucketRequest → Exec S ResetBucketResponse
  pub add_to_whitelist : ManageCidrRequest → Exec S ManageCidrResponse
  pub remove_from_whitelist : ManageCidrRequest → Exec S ManageCidrResponse
  pub add_to_blacklist : ManageCidrRequest → Exec S ManageCidrResponse
  pub remove_from_blacklist : ManageCidrRequest → Exec S ManageCidrResponse

-- The connection is a pointer that may be nil.
pub record Client (Conn S : Type 0) : Type 0 where
  pub conn : Option Conn
  pub client : Stub S

module _ {Conn S : Type 0} where
  -- `dial` is `grpc.NewClient` with insecure credentials, and `stub_on` is
  -- `pbv1.NewAntiBruteforceClient`.
  unfoldable pub new_client :
      (Bytes → Result Conn) → (Conn → Stub S) → Bytes → Result (Client Conn S)
  new_client dial stub_on address = elim (dial address) [
    | err e ↦ err (wrap (codes "abfclient: dial " ++ address) e)
    | ok conn ↦ ok (record { conn = some conn; client = stub_on conn })
  ]

  -- Closing no client, or one without a connection, does nothing.
  unfoldable pub close : (Conn → Exec S (Unit {0})) → Option (Client Conn S) → Exec S (Unit {0})
  close close_conn none = pure tt
  close close_conn (some c) = elim c.conn [ none ↦ pure tt | some conn ↦ close_conn conn ]

  module _ (c : Client Conn S) where
    unfoldable pub check : Bytes → Bytes → Bytes → Exec S Bool
    check login password ip = do
      resp ← c.client.check_attempt (record { login = login; password = password; ip = ip })
      pure (get_ok (some resp))

    -- The request has no password: protobuf reads an empty one.
    unfoldable pub reset_bucket : Bytes → Bytes → Exec S (Unit {0})
    reset_bucket login ip = do
      c.client.reset_bucket (record { login = login; password = []; ip = ip })
      pure tt

    unfoldable pub add_to_whitelist : Bytes → Exec S (Unit {0})
    add_to_whitelist cidr = do c.client.add_to_whitelist (record { cidr = cidr }); pure tt

    unfoldable pub remove_from_whitelist : Bytes → Exec S (Unit {0})
    remove_from_whitelist cidr = do c.client.remove_from_whitelist (record { cidr = cidr }); pure tt

    unfoldable pub add_to_blacklist : Bytes → Exec S (Unit {0})
    add_to_blacklist cidr = do c.client.add_to_blacklist (record { cidr = cidr }); pure tt

    unfoldable pub remove_from_blacklist : Bytes → Exec S (Unit {0})
    remove_from_blacklist cidr = do c.client.remove_from_blacklist (record { cidr = cidr }); pure tt
