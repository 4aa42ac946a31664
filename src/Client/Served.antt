-- ===== src/Client/Served.antt =====
-- The commands of abfctl against the server of the local mode: a command has the effect of the call
-- of the service that it stands for.
use otus_anti_bruteforce.Base.{
  ℕ, Bool, none, some, List, [], ◌∷◌, Result, ok, err, Error, pure, ◌>>=◌, ◌>>◌, ◌≡◌, refl, is_ok,
  if◌then◌else◌, Option-cases, inl, inr,
}
use otus_anti_bruteforce.Base.Text.{Bytes, codes}
use otus_anti_bruteforce.Base.GoMap.{Visits}
use otus_anti_bruteforce.Net.{NetPackage}
use otus_anti_bruteforce.Memory.Buckets.Timelines.{times_of}
use otus_anti_bruteforce.RateLimit.Checker.{LimitsConfig}
use otus_anti_bruteforce.Delivery.Messages.{
  get_ok, CheckAttemptRequest, ResetBucketRequest, ManageCidrRequest,
}
use otus_anti_bruteforce.Delivery.Server as Server
use otus_anti_bruteforce.Delivery.Server.{new_server, err_invalid_ip}
use otus_anti_bruteforce.Client.{Client, Stub}
use otus_anti_bruteforce.Client
use otus_anti_bruteforce.Client.Commands
use otus_anti_bruteforce.Client.Commands.{Command, run, run_check}
use otus_anti_bruteforce.Local.World.{World, LoopOrders, rate_limiter, subnet_lists}
use otus_anti_bruteforce.Local.Manage.{white, black, Manage, add_to, remove_from, manage}
use otus_anti_bruteforce.Local.Limits.{bucket_of, reset_forgotten, times_of-forgotten}

-- A reply as it arrives: the status of an error in place of the error.
abbrev pub carried : {S A : Type 0} → (Error → Error) → Result A × S → Result A × S
carried carry (ok a, s) = (ok a, s)
carried carry (err e, s) = (err (carry e), s)

-- What gRPC does for a stub whose connection stands: a request reaches the handler of its method,
-- and the reply or the status of the error comes back.
pub record Carries (net : NetPackage) {S : Type 0} (carry : Error → Error)
    (srv : Server.Server net.Ip S) (stub : Stub S) : Type 0 where
  pub check_attempt :
      (req : CheckAttemptRequest) (s : S)
      → stub.check_attempt req s ≡ carried carry (Server.check_attempt net srv req s)
  pub reset_bucket :
      (req : ResetBucketRequest) (s : S)
      → stub.reset_bucket req s ≡ carried carry (Server.reset_bucket net srv req s)
  pub add_to_whitelist :
      (req : ManageCidrRequest) (s : S)
      → stub.add_to_whitelist req s ≡ carried carry (Server.add_to_whitelist net srv req s)
  pub remove_from_whitelist :
      (req : ManageCidrRequest) (s : S)
      → stub.remove_from_whitelist req s
        ≡ carried carry (Server.remove_from_whitelist net srv req s)
  pub add_to_blacklist :
      (req : ManageCidrRequest) (s : S)
      → stub.add_to_blacklist req s ≡ carried carry (Server.add_to_blacklist net srv req s)
  pub remove_from_blacklist :
      (req : ManageCidrRequest) (s : S)
      → stub.remove_from_blacklist req s
        ≡ carried carry (Server.remove_from_blacklist net srv req s)

-- The command for a call of the lists.
abbrev pub command_of : Manage → Command
command_of (add_to white cidr) = Commands.whitelist_add cidr
command_of (add_to black cidr) = Commands.blacklist_add cidr
command_of (remove_from white cidr) = Commands.whitelist_remove cidr
command_of (remove_from black cidr) = Commands.blacklist_remove cidr

-- What `check` prints.
abbrev pub verdict : Bool → Bytes
verdict passed = if passed then codes "Request is allowed" else codes "Request is not allowed"

abbrev pub announced : {S : Type 0} → Result Bool × S → Result (List Bytes) × S
announced (ok passed, s) = (ok (verdict passed ∷ []), s)
announced (err e, s) = (err e, s)

-- A call that answers `x`, relayed by the handler, the stub, the client and the command in turn.
abbrev relay :
    {S A : Type 0} → (Error → Error) → A → Result (Unit {0}) × S → Result (List Bytes) × S
relay carry done x = Commands.quiet (do λ s. carried carry ((do λ s. x; pure done) s); pure tt) x.1

relay_keeps :
    {S A : Type 0} (carry : Error → Error) (done : A) (x : Result (Unit {0}) × S)
    → (is_ok (relay carry done x).0 ≡ is_ok x.0) × ((relay carry done x).1 ≡ x.1)
relay_keeps carry done (ok tt, s) = (refl, refl)
relay_keeps carry done (err e, s) = (refl, refl)

announced-carried :
    {S : Type 0} (carry : Error → Error) (x : Result Bool × S)
    → (do
      line ← (do
        passed ← (do
          resp ← λ s. carried carry ((do passed ← λ s. x; pure (record { allowed = passed })) s)
          pure (get_ok (some resp)))
        pure (verdict passed))
      pure (line ∷ []))
        x.1
      ≡ announced (carried carry x)
announced-carried carry (ok passed, s) = refl
announced-carried carry (err e, s) = refl

module _ (net : NetPackage) (orders : LoopOrders net.IpNet) (sum256 : Bytes → List ℕ)
    (cfg : LimitsConfig) where
  open net use {Ip, IpNet}

  abbrev pub server : Server.Server Ip (World IpNet)
  server = new_server (rate_limiter net orders sum256 cfg) (subnet_lists net orders sum256 cfg)

  module _ (carry : Error → Error) {Conn : Type 0} (c : Client Conn (World IpNet))
      (served : Carries net carry server c.client) (w : World IpNet) where
    -- When gRPC carries requests and replies between the stub and the server of the local mode, a
    -- command of abfctl for the lists changes the state as the call of the service does, and fails
    -- just if the call fails.
    pub run-manage :
        (m : Manage)
        → (is_ok (run (command_of m) c w).0 ≡ is_ok (manage net orders sum256 cfg m w).0)
          × ((run (command_of m) c w).1 ≡ (manage net orders sum256 cfg m w).1)
    unfolding run Client.add_to_whitelist Client.add_to_blacklist Client.remove_from_whitelist
        Client.remove_from_blacklist Server.add_to_whitelist Server.add_to_blacklist
        Server.remove_from_whitelist Server.remove_from_blacklist
    run-manage (add_to white cidr) = rw served.add_to_whitelist (relay_keeps carry _ _)
    run-manage (add_to black cidr) = rw served.add_to_blacklist (relay_keeps carry _ _)
    run-manage (remove_from white cidr) = rw served.remove_from_whitelist (relay_keeps carry _ _)
    run-manage (remove_from black cidr) = rw served.remove_from_blacklist (relay_keeps carry _ _)

    -- When gRPC carries requests and replies between the stub and the server of the local mode,
    -- `abfctl check` prints the answer of `Check`; a text that is no address gives an error, and
    -- nothing is counted.
    pub run-check :
        (login password ip : Bytes)
        → run (Commands.check login password ip) c w ≡ (elim (net.parse_ip ip) [
          | none ↦ (err (carry err_invalid_ip), w)
          | some addr ↦
              announced
                (carried carry ((rate_limiter net orders sum256 cfg).check login password addr w))
        ])
    unfolding run run_check Client.check Server.check_attempt
    run-check login password ip = elim (Option-cases (net.parse_ip ip)) [
      | inl bad ↦ rw (served.check_attempt, bad, Server.check_attempt)
      | inr (addr, parsed) ↦
          rw (served.check_attempt, parsed, Server.check_attempt)
            (announced-carried carry
              ((rate_limiter net orders sum256 cfg).check login password addr w))
    ]

    -- When gRPC carries requests and replies between the stub and the server of the local mode, and
    -- the text is an address: `abfctl reset` empties the buckets of the login, of the address and
    -- of the empty password, and no other.
    pub run-reset :
        (login ip : Bytes) (addr : Ip)
        → Visits orders.limits
        → net.parse_ip ip ≡ some addr
        → ((run (Commands.reset login ip) c w).0 ≡ ok [])
          × ((k : Bytes)
              → times_of (run (Commands.reset login ip) c w).1.buckets k
                ≡ (if bucket_of net sum256 login [] addr k then [] else times_of w.buckets k))
    unfolding run Client.reset_bucket Server.reset_bucket
    run-reset login ip addr visits parsed =
        rw
          (
            served.reset_bucket,
            Server.reset_bucket,
            parsed,
            reset_forgotten net orders visits sum256 cfg,
          )
          (refl, times_of-forgotten net orders visits sum256 cfg login [] addr w)
