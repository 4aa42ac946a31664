-- ===== src/Client/Program.antt =====
-- A run of abfctl against the server of the local mode, from the command line to the exit code.
use otus_anti_bruteforce.Base.{
  ℕ, true, List, Option, some, Result, ok, err, Error, Exec, ◌≡◌, refl, ◌∙◌, is_ok, if◌then◌else◌,
}
use otus_anti_bruteforce.Base.Text.{Bytes}
use otus_anti_bruteforce.Net.{NetPackage}
use otus_anti_bruteforce.RateLimit.Checker.{LimitsConfig}
use otus_anti_bruteforce.Client
use otus_anti_bruteforce.Client.{Client, Stub, new_client}
use otus_anti_bruteforce.Client.Commands.{run}
use otus_anti_bruteforce.Client.Root.{
  Called, whitelist_add, whitelist_remove, blacklist_add, blacklist_remove, required_set, filled,
  addr_of, Cobra, Session, main,
}
use otus_anti_bruteforce.Client.Exit.{closed, main_lem}
use otus_anti_bruteforce.Client.Served.{Carries, server, command_of, run-manage}
use otus_anti_bruteforce.Local.World.{World, LoopOrders}
use otus_anti_bruteforce.Local.Manage.{white, black, Manage, add_to, remove_from, manage}

-- The command line for a call of the lists.
abbrev pub called_of : Manage → Called
called_of (add_to white cidr) = whitelist_add (some cidr)
called_of (add_to black cidr) = blacklist_add (some cidr)
called_of (remove_from white cidr) = whitelist_remove (some cidr)
called_of (remove_from black cidr) = blacklist_remove (some cidr)

called_complete : (m : Manage) → required_set (called_of m) ≡ true
unfolding required_set
called_complete (add_to white cidr) = refl
called_complete (add_to black cidr) = refl
called_complete (remove_from white cidr) = refl
called_complete (remove_from black cidr) = refl

filled-called_of : (m : Manage) → filled (called_of m) ≡ command_of m
unfolding filled
filled-called_of (add_to white cidr) = refl
filled-called_of (add_to black cidr) = refl
filled-called_of (remove_from white cidr) = refl
filled-called_of (remove_from black cidr) = refl

-- The exit code for a result.
abbrev pub code : {A : Type 0} → Result A → ℕ
code r = if is_ok r then 0 else 1

-- A client whose connection closes without an error.
closed-code :
    {Conn S : Type 0} (close_conn : Conn → Exec S (Unit {0})) (conn : Conn) (stub : Stub S)
    (x : Result (List Bytes) × S)
    → ((s : S) → close_conn conn s ≡ (ok tt, s))
    → closed close_conn (record { conn = some conn; client = stub }) x ≡ (code x.0, x.1)
unfolding Client.close
closed-code close_conn conn stub (ok lines, s) closes = rw (Client.close, closes s) refl
closed-code close_conn conn stub (err e, s) closes = refl

module _ (net : NetPackage) (orders : LoopOrders net.IpNet) (sum256 : Bytes → List ℕ)
    (cfg : LimitsConfig) (carry : Error → Error) {Conn : Type 0}
    (cobra : Cobra (Session Conn (World net.IpNet))) (dial : Bytes → Result Conn)
    (stub_on : Conn → Stub (World net.IpNet))
    (close_conn : Conn → Exec (World net.IpNet) (Unit {0})) where
  -- Under a cobra that calls the functions of a command as it documents, when the dialling
  -- succeeds, gRPC carries requests and replies between the stub and the server of the local mode,
  -- and the connection closes without an error and without a change of the server: a run of abfctl
  -- that adds to or removes from a list has just the effect of the call of the service, and exits
  -- with 0 if the call succeeds and with 1 if it fails.
  pub main-manage :
      (env : Bytes → Bytes) (addr : Option Bytes) (conn : Conn) (m : Manage) (w : World net.IpNet)
      → dial (addr_of env addr) ≡ ok conn
      → Carries net carry (server net orders sum256 cfg) (stub_on conn)
      → ((w : World net.IpNet) → close_conn conn w ≡ (ok tt, w))
      → main cobra dial stub_on close_conn env addr (called_of m) w ≡ (
        if is_ok (manage net orders sum256 cfg m w).0 then 0 else 1,
        (manage net orders sum256 cfg m w).1,
      )
  unfolding new_client
  main-manage env addr conn m w dialled served closes =
      let c : Client Conn (World net.IpNet) = record { conn = some conn; client = stub_on conn } in
      let same = run-manage net orders sum256 cfg carry c served w m in
      main_lem cobra dial stub_on close_conn env addr (called_of m) w
      ∙ rw (dialled, called_complete m, filled-called_of m)
          (closed-code close_conn conn (stub_on conn) (run (command_of m) c w) closes
            ∙ rw (same.0, same.1) refl)
