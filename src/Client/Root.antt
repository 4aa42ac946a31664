-- ===== src/Client/Root.antt =====
-- cmd/abfctl/root.go and cmd/abfctl/main.go: the client that the root command makes before a command
-- and closes after it, the flags of the commands, and the exit code. Cobra, which calls these
-- functions, is a parameter.
use otus_anti_bruteforce.Base.{
  ℕ, Bool, true, false, ◌&&◌, List, [], Option, none, some, Result, ok, err, Error, Exec, ◌≡◌,
}
use otus_anti_bruteforce.Base.Text.{Bytes}
use otus_anti_bruteforce.Client
use otus_anti_bruteforce.Client.{Client, Stub, new_client}
use otus_anti_bruteforce.Client.Commands.{Command, run, default_addr}
use otus_anti_bruteforce.Client.Commands

-- A command as it is called: a flag that is not given has no value.
pub data Called : Type 0 where
  whitelist_add whitelist_remove blacklist_add blacklist_remove : Option Bytes → Called
  check : Option Bytes → Option Bytes → Option Bytes → Called
  reset : Option Bytes → Option Bytes → Called

abbrev is_set : Option Bytes → Bool
is_set none = false
is_set (some v) = true

-- The default of `StringVar`.
abbrev value_of : Option Bytes → Bytes
value_of none = []
value_of (some v) = v

-- `MarkFlagRequired`: whether every required flag of the command is given.
unfoldable pub required_set : Called → Bool
required_set (whitelist_add cidr) = is_set cidr
required_set (whitelist_remove cidr) = is_set cidr
required_set (blacklist_add cidr) = is_set cidr
required_set (blacklist_remove cidr) = is_set cidr
required_set (check login pass ip) = is_set login && is_set pass && is_set ip
required_set (reset login ip) = is_set login && is_set ip

-- The command with the variables that its flags fill.
unfoldable pub filled : Called → Command
filled (whitelist_add cidr) = Commands.whitelist_add (value_of cidr)
filled (whitelist_remove cidr) = Commands.whitelist_remove (value_of cidr)
filled (blacklist_add cidr) = Commands.blacklist_add (value_of cidr)
filled (blacklist_remove cidr) = Commands.blacklist_remove (value_of cidr)
filled (check login pass ip) = Commands.check (value_of login) (value_of pass) (value_of ip)
filled (reset login ip) = Commands.reset (value_of login) (value_of ip)

-- `--addr`, which `default_addr` stands in for.
unfoldable pub addr_of : (Bytes → Bytes) → Option Bytes → Bytes
addr_of env none = default_addr env
addr_of env (some addr) = addr

-- What `RunE` of a command comes to: it returns, or it panics on a nil client.
pub data Outcome : Type 0 where
  returned : Result (List Bytes) → Outcome
  panicked : Outcome

-- The functions of a command that cobra calls, over the state of the command: the client in its
-- context, and the rest.
pub record Hooks (S : Type 0) : Type 0 where
  pub pre_run : Exec S (Unit {0})
  pub required : Bool
  pub run_e : S → Outcome × S
  pub post_run : Exec S (Unit {0})

-- `Execute`, as cobra documents the order of the functions: one that fails ends the command with its
-- error, and the flags are checked before `RunE`.
pub record Cobra (S : Type 0) : Type 0 where
  pub execute : Hooks S → S → Outcome × S
  pub missing : Error
  pub pre_fails :
      (h : Hooks S) (s s' : S) (e : Error)
      → h.pre_run s ≡ (err e, s')
      → execute h s ≡ (returned (err e), s')
  pub flags_missing :
      (h : Hooks S) (s s' : S)
      → h.pre_run s ≡ (ok tt, s')
      → h.required ≡ false
      → execute h s ≡ (returned (err missing), s')
  pub run_panics :
      (h : Hooks S) (s s' s'' : S)
      → h.pre_run s ≡ (ok tt, s')
      → h.required ≡ true
      → h.run_e s' ≡ (panicked, s'')
      → execute h s ≡ (panicked, s'')
  pub run_fails :
      (h : Hooks S) (s s' s'' : S) (e : Error)
      → h.pre_run s ≡ (ok tt, s')
      → h.required ≡ true
      → h.run_e s' ≡ (returned (err e), s'')
      → execute h s ≡ (returned (err e), s'')
  pub post_fails :
      (h : Hooks S) (s s' s'' s''' : S) (lines : List Bytes) (e : Error)
      → h.pre_run s ≡ (ok tt, s')
      → h.required ≡ true
      → h.run_e s' ≡ (returned (ok lines), s'')
      → h.post_run s'' ≡ (err e, s''')
      → execute h s ≡ (returned (err e), s''')
  pub all_done :
      (h : Hooks S) (s s' s'' s''' : S) (lines : List Bytes)
      → h.pre_run s ≡ (ok tt, s')
      → h.required ≡ true
      → h.run_e s' ≡ (returned (ok lines), s'')
      → h.post_run s'' ≡ (ok tt, s''')
      → execute h s ≡ (returned (ok lines), s''')

-- The state of a command: the client in its context, once it is put there, and the rest.
abbrev pub Session : Type 0 → Type 0 → Type 0
Session Conn S = Option (Client Conn S) × S

module _ {Conn S : Type 0} where
  -- `getClient`: nil, if the context has no client
  unfoldable pub get_client : Session Conn S → Option (Client Conn S)
  get_client (c, s) = c

  abbrev stored : Result (Client Conn S) → Exec (Session Conn S) (Unit {0})
  stored (ok c) (old, s) = (ok tt, (some c, s))
  stored (err e) (old, s) = (err e, (old, s))

  unfoldable pub persistent_pre_run :
      (Bytes → Result Conn) → (Conn → Stub S) → Bytes → Exec (Session Conn S) (Unit {0})
  persistent_pre_run dial stub_on addr = stored (new_client dial stub_on addr)

  abbrev beside :
      Option (Client Conn S) → Result (Unit {0}) × S → Result (Unit {0}) × Session Conn S
  beside c (r, s) = (r, (c, s))

  unfoldable pub persistent_post_run : (Conn → Exec S (Unit {0})) → Exec (Session Conn S) (Unit {0})
  unfolding get_client
  persistent_post_run close_conn session = elim (get_client session) [
    | none ↦ (ok tt, session)
    | some c ↦ beside session.0 (Client.close close_conn (some c) session.1)
  ]

  abbrev attempted : Option (Client Conn S) → Result (List Bytes) × S → Outcome × Session Conn S
  attempted c (r, s) = (returned r, (c, s))

  -- `RunE`, which calls a method of what `getClient` returns.
  unfoldable pub run_e : Command → Session Conn S → Outcome × Session Conn S
  unfolding get_client
  run_e command session = elim (get_client session) [
    | none ↦ (panicked, session)
    | some c ↦ attempted session.0 (run command c session.1)
  ]

  -- `newRootCmd` and the command that is called
  abbrev pub hooks :
      (Bytes → Result Conn)
      → (Conn → Stub S)
      → (Conn → Exec S (Unit {0}))
      → Bytes
      → Called
      → Hooks (Session Conn S)
  hooks dial stub_on close_conn addr called = record {
    pre_run = persistent_pre_run dial stub_on addr;
    required = required_set called;
    run_e = run_e (filled called);
    post_run = persistent_post_run close_conn;
  }

-- `main`: a program that panics exits with 2.
unfoldable pub exit_code : Outcome → ℕ
exit_code (returned (ok lines)) = 0
exit_code (returned (err e)) = 1
exit_code panicked = 2

-- What the program prints and does, with its exit code.
unfoldable pub main :
    {Conn S : Type 0}
    → Cobra (Session Conn S)
    → (Bytes → Result Conn)
    → (Conn → Stub S)
    → (Conn → Exec S (Unit {0}))
    → (Bytes → Bytes)
    → Option Bytes
    → Called
    → S
    → ℕ × S
unfolding exit_code
main cobra dial stub_on close_conn env addr called s =
    let (outcome, session) =
      cobra.execute (hooks dial stub_on close_conn (addr_of env addr) called) (none, s) in
    (exit_code outcome, session.1)
