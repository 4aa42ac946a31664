-- ===== src/Client/Commands.antt =====
-- cmd/abfctl: what each command does with the client that the root command made. The parsing of the
-- command line, with its required flags, is cobra's; a command has the values of its flags.
use otus_anti_bruteforce.Base.{List, [], ◌∷◌, Exec, pure, ◌>>=◌, ◌>>◌, if◌then◌else◌}
use otus_anti_bruteforce.Base.Text.{Bytes, codes, beq}
use otus_anti_bruteforce.Client
use otus_anti_bruteforce.Client.{Client, Stub, new_client}

-- `getenv`, over `os.Getenv`, which answers an empty text for a variable that is not set
unfoldable pub getenv : (Bytes → Bytes) → Bytes → Bytes → Bytes
getenv env k def = let v = env k in if beq v [] then def else v

-- the default of `--addr`
unfoldable pub default_addr : (Bytes → Bytes) → Bytes
unfolding getenv
default_addr env = getenv env (codes "ABF_ADDR") (codes "127.0.0.1:50051")

pub record ListSpec (Conn S : Type 0) : Type 0 where
  pub name : Bytes
  pub add_fn : Client Conn S → Bytes → Exec S (Unit {0})
  pub remove_fn : Client Conn S → Bytes → Exec S (Unit {0})

module _ {Conn S : Type 0} where
  abbrev pub whitelist_spec : ListSpec Conn S
  whitelist_spec = record {
    name = codes "whitelist";
    add_fn = Client.add_to_whitelist;
    remove_fn = Client.remove_from_whitelist;
  }

  abbrev pub blacklist_spec : ListSpec Conn S
  blacklist_spec = record {
    name = codes "blacklist";
    add_fn = Client.add_to_blacklist;
    remove_fn = Client.remove_from_blacklist;
  }

  -- The functions `RunE` of the commands; those that print return the line.
  abbrev pub run_list_add : ListSpec Conn S → Bytes → Client Conn S → Exec S (Unit {0})
  run_list_add spec cidr c = spec.add_fn c cidr

  abbrev pub run_list_remove : ListSpec Conn S → Bytes → Client Conn S → Exec S (Unit {0})
  run_list_remove spec cidr c = spec.remove_fn c cidr

  unfoldable pub run_check : Bytes → Bytes → Bytes → Client Conn S → Exec S Bytes
  run_check login pass ip c = do
    passed ← Client.check c login pass ip
    pure (if passed then codes "Request is allowed" else codes "Request is not allowed")

  abbrev pub run_reset : Bytes → Bytes → Client Conn S → Exec S (Unit {0})
  run_reset login ip c = Client.reset_bucket c login ip

-- The commands under the root command, with their flags.
pub data Command : Type 0 where
  whitelist_add whitelist_remove blacklist_add blacklist_remove : Bytes → Command
  check : Bytes → Bytes → Bytes → Command
  reset : Bytes → Bytes → Command

-- What a command prints.
abbrev pub quiet : {S : Type 0} → Exec S (Unit {0}) → Exec S (List Bytes)
quiet m = do m; pure []

unfoldable pub run : {Conn S : Type 0} → Command → Client Conn S → Exec S (List Bytes)
run (whitelist_add cidr) c = quiet (run_list_add whitelist_spec cidr c)
run (whitelist_remove cidr) c = quiet (run_list_remove whitelist_spec cidr c)
run (blacklist_add cidr) c = quiet (run_list_add blacklist_spec cidr c)
run (blacklist_remove cidr) c = quiet (run_list_remove blacklist_spec cidr c)
run (check login pass ip) c = do line ← run_check login pass ip c; pure (line ∷ [])
run (reset login ip) c = quiet (run_reset login ip c)
