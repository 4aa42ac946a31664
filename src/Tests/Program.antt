-- ===== src/Tests/Program.antt =====
-- Runs of abfctl under a cobra that calls the functions of a command in the documented order.
use otus_anti_bruteforce.Base.{
  List, [], none, Result, ok, err, Error, new, Exec, ◌≡◌, refl, is_ok, if◌then◌else◌,
}
use otus_anti_bruteforce.Base.Text.{Bytes, codes}
use otus_anti_bruteforce.Net.Go.{MaskedNet}
use otus_anti_bruteforce.Client.{Stub}
use otus_anti_bruteforce.Client.Root.{Outcome, returned, panicked, Hooks, Cobra, main}
use otus_anti_bruteforce.Client.Program.{called_of, main-manage}
use otus_anti_bruteforce.Local.World.{World}
use otus_anti_bruteforce.Local.Manage.{white, add_to, manage}
use otus_anti_bruteforce.Tests.Fixtures.{v4_net, office, orders, config, digest, fresh}
use otus_anti_bruteforce.Tests.Edges.{direct, direct_stub, served}

abbrev required_missing : Error
required_missing = new (codes "required flag(s) not set")

module _ {S : Type 0} (h : Hooks S) where
  abbrev after_post : List Bytes → Result (Unit {0}) × S → Outcome × S
  after_post lines (ok _, s) = (returned (ok lines), s)
  after_post lines (err e, s) = (returned (err e), s)

  abbrev after_run : Outcome × S → Outcome × S
  after_run (panicked, s) = (panicked, s)
  after_run (returned (err e), s) = (returned (err e), s)
  after_run (returned (ok lines), s) = after_post lines (h.post_run s)

  abbrev after_pre : Result (Unit {0}) × S → Outcome × S
  after_pre (err e, s) = (returned (err e), s)
  after_pre (ok _, s) =
      if h.required then after_run (h.run_e s) else (returned (err required_missing), s)

abbrev in_order : {S : Type 0} → Cobra S
in_order = record {
  execute = λ h s. after_pre h (h.pre_run s);
  missing = required_missing;
  pre_fails = λ h s s' e failed. rw failed refl;
  flags_missing = λ h s s' made unset. rw (made, unset) refl;
  run_panics = λ h s s' s'' made all_set panics. rw (made, all_set, panics) refl;
  run_fails = λ h s s' s'' e made all_set failed. rw (made, all_set, failed) refl;
  post_fails =
      λ h s s' s'' s''' lines e made all_set ran failed. rw (made, all_set, ran, failed) refl;
  all_done = λ h s s' s'' s''' lines made all_set ran closes. rw (made, all_set, ran, closes) refl;
}

abbrev dial : Bytes → Result (Unit {0})
dial addr = ok tt

abbrev stub_on : Unit {0} → Stub (World MaskedNet)
stub_on conn = direct_stub

abbrev close_conn : Unit {0} → Exec (World MaskedNet) (Unit {0})
close_conn conn w = (ok tt, w)

abbrev env : Bytes → Bytes
env name = []

main-manage_example :
    main in_order dial stub_on close_conn env none (called_of (add_to white office)) fresh ≡ (
      if is_ok (manage v4_net orders digest config (add_to white office) fresh).0 then 0 else 1,
      (manage v4_net orders digest config (add_to white office) fresh).1,
    )
main-manage_example =
    main-manage v4_net orders digest config direct in_order dial stub_on close_conn env none tt
      (add_to white office) fresh refl served (λ w. refl)
