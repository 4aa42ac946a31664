-- ===== src/Client/Exit.antt =====
-- What a run of abfctl comes to: its exit code, and the connection that it makes and closes.
use otus_anti_bruteforce.Base.{
  ℕ, true, false, List, Option, none, some, Result, ok, err, Error, Exec, ◌≡◌, refl, Result-cases,
  Bool-cases, inl, inr, if◌then◌else◌,
}
use otus_anti_bruteforce.Base.Text.{Bytes}
use otus_anti_bruteforce.Client
use otus_anti_bruteforce.Client.{Client, Stub, new_client}
use otus_anti_bruteforce.Client.Commands.{run}
use otus_anti_bruteforce.Client.Root.{
  Called, required_set, filled, addr_of, Cobra, Session, persistent_pre_run, persistent_post_run,
  run_e, hooks, main,
}

module _ {Conn S : Type 0} (close_conn : Conn → Exec S (Unit {0})) (c : Client Conn S) where
  abbrev pub code_of : Result (Unit {0}) × S → ℕ × S
  code_of (ok _, s) = (0, s)
  code_of (err e, s) = (1, s)

  -- The client is closed after a command that succeeded, and only then.
  abbrev pub closed : Result (List Bytes) × S → ℕ × S
  closed (ok lines, s) = code_of (Client.close close_conn (some c) s)
  closed (err e, s) = (1, s)

module _ {Conn S : Type 0} (cobra : Cobra (Session Conn S)) (dial : Bytes → Result Conn)
    (stub_on : Conn → Stub S) (close_conn : Conn → Exec S (Unit {0})) (env : Bytes → Bytes)
    (addr : Option Bytes) (called : Called) (s : S) where
  abbrev at : Bytes
  at = addr_of env addr

  pub main_undialled :
      (e : Error)
      → new_client dial stub_on at ≡ err e
      → main cobra dial stub_on close_conn env addr called s ≡ (1, s)
  unfolding main persistent_pre_run
  main_undialled e failed =
      rw
        (cobra.pre_fails (hooks dial stub_on close_conn at called) (none, s) (none, s) e
          (rw (persistent_pre_run, failed) refl))
        refl

  module _ (c : Client Conn S) (made : new_client dial stub_on at ≡ ok c) where
    pre_made : persistent_pre_run dial stub_on at (none, s) ≡ (ok tt, (some c, s))
    unfolding persistent_pre_run
    pre_made = rw (persistent_pre_run, made) refl

    pub main_incomplete :
        required_set called ≡ false → main cobra dial stub_on close_conn env addr called s ≡ (1, s)
    unfolding main
    main_incomplete unset =
        rw
          (cobra.flags_missing (hooks dial stub_on close_conn at called) (none, s) (some c, s)
            pre_made unset)
          refl

    module _ (all_set : required_set called ≡ true) where
      main_failed :
          (e : Error) (s' : S)
          → run (filled called) c s ≡ (err e, s')
          → main cobra dial stub_on close_conn env addr called s ≡ (1, s')
      unfolding main run_e
      main_failed e s' failed =
          rw
            (cobra.run_fails (hooks dial stub_on close_conn at called) (none, s) (some c, s)
              (some c, s') e pre_made all_set (rw (run_e, failed) refl))
            refl

      main_ran :
          (lines : List Bytes) (s' : S) (r : Result (Unit {0})) (s'' : S)
          → run (filled called) c s ≡ (ok lines, s')
          → Client.close close_conn (some c) s' ≡ (r, s'')
          → main cobra dial stub_on close_conn env addr called s ≡ code_of close_conn c (r, s'')
      unfolding main run_e persistent_post_run
      main_ran lines s' (ok tt) s'' ran close =
          rw
            (cobra.all_done (hooks dial stub_on close_conn at called) (none, s) (some c, s)
              (some c, s') (some c, s'') lines pre_made all_set (rw (run_e, ran) refl)
              (rw (persistent_post_run, close) refl))
            refl
      main_ran lines s' (err e) s'' ran close =
          rw
            (cobra.post_fails (hooks dial stub_on close_conn at called) (none, s) (some c, s)
              (some c, s') (some c, s'') lines e pre_made all_set (rw (run_e, ran) refl)
              (rw (persistent_post_run, close) refl))
            refl

      main_complete :
          (x : Result (List Bytes) × S)
          → run (filled called) c s ≡ x
          → main cobra dial stub_on close_conn env addr called s ≡ closed close_conn c x
      main_complete (ok lines, s') e = main_ran lines s' _ _ e refl
      main_complete (err e, s') failed = main_failed e s' failed

  pub main_lem :
      main cobra dial stub_on close_conn env addr called s ≡ (elim (new_client dial stub_on at) [
        | err e ↦ (1, s)
        | ok c ↦
            if required_set called then closed close_conn c (run (filled called) c s) else (1, s)
      ])
  main_lem = elim (Result-cases (new_client dial stub_on at)) [
    | inl (c, made) ↦ elim (Bool-cases (required_set called)) [
      | inl all_set ↦ rw (made, all_set) (main_complete c made all_set _ refl)
      | inr unset ↦ rw (made, unset) (main_incomplete c made unset)
    ]
    | inr (e, failed) ↦ rw failed (main_undialled e failed)
  ]
