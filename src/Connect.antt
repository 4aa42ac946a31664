-- ===== src/Connect.antt =====
-- Clients of a service behind the network, as the program makes them: connect, ping, and close again
-- if the ping fails. The drivers are parameters.
use otus_anti_bruteforce.Base.{
  ℕ, Bool, true, false, not, ◌&&◌, ◌||◌, ◌==◌, Result, ok, err, Exec, ◌≡◌, Keeps, refl, ◌∙◌, sym,
  ◌>>=◌, bind_ok, bind_err, Result-cases, inl, inr, arith,
}

-- A client is known by a number. The error of `Close` is dropped everywhere.
pub record Driver (D : Type 0) : Type 0 where
  pub ping : ℕ → Exec D (Unit {0})
  pub close : ℕ → D → D

-- `if err := db.Ping(); err != nil { db.Close(); return nil, err }; return db, nil`
unfoldable pub pinged : {D : Type 0} → Driver D → ℕ → Exec D ℕ
pinged driver h d =
    let (r, d') = driver.ping h d in
    elim r [ ok _ ↦ (ok h, d') | err e ↦ (err e, driver.close h d') ]

-- Which clients are open, as a driver documents it.
pub record Closes {D : Type 0} (driver : Driver D) (is_open : D → ℕ → Bool) : Type 0 where
  pub ping_open : (h : ℕ) (d : D) (k : ℕ) → is_open (driver.ping h d).1 k ≡ is_open d k
  pub close_open :
      (h : ℕ) (d : D) (k : ℕ) → is_open (driver.close h d) k ≡ (is_open d k && not (h == k))

-- The clients that a call leaves open: one more if it returns one, and the same if it fails.
abbrev pub open_after : (ℕ → Bool) → Result ℕ → ℕ → Bool
open_after before (ok h) k = before k || h == k
open_after before (err e) k = before k

pub dropped : (b c : Bool) → (c ≡ true → b ≡ false) → ((b || c) && not c) ≡ b
dropped true true h = sym (h refl)
dropped true false h = refl
dropped false true h = refl
dropped false false h = refl

-- A client that was not open before, and is open now, is pinged.
pub open-pinged :
    {D : Type 0} (driver : Driver D) (is_open : D → ℕ → Bool) (c : Closes driver is_open) (h : ℕ)
    (before : ℕ → Bool) (d : D)
    → before h ≡ false
    → ((k : ℕ) → is_open d k ≡ (before k || h == k))
    → (k : ℕ) → is_open (pinged driver h d).1 k ≡ open_after before (pinged driver h d).0 k
unfolding pinged
open-pinged driver is_open c h before d new opened k = elim (Result-cases (driver.ping h d).0) [
  | inl (tt, up) ↦ rw (pinged, up) (rw (c.ping_open h d k, opened k) refl)
  | inr (e, down) ↦
      rw (pinged, down)
        (rw (c.close_open h (driver.ping h d).1 k, c.ping_open h d k, opened k)
          (dropped (before k) (h == k) (λ same. ground (arith, new))))
]

-- The same after a call that opens a client.
pub open-bind :
    {D : Type 0} (driver : Driver D) (is_open : D → ℕ → Bool) (c : Closes driver is_open)
    (m : Exec D ℕ) (d : D) (x : Result ℕ × D)
    → m d ≡ x
    → ((h : ℕ) (d' : D) → m d ≡ (ok h, d') → is_open d h ≡ false)
    → ((k : ℕ) → is_open x.1 k ≡ open_after (is_open d) x.0 k)
    → (k : ℕ)
    → is_open ((m >>= pinged driver) d).1 k ≡ open_after (is_open d) ((m >>= pinged driver) d).0 k
open-bind driver is_open c m d (ok h, d') e fresh opened k =
    rw (bind_ok m (pinged driver) e)
      (open-pinged driver is_open c h (is_open d) d' (fresh h d' e) opened k)
open-bind driver is_open c m d (err f, d') e fresh opened k =
    rw (bind_err m (pinged driver) e) (opened k)

-- What the ping returns is the client that was opened.
pub bind-fresh :
    {D : Type 0} (driver : Driver D) (is_open : D → ℕ → Bool) (m : Exec D ℕ) (d : D)
    (x : Result ℕ × D)
    → m d ≡ x
    → ((h : ℕ) (d' : D) → m d ≡ (ok h, d') → is_open d h ≡ false)
    → (h : ℕ) → ((m >>= pinged driver) d).0 ≡ ok h
    → is_open d h ≡ false
unfolding pinged
bind-fresh driver is_open m d (ok j, d') e fresh h =
    rw (bind_ok m (pinged driver) e) (elim (Result-cases (driver.ping j d').0) [
      | inl (tt, up) ↦ rw (pinged, up) (λ same. let at : j ≡ h = cc in rw⁻¹ at (fresh j d' e))
      | inr (f, down) ↦ rw (pinged, down) (λ same. ground arith)
    ])
bind-fresh driver is_open m d (err f, d') e fresh h =
    rw (bind_err m (pinged driver) e) (λ same. ground arith)

-- A ping and what may follow it keep what `look` sees, if the driver does.
pub pinged-Keeps :
    {D X : Type 0} (driver : Driver D) (look : D → X)
    → ((h : ℕ) → Keeps look (driver.ping h))
    → ((h : ℕ) (d : D) → look (driver.close h d) ≡ look d)
    → (h : ℕ) → Keeps look (pinged driver h)
unfolding pinged
pinged-Keeps driver look ping close h d = elim (Result-cases (driver.ping h d).0) [
  | inl (tt, up) ↦ rw (pinged, up) (ping h d)
  | inr (e, down) ↦ rw (pinged, down) (close h (driver.ping h d).1 ∙ ping h d)
]
