-- ===== src/Base/Effects.antt =====
-- Calls that change state and may fail: what a call wrote before its error stays written, so the
-- state comes back beside the error too.
use mathlib.Core.Path.{◌≡◌, refl, ap, ◌∙◌}
use mathlib.Core.Logic.{◌⊎◌, inl, inr}
use mathlib.Core.Bool.{Bool, true, false}
use Prim.Native.Nat.{ℕ}
use native.Mathlib.Omega.{arith}
use otus_anti_bruteforce.Base.Text.{Bytes}

-- Go's `error` values, by the way they are built.
pub data Error : Type 0 where
  -- a package's variable `Err… = errors.New(…)`, and `errors.New(…)` in a function
  new : Bytes → Error
  -- `fmt.Errorf("…: %w", err)`
  wrap : Bytes → Error → Error
  -- `errors.Join(a, b)`
  join : Error → Error → Error
  -- an error that code outside the repository returned
  foreign : ℕ → Error

pub data Result {ℓ} (A : Type ℓ) : Type ℓ where
  ok : A → Result A
  err : Error → Result A

abbrev pub Exec {ℓ κ} : Type ℓ → Type κ → Type (ℓ ⊔ κ)
Exec S A = S → Result A × S

abbrev pub is_ok {ℓ} : {A : Type ℓ} → Result A → Bool
is_ok (ok a) = true
is_ok (err e) = false

module _ {ℓ κ} {S : Type ℓ} {A : Type κ} where
  abbrev pub pure : A → Exec S A
  pure a s = (ok a, s)

  abbrev pub raise : Error → Exec S A
  raise e s = (err e, s)

  -- `return fmt.Errorf("…: %w", err)` on an error, and the value otherwise
  abbrev pub wrapping : Bytes → Result A × S → Result A × S
  wrapping msg (ok a, s) = (ok a, s)
  wrapping msg (err e, s) = (err (wrap msg e), s)

module _ {ℓ κ μ} {S : Type ℓ} {A : Type κ} {B : Type μ} where
  abbrev continue : (A → Exec S B) → Result A × S → Result B × S
  continue f (ok a, s) = f a s
  continue f (err e, s) = (err e, s)

  infixl 5 ◌>>=◌ ◌>>◌
  abbrev pub ◌>>=◌ : Exec S A → (A → Exec S B) → Exec S B
  ◌>>=◌ m f s = continue f (m s)

  abbrev pub ◌>>◌ : Exec S A → Exec S B → Exec S B
  m >> k = m >>= λ _. k

module _ {ℓ κ μ} {S : Type ℓ} {A : Type κ} {B : Type μ} where
  pub bind_ok :
      (m : Exec S A) (f : A → Exec S B) {s s' : S} {a : A} → m s ≡ (ok a, s') → (m >>= f) s ≡ f a s'
  bind_ok m f h = ap (continue f) h

  pub bind_err :
      (m : Exec S A) (f : A → Exec S B) {s s' : S} {e : Error}
      → m s ≡ (err e, s')
      → (m >>= f) s ≡ (err e, s')
  bind_err m f h = ap (continue f) h

pub Result-cases {ℓ} :
    {A : Type ℓ} (r : Result A) → ((a : A) × (r ≡ ok a)) ⊎ ((e : Error) × (r ≡ err e))
Result-cases (ok a) = inl (a, refl)
Result-cases (err e) = inr (e, refl)

-- Wrapping an error leaves the state.
pub state-wrapping {ℓ κ} :
    {S : Type ℓ} {A : Type κ} (msg : Bytes) (r : Result A) (s : S) → (wrapping msg (r, s)).1 ≡ s
state-wrapping msg (ok a) s = refl
state-wrapping msg (err e) s = refl

pub is_ok-wrapping {ℓ κ} :
    {S : Type ℓ} {A : Type κ} (msg : Bytes) (r : Result A) (s : S)
    → is_ok (wrapping msg (r, s)).0 ≡ is_ok r
is_ok-wrapping msg (ok a) s = refl
is_ok-wrapping msg (err e) s = refl

pub ok_of_is_ok : (r : Result (Unit {0})) → is_ok r ≡ true → r ≡ ok tt
ok_of_is_ok (ok _) h = refl
ok_of_is_ok (err e) h = cc

-- A call that leaves what `look` sees of the state.
abbrev pub Keeps {ℓ κ μ} :
    {S : Type ℓ} {A : Type κ} {X : Type μ} → (S → X) → Exec S A → Type (ℓ ⊔ μ)
Keeps {S = S} look m = (s : S) → look (m s).1 ≡ look s

module _ {ℓ κ μ ν} {S : Type ℓ} {A : Type κ} {B : Type μ} {X : Type ν} (look : S → X) where
  continue-Keeps :
      (f : A → Exec S B) (r : Result A) (s : S)
      → ((a : A) → Keeps look (f a))
      → look (continue f (r, s)).1 ≡ look s
  continue-Keeps f (ok a) s h = h a s
  continue-Keeps f (err e) s h = refl

  pub bind-Keeps :
      (m : Exec S A) (f : A → Exec S B)
      → Keeps look m
      → ((a : A) → Keeps look (f a))
      → Keeps look (m >>= f)
  bind-Keeps m f k h s = continue-Keeps f (m s).0 (m s).1 h ∙ k s

module _ {ℓ κ ν} {S : Type ℓ} {A : Type κ} {X : Type ν} (look : S → X) where
  pub wrapping-Keeps :
      (msg : Bytes) (m : Exec S A) → Keeps look m → Keeps look (λ s. wrapping msg (m s))
  wrapping-Keeps msg m k s = ap look (state-wrapping msg (m s).0 (m s).1) ∙ k s

module _ {ℓ κ μ} {S : Type ℓ} {A : Type κ} {B : Type μ} where
  continue-fails :
      (f : A → Exec S B) (r : Result A) (s : S)
      → ((a : A) (s : S) → is_ok (f a s).0 ≡ false)
      → is_ok (continue f (r, s)).0 ≡ false
  continue-fails f (ok a) s h = h a s
  continue-fails f (err e) s h = refl

  -- If the rest fails, the whole does.
  pub bind-fails :
      (m : Exec S A) (f : A → Exec S B)
      → ((a : A) (s : S) → is_ok (f a s).0 ≡ false)
      → (s : S) → is_ok ((m >>= f) s).0 ≡ false
  bind-fails m f h s = continue-fails f (m s).0 (m s).1 h

module _ {ℓ κ μ} {S : Type ℓ} {A : Type κ} {B : Type μ} where
  continue_ext :
      (f g : A → Exec S B) (r : Result A) (s : S)
      → ((a : A) (s : S) → f a s ≡ g a s)
      → continue f (r, s) ≡ continue g (r, s)
  continue_ext f g (ok a) s h = h a s
  continue_ext f g (err e) s h = refl

  pub bind_ext :
      (m : Exec S A) (f g : A → Exec S B) (s : S)
      → ((a : A) (s : S) → f a s ≡ g a s)
      → (m >>= f) s ≡ (m >>= g) s
  bind_ext m f g s h = continue_ext f g (m s).0 (m s).1 h

-- What holds of every value that a call returns.
abbrev pub Yields {ℓ κ μ} : {S : Type ℓ} {A : Type κ} → (A → Type μ) → Exec S A → Type (ℓ ⊔ κ ⊔ μ)
Yields {S = S} {A = A} P m = (s : S) (a : A) → (m s).0 ≡ ok a → P a

module _ {ℓ κ μ ν} {S : Type ℓ} {A : Type κ} {B : Type μ} (P : A → Type ν) where
  continue-Yields :
      (f : B → Exec S A) (r : Result B) (s : S) (a : A)
      → ((b : B) → r ≡ ok b → Yields P (f b))
      → (continue f (r, s)).0 ≡ ok a
      → P a
  continue-Yields f (ok b) s a h = h b refl s a
  continue-Yields f (err e) s a h = λ wrong. ground arith

  pub bind-Yields :
      (m : Exec S B) (f : B → Exec S A) → ((b : B) → Yields P (f b)) → Yields P (m >>= f)
  bind-Yields m f h s a = continue-Yields f (m s).0 (m s).1 a (λ b _. h b)

  -- The same, when what the first call returns is known.
  pub bind-Yields_of {ρ} :
      (Q : B → Type ρ) (m : Exec S B) (f : B → Exec S A)
      → Yields Q m
      → ((b : B) → Q b → Yields P (f b))
      → Yields P (m >>= f)
  bind-Yields_of Q m f y h s a = continue-Yields f (m s).0 (m s).1 a (λ b e. h b (y s b e))

module _ {ℓ κ ν} {S : Type ℓ} {A : Type κ} (P : A → Type ν) where
  pub pure-Yields : (x : A) → P x → Yields P (pure {S = S} x)
  pure-Yields x p s a e = let same : x ≡ a = cc in rw⁻¹ same p

  wrapped-Yields :
      (msg : Bytes) (r : Result A) (s : S) (a : A)
      → (r ≡ ok a → P a)
      → (wrapping msg (r, s)).0 ≡ ok a
      → P a
  wrapped-Yields msg (ok b) s a h = λ e. h e
  wrapped-Yields msg (err e) s a h = λ wrong. ground arith

  pub wrapping-Yields :
      (msg : Bytes) (m : Exec S A) → Yields P m → Yields P (λ s. wrapping msg (m s))
  wrapping-Yields msg m y s a = wrapped-Yields msg (m s).0 (m s).1 a (y s a)

module _ {ℓ κ μ ν} {S : Type ℓ} {A : Type κ} {B : Type μ} {C : Type ν} where
  is_ok-continue :
      (f : A → Exec S B) (g : A → Exec S C) (r : Result A) (s : S)
      → ((a : A) → r ≡ ok a → is_ok (f a s).0 ≡ is_ok (g a s).0)
      → is_ok (continue f (r, s)).0 ≡ is_ok (continue g (r, s)).0
  is_ok-continue f g (ok a) s h = h a refl
  is_ok-continue f g (err e) s h = refl

  -- Two calls that go on from the same one, and succeed together.
  pub is_ok-bind :
      (m : Exec S A) (f : A → Exec S B) (g : A → Exec S C) (s : S)
      → ((a : A) → (m s).0 ≡ ok a → is_ok (f a (m s).1).0 ≡ is_ok (g a (m s).1).0)
      → is_ok ((m >>= f) s).0 ≡ is_ok ((m >>= g) s).0
  is_ok-bind m f g s h = is_ok-continue f g (m s).0 (m s).1 h
