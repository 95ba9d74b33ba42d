-- ===== src/Exec.antt =====
-- Functions that return `(T, error)` and act on the world: the databases, the clock, the random
-- source, the broker and the connection. What was done before an error stays done, so the world
-- comes back beside an error too. The value that Go returns beside a non-nil error is dropped: no
-- caller in the program reads one.
pub mod Kept
use paste_thek4n_ru.Prelude.{String, ◌≡◌, refl, ap, ◌∙◌, Bool, true, false, ◌⊎◌, inl, inr}
use paste_thek4n_ru.Errors.{GoError, wrapped}

pub data Result {ℓ} (A : Type ℓ) : Type ℓ where
  ok : A → Result A
  err : GoError → Result A

abbrev pub Exec {ℓ κ} : Type ℓ → Type κ → Type (ℓ ⊔ κ)
Exec W A = W → Result A × W

-- A part of the program that cannot fail.
abbrev pub Act {ℓ κ} : Type ℓ → Type κ → Type (ℓ ⊔ κ)
Act W A = W → A × W

module _ {ℓ κ} {W : Type ℓ} {A : Type κ} where
  abbrev pub pure : A → Exec W A
  pure a w = (ok a, w)

  abbrev pub raise : GoError → Exec W A
  raise e w = (err e, w)

  abbrev pub lift : Result A → Exec W A
  lift r w = (r, w)

  abbrev pub perform : Act W A → Exec W A
  perform m w = let (a, w') = m w in (ok a, w')

  abbrev pub rewrap : String → Result A × W → Result A × W
  rewrap m (ok a, w) = (ok a, w)
  rewrap m (err e, w) = (err (wrapped m e), w)

  -- `if err != nil { return …, fmt.Errorf("m: %w", err) }`
  abbrev pub wrap : String → Exec W A → Exec W A
  wrap m x w = rewrap m (x w)

-- `if test { return …, e }`
abbrev pub fail_if {ℓ} : {W : Type ℓ} → Bool → GoError → Exec W (Unit {0})
fail_if true e w = (err e, w)
fail_if false e w = (ok tt, w)

module _ {ℓ κ μ} {W : Type ℓ} {A : Type κ} {B : Type μ} where
  infixl 5 ◌>>=◌ ◌>>◌
  abbrev pub continue : Result A × W → (A → Exec W B) → Result B × W
  continue (ok a, w) f = f a w
  continue (err e, w) f = (err e, w)

  abbrev pub ◌>>=◌ : Exec W A → (A → Exec W B) → Exec W B
  ◌>>=◌ m f w = continue (m w) f

  abbrev pub ◌>>◌ : Exec W A → Exec W B → Exec W B
  ◌>>◌ m n w = continue (m w) (λ _. n)

-- What follows a run, by its outcome.
abbrev pub outcome {ℓ κ μ} :
    {W : Type ℓ} {A : Type κ} {B : Type μ} → Result A × W → (A → W → B) → (GoError → W → B) → B
outcome (ok a, w) f g = f a w
outcome (err e, w) f g = g e w

pub Result-cases {ℓ} :
    {A : Type ℓ} (r : Result A) → ((a : A) × (r ≡ ok a)) ⊎ ((e : GoError) × (r ≡ err e))
Result-cases (ok a) = inl (a, refl)
Result-cases (err e) = inr (e, refl)

-- Either outcome of a run, with the world that it leaves.
pub run-cases {ℓ κ} :
    {W : Type ℓ} {A : Type κ} (r : Result A × W)
    → ((a : A) × (w : W) × (r ≡ (ok a, w))) ⊎ ((e : GoError) × (w : W) × (r ≡ (err e, w)))
run-cases (ok a, w) = inl (a, w, refl)
run-cases (err e, w) = inr (e, w, refl)

-- Inversion of a successful run, for proofs where the parts stay shut.
module _ {ℓ κ μ} {W : Type ℓ} {A : Type κ} {B : Type μ} where
  pub >>=-eq-ok :
      (m : Exec W A) (f : A → Exec W B) {w w' : W} {b : B}
      → (m >>= f) w ≡ (ok b, w')
      → (a : A) × (v : W) × (m w ≡ (ok a, v)) × (f a v ≡ (ok b, w'))
  >>=-eq-ok m f {w} h = elim (run-cases (m w)) [
    | inl (a, v, e) ↦ (a, v, e, rw e at h)
    | inr (e', v, e) ↦ (let clash = rw e at h in absurd (cc clash))
  ]

module _ {ℓ κ} {W : Type ℓ} {A : Type κ} where
  pub wrap-eq-ok :
      (s : String) (m : Exec W A) {w w' : W} {a : A} → wrap s m w ≡ (ok a, w') → m w ≡ (ok a, w')
  wrap-eq-ok s m {w} h = elim (run-cases (m w)) [
    | inl (a', v, e) ↦ e ∙ (rw e at h)
    | inr (e', v, e) ↦ (let clash = rw e at h in absurd (cc clash))
  ]

pub fail_if-eq-ok {ℓ} :
    {W : Type ℓ} (b : Bool) (e : GoError) {w w' : W}
    → fail_if b e w ≡ (ok tt, w')
    → (b ≡ false) × (w ≡ w')
fail_if-eq-ok true e h = absurd (cc h)
fail_if-eq-ok false e h = (refl, ap (λ x. x.1) h)
