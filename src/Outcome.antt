-- ===== src/Outcome.antt =====
-- `std::result::Result`, and actions: functions of a state that may fail and return the state that
-- they leave, also when they fail.

use sockd.Common.{◌≡◌, refl, ◌∙◌, ◌⊎◌, inl, inr}

pub data Result {ℓ κ} (A : Type ℓ) (E : Type κ) : Type (ℓ ⊔ κ) where
  ok : A → Result A E
  err : E → Result A E

-- `Result::map_err`
abbrev pub map_err {ℓ κ μ} :
    {A : Type ℓ} {E : Type κ} {F : Type μ} → (E → F) → Result A E → Result A F
map_err f (ok a) = ok a
map_err f (err e) = err (f e)

-- `?` on a value that no state hangs on.
abbrev pub and_then {ℓ κ μ} :
    {A : Type ℓ} {B : Type κ} {E : Type μ} → Result A E → (A → Result B E) → Result B E
and_then (ok a) f = f a
and_then (err e) f = err e

pub Result-cases {ℓ κ} :
    {A : Type ℓ} {E : Type κ} (r : Result A E) → ((a : A) × (r ≡ ok a)) ⊎ ((e : E) × (r ≡ err e))
Result-cases (ok a) = inl (a, refl)
Result-cases (err e) = inr (e, refl)

abbrev pub Exec {ℓ} : Type ℓ → Type ℓ → Type ℓ → Type ℓ
Exec W E A = W → Result A E × W

module _ {ℓ} {W E A : Type ℓ} where
  abbrev pub pure : A → Exec W E A
  pure a w = (ok a, w)

  abbrev pub raise : E → Exec W E A
  raise e w = (err e, w)

  abbrev pub lift : Result A E → Exec W E A
  lift r w = (r, w)

  abbrev pub gets : (W → A) → Exec W E A
  gets f w = (ok (f w), w)

-- An action that cannot fail, and one whose failure is looked at.
abbrev pub effect {ℓ} : {W E A : Type ℓ} → (W → A × W) → Exec W E A
effect m w = let (a, w') = m w in (ok a, w')

abbrev pub silently {ℓ} : {W E : Type ℓ} → (W → W) → Exec W E (Unit {ℓ})
silently m w = (ok tt, m w)

abbrev pub attempt {ℓ} : {W E F A : Type ℓ} → Exec W E A → Exec W F (Result A E)
attempt m w = let (r, w') = m w in (ok r, w')

-- `.map_err(f)?` on an action
abbrev pub mapping_err {ℓ} : {W E F A : Type ℓ} → (E → F) → Exec W E A → Exec W F A
mapping_err f m w = let (r, w') = m w in (map_err f r, w')

module _ {ℓ} {W E A B : Type ℓ} where
  abbrev continue : Result A E → (A → Exec W E B) → Exec W E B
  continue (ok a) f w = f a w
  continue (err e) f w = (err e, w)

  infixl 10 ◌>>=◌ ◌>>◌
  abbrev pub ◌>>=◌ : Exec W E A → (A → Exec W E B) → Exec W E B
  ◌>>=◌ m f w = let (r, w') = m w in continue r f w'

  abbrev pub ◌>>◌ : Exec W E A → Exec W E B → Exec W E B
  m >> k = m >>= λ _. k

module _ {ℓ} {W E A B C : Type ℓ} (f : W → C) (k : A → Exec W E B) where
  continue-keeps :
      (r : Result A E) (w : W) → ((a : A) (v : W) → f (k a v).1 ≡ f v) → f (continue r k w).1 ≡ f w
  continue-keeps (ok a) w rest = rest a w
  continue-keeps (err e) w rest = refl

  -- What both actions keep, their sequence keeps.
  pub bind-keeps :
      (m : Exec W E A)
      → ((v : W) → f (m v).1 ≡ f v)
      → ((a : A) (v : W) → f (k a v).1 ≡ f v)
      → (w : W) → f ((m >>= k) w).1 ≡ f w
  bind-keeps m head rest w = continue-keeps (m w).0 (m w).1 rest ∙ head w

-- What every continuation ends with, and every error, the sequence ends with.
module _ {ℓ} {W E A B : Type ℓ} (Q : Result B E → Type ℓ) (fails : (e : E) → Q (err e))
    (k : A → Exec W E B) where
  continue-ends : (r : Result A E) (w : W) → ((a : A) (v : W) → Q (k a v).0) → Q (continue r k w).0
  continue-ends (ok a) w rest = rest a w
  continue-ends (err e) w rest = fails e

  pub bind-ends : (m : Exec W E A) → ((a : A) (v : W) → Q (k a v).0) → (w : W) → Q ((m >>= k) w).0
  bind-ends m rest w = continue-ends (m w).0 (m w).1 rest

-- What ends an action that loops: an error of the program, or the model's fuel.
pub data Halt {ℓ} (E : Type ℓ) : Type ℓ where
  raised : E → Halt E
  unfinished : Halt E
