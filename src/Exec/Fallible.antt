-- ===== src/Exec/Fallible.antt =====
-- Functions that read no state and may throw.
use mosaic_core.Base.{List, [], ◌∷◌, ◌≡◌, subst}
use mosaic_core.Exec.{Outcome, ok, throws, fault}

infixl 10 ◌>>=◌
abbrev pub ◌>>=◌ {ℓ κ} : {A : Type ℓ} {B : Type κ} → Outcome A → (A → Outcome B) → Outcome B
ok a >>= f = f a
throws e >>= f = throws e
fault >>= f = fault

-- A loop that pushes what each element gives.
unfoldable pub traverse {ℓ κ} :
    {A : Type ℓ} {B : Type κ} → (A → Outcome B) → List A → Outcome (List B)
traverse f [] = ok []
traverse f (a ∷ rest) = f a >>= λ b. traverse f rest >>= λ bs. ok (b ∷ bs)

-- What holds of the result, if there is one.
module _ {ℓ κ} {A : Type ℓ} where
  abbrev pub Holds : (A → Type κ) → Outcome A → Type κ
  Holds P (ok a) = P a
  Holds P (throws e) = Unit
  Holds P fault = Unit

  pub Holds-ok : (P : A → Type κ) (o : Outcome A) (a : A) → o ≡ ok a → Holds P o → P a
  Holds-ok P o a e h = subst (Holds P) e h

  pub Holds-any : (o : Outcome A) → Holds (λ a. Unit) o
  Holds-any (ok a) = tt
  Holds-any (throws e) = tt
  Holds-any fault = tt

module _ {ℓ} {A B : Type ℓ} where
  pub Holds-bind :
      (P : A → Type ℓ) (Q : B → Type ℓ) (o : Outcome A) (f : A → Outcome B)
      → Holds P o
      → ((a : A) → P a → Holds Q (f a))
      → Holds Q (o >>= f)
  Holds-bind P Q (ok a) f h k = k a h
  Holds-bind P Q (throws e) f h k = tt
  Holds-bind P Q fault f h k = tt
