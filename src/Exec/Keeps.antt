-- ===== src/Exec/Keeps.antt =====
-- Invariants of actions, one rule for each way to build an action: `Keeps P m` says that `m` keeps
-- `P` on every outcome, a throw and a fault included.
use mosaic_core.Base.{◌≡◌, refl, String, Bool, true, false, if◌then◌else◌}
use mosaic_core.Exec.{
  Outcome, ok, throws, fault, Exec, pure, throw, crash, lift, gets, modify, when, catch, deref,
  continue, handle, ◌>>=◌,
}

pub record Keeps {ℓ} {S A : Type ℓ} (Holds : S → Type ℓ) (action : Exec S A) : Type ℓ where
  pub at : (before : S) → Holds before → Holds (action before).1

module _ {ℓ} {S : Type ℓ} {P : S → Type ℓ} where
  pub Keeps-modify : (f : S → S) → ((s : S) → P s → P (f s)) → Keeps P (modify f)
  unfolding modify
  Keeps-modify f k = record { at = k }

module _ {ℓ} {S A : Type ℓ} {P : S → Type ℓ} where
  pub Keeps-crash : Keeps P (crash {A = A})
  unfolding crash
  Keeps-crash = record { at = λ s p. p }

  pub Keeps-throw : (message : String) → Keeps P (throw {A = A} message)
  unfolding throw
  Keeps-throw message = record { at = λ s p. p }

  pub Keeps-lift : (o : Outcome A) → Keeps P (lift o)
  Keeps-lift o = record { at = λ s p. p }

  pub Keeps-gets : (read : S → A) → Keeps P (gets read)
  unfolding gets
  Keeps-gets read = record { at = λ s p. p }

  pub Keeps-pure : (result : A) → Keeps P (pure result)
  unfolding pure
  Keeps-pure result = record { at = λ s p. p }

  pub Keeps-deref : (has : Bool) (m : Exec S A) → Keeps P m → Keeps P (deref has m)
  unfolding deref
  Keeps-deref true m k = k
  Keeps-deref false m k = Keeps-crash

  pub Keeps-if : (b : Bool) (m n : Exec S A) → Keeps P m → Keeps P n → Keeps P (if b then m else n)
  Keeps-if true m n km kn = km
  Keeps-if false m n km kn = kn

  Keeps-handle :
      (o : Outcome A) (h : String → Exec S A)
      → ((e : String) → Keeps P (h e))
      → Keeps P (handle o h)
  Keeps-handle (ok a) h k = record { at = λ s p. p }
  Keeps-handle (throws e) h k = record { at = (k e).at }
  Keeps-handle fault h k = record { at = λ s p. p }

  pub Keeps-catch :
      (m : Exec S A) (h : String → Exec S A)
      → Keeps P m
      → ((e : String) → Keeps P (h e))
      → Keeps P (catch m h)
  unfolding catch
  Keeps-catch m h km kh = record {
    at = λ s p. let (o, s') = m s in (Keeps-handle o h kh).at s' (km.at s p);
  }

module _ {ℓ} {S : Type ℓ} {P : S → Type ℓ} where
  pub Keeps-when : (b : Bool) (m : Exec S Unit) → Keeps P m → Keeps P (when b m)
  unfolding when
  Keeps-when true m k = k
  Keeps-when false m k = Keeps-pure tt

module _ {ℓ} {S A B : Type ℓ} {P : S → Type ℓ} where
  Keeps-continue :
      (o : Outcome A) (f : A → Exec S B) → ((a : A) → Keeps P (f a)) → Keeps P (continue o f)
  Keeps-continue (ok a) f k = record { at = (k a).at }
  Keeps-continue (throws e) f k = record { at = λ s p. p }
  Keeps-continue fault f k = record { at = λ s p. p }

  pub Keeps-bind :
      (first : Exec S A) (rest : A → Exec S B)
      → Keeps P first
      → ((a : A) → Keeps P (rest a))
      → Keeps P (first >>= rest)
  unfolding ◌>>=◌
  Keeps-bind first rest one others = record {
    at = λ s p. let (o, after) = first s in (Keeps-continue o rest others).at after (one.at s p);
  }

-- With what was read: the rest of an action that reads an outcome or tests a value knows it.
module _ {ℓ} {S A B : Type ℓ} {P : S → Type ℓ} where
  pub Keeps-read :
      (o : Outcome A) (f : A → Exec S B)
      → ((a : A) → o ≡ ok a → Keeps P (f a))
      → Keeps P (lift o >>= f)
  unfolding ◌>>=◌
  Keeps-read (ok a) f k = record { at = (k a refl).at }
  Keeps-read (throws e) f k = record { at = λ s p. p }
  Keeps-read fault f k = record { at = λ s p. p }

module _ {ℓ} {S : Type ℓ} {P : S → Type ℓ} where
  pub Keeps-guarded : (b : Bool) (m : Exec S Unit) → (b ≡ true → Keeps P m) → Keeps P (when b m)
  unfolding when
  Keeps-guarded true m k = k refl
  Keeps-guarded false m k = Keeps-pure tt

pub ruleset keeps_rules = (
  Keeps-pure, Keeps-throw, Keeps-crash, Keeps-gets, Keeps-lift, Keeps-deref, Keeps-catch,
  Keeps-modify, Keeps-when, Keeps-if, Keeps-bind,
)
