-- ===== src/Exec/Safe.antt =====
-- Actions that never end in a `fault` where an invariant holds, and keep the invariant: one rule for each
-- way to build an action.
use mosaic_core.Base.{String, Bool, true, false, ◌≡◌, ◌≢◌, refl, if◌then◌else◌, arith}
use mosaic_core.Exec.{
  Outcome, ok, throws, fault, Exec, pure, throw, lift, gets, modify, when, catch, continue, handle,
  ◌>>=◌,
}

pub record Safe {S A : Type 0} (Holds : S → Type 0) (action : Exec S A) : Type 0 where
  pub at : (before : S) → Holds before → Holds (action before).1
  pub fine : (before : S) → Holds before → (action before).0 ≢ fault

module _ {S : Type 0} {P : S → Type 0} where
  pub Safe-modify : (f : S → S) → ((s : S) → P s → P (f s)) → Safe P (modify f)
  unfolding modify
  Safe-modify f k = record { at = k; fine = λ s p. ground arith }

module _ {S A : Type 0} {P : S → Type 0} where
  pub Safe-throw : (message : String) → Safe P (throw {A = A} message)
  unfolding throw
  Safe-throw message = record { at = λ s p. p; fine = λ s p. ground arith }

  pub Safe-lift : (o : Outcome A) → o ≢ fault → Safe P (lift o)
  Safe-lift o k = record { at = λ s p. p; fine = λ s p. k }

  pub Safe-gets : (read : S → A) → Safe P (gets read)
  unfolding gets
  Safe-gets read = record { at = λ s p. p; fine = λ s p. ground arith }

  pub Safe-pure : (result : A) → Safe P (pure result)
  unfolding pure
  Safe-pure result = record { at = λ s p. p; fine = λ s p. ground arith }

  pub Safe-if : (b : Bool) (m n : Exec S A) → Safe P m → Safe P n → Safe P (if b then m else n)
  Safe-if true m n km kn = km
  Safe-if false m n km kn = kn

  Safe-handle :
      (o : Outcome A) (h : String → Exec S A)
      → o ≢ fault
      → ((e : String) → Safe P (h e))
      → Safe P (handle o h)
  Safe-handle (ok a) h f k = record { at = λ s p. p; fine = λ s p. ground arith }
  Safe-handle (throws e) h f k = record { at = (k e).at; fine = (k e).fine }
  Safe-handle fault h f k = absurd (f refl)

  pub Safe-catch :
      (m : Exec S A) (h : String → Exec S A)
      → Safe P m
      → ((e : String) → Safe P (h e))
      → Safe P (catch m h)
  unfolding catch
  Safe-catch m h km kh = record {
    at = λ s p. (Safe-handle (m s).0 h (km.fine s p) kh).at (m s).1 (km.at s p);
    fine = λ s p. (Safe-handle (m s).0 h (km.fine s p) kh).fine (m s).1 (km.at s p);
  }

module _ {S : Type 0} {P : S → Type 0} where
  pub Safe-when : (b : Bool) (m : Exec S Unit) → Safe P m → Safe P (when b m)
  unfolding when
  Safe-when true m k = k
  Safe-when false m k = Safe-pure tt

module _ {S A B : Type 0} {P : S → Type 0} where
  Safe-continue :
      (o : Outcome A) (f : A → Exec S B)
      → o ≢ fault
      → ((a : A) → Safe P (f a))
      → Safe P (continue o f)
  Safe-continue (ok a) f h k = record { at = (k a).at; fine = (k a).fine }
  Safe-continue (throws e) f h k = record { at = λ s p. p; fine = λ s p. ground arith }
  Safe-continue fault f h k = absurd (h refl)

  pub Safe-bind :
      (first : Exec S A) (rest : A → Exec S B)
      → Safe P first
      → ((a : A) → Safe P (rest a))
      → Safe P (first >>= rest)
  unfolding ◌>>=◌
  Safe-bind first rest one others = record {
    at = λ s p. (Safe-continue (first s).0 rest (one.fine s p) others).at (first s).1 (one.at s p);
    fine =
        λ s p. (Safe-continue (first s).0 rest (one.fine s p) others).fine (first s).1 (one.at s p);
  }

module _ {S B : Type 0} {P : S → Type 0} where
  -- A pointer that the invariant knows not to be null.
  pub Safe-flag :
      (flag : S → Bool) (rest : Bool → Exec S B)
      → ((s : S) → P s → flag s ≡ true)
      → Safe P (rest true)
      → Safe P (gets flag >>= rest)
  unfolding ◌>>=◌ gets
  Safe-flag flag rest known k = record {
    at = λ s p. rw (known s p) (k.at s p);
    fine = λ s p. rw (known s p) (k.fine s p);
  }

pub ruleset sound_rules =
    (Safe-pure, Safe-throw, Safe-gets, Safe-catch, Safe-when, Safe-if, Safe-bind)

pub ruleset safe_rules = (Safe-lift, sound_rules)
