-- ===== src/Exec.antt =====
-- Methods that change an object and may throw. What was written before a throw stays written, so
-- the state comes back on every outcome. `fault` is a call through a null pointer, or what ends the
-- process: no `catch` sees it.

pub mod Keeps
pub mod Fallible
pub mod Safe
pub mod Stoi
use mathlib.Core.Bool.{Bool, true, false}
use Prim.Native.String.{String}

pub data Outcome {ℓ} (A : Type ℓ) : Type ℓ where
  ok : A → Outcome A
  throws : String → Outcome A
  fault : Outcome A

abbrev pub Exec {ℓ} : Type ℓ → Type ℓ → Type ℓ
Exec S A = S → Outcome A × S

module _ {ℓ} {S A : Type ℓ} where
  unfoldable pub pure : A → Exec S A
  pure a s = (ok a, s)

  unfoldable pub throw : String → Exec S A
  throw e s = (throws e, s)

  unfoldable pub crash : Exec S A
  crash s = (fault, s)

  abbrev pub lift : Outcome A → Exec S A
  lift o s = (o, s)

  unfoldable pub gets : (S → A) → Exec S A
  gets f s = (ok (f s), s)

-- A write.
unfoldable pub modify {ℓ} : {S : Type ℓ} → (S → S) → Exec S Unit
modify f s = (ok tt, f s)

-- `if (b) m;`
unfoldable pub when {ℓ} : {S : Type ℓ} → Bool → Exec S Unit → Exec S Unit
unfolding pure
when true m = m
when false m = pure tt

module _ {ℓ} {S A : Type ℓ} where
  abbrev pub handle : Outcome A → (String → Exec S A) → Exec S A
  handle (ok a) h s = (ok a, s)
  handle (throws e) h s = h e s
  handle fault h s = (fault, s)

  -- `try { m } catch (const std::exception& e) { h e }`
  unfoldable pub catch : Exec S A → (String → Exec S A) → Exec S A
  catch m h s = let (o, s') = m s in handle o h s'

  -- A call through a pointer: `has` says that it is not null.
  unfoldable pub deref : Bool → Exec S A → Exec S A
  unfolding crash
  deref true m = m
  deref false m = crash

module _ {ℓ} {S A B : Type ℓ} where
  abbrev pub continue : Outcome A → (A → Exec S B) → Exec S B
  continue (ok a) f s = f a s
  continue (throws e) f s = (throws e, s)
  continue fault f s = (fault, s)

  infixl 10 ◌>>=◌ ◌>>◌
  -- Opening this opens the actions above too.
  unfoldable pub ◌>>=◌ : Exec S A → (A → Exec S B) → Exec S B
  unfolding pure throw crash gets modify when catch deref
  ◌>>=◌ m f s = let (o, s') = m s in continue o f s'

  abbrev pub ◌>>◌ : Exec S A → Exec S B → Exec S B
  m >> n = m >>= λ _. n
