-- ===== src/Exec.antt =====
-- Methods that change an object and may raise. What was written before a raise stays written, so
-- the object comes back beside the exception too.
pub mod Steps
use moodle_autotask.Base.{Bool, if◌then◌else◌, Result, ok, err}

abbrev pub Exec : Type 0 → Type 0 → Type 0 → Type 0
Exec S E A = S → Result E A × S

module _ {S E A : Type 0} where
  unfoldable pub pure : A → Exec S E A
  pure a s = (ok a, s)

  unfoldable pub raise : E → Exec S E A
  raise e s = (err e, s)

  unfoldable pub gets : (S → A) → Exec S E A
  gets f s = (ok (f s), s)

  unfoldable pub lift : Result E A → Exec S E A
  lift r s = (r, s)

module _ {S E : Type 0} where
  unfoldable pub modify : (S → S) → Exec S E Unit
  modify f s = (ok tt, f s)

  -- `if test: raise e`
  unfoldable pub raise_if : Bool → E → Exec S E Unit
  raise_if test e s = (if test then err e else ok tt, s)

module _ {S E A B : Type 0} where
  abbrev pub continue : Result E A → (A → Exec S E B) → Exec S E B
  continue (ok a) f s = f a s
  continue (err e) f s = (err e, s)

  infixl 5 ◌>>=◌ ◌>>◌
  -- To open this is to open the actions above too.
  unfoldable pub ◌>>=◌ : Exec S E A → (A → Exec S E B) → Exec S E B
  unfolding pure raise gets lift modify raise_if
  ◌>>=◌ m f s = let (r, s') = m s in continue r f s'

  abbrev pub ◌>>◌ : Exec S E A → Exec S E B → Exec S E B
  m >> k = m >>= λ _. k

module _ {S E A : Type 0} where
  abbrev pub handle : Result E A → (E → Exec S E A) → Exec S E A
  handle (ok a) h s = (ok a, s)
  handle (err e) h s = h e s

  -- `try: m` with the handler `h` of every exception; a handler raises again what it does not catch
  unfoldable pub catch : Exec S E A → (E → Exec S E A) → Exec S E A
  catch m h s = let (r, s') = m s in handle r h s'
