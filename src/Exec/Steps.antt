-- ===== src/Exec/Steps.antt =====
-- What every run of an action does to the object, whether it returns or raises: a relation
-- between the object before and after, with one rule for each way to build an action.
use moodle_autotask.Base.{Bool, true, false, if◌then◌else◌, Result, ok, err}
use moodle_autotask.Exec.{
  Exec, pure, raise, gets, lift, modify, raise_if, continue, ◌>>=◌, catch, handle,
}

pub record IsPreorder {S : Type 0} (R : S → S → Type 0) : Type 0 where
  pub stays : (s : S) → R s s
  pub goes_on : (s t u : S) → R s t → R t u → R s u

pub record Steps {S E A : Type 0} (R : S → S → Type 0) (m : Exec S E A) : Type 0 where
  pub at : (s : S) → R s (m s).1

module _ {S E A : Type 0} {R : S → S → Type 0} where
  pub Steps-pure : (a : A) → IsPreorder R → Steps {E = E} R (pure a)
  unfolding pure
  Steps-pure a p = record { at = p.stays }

  pub Steps-raise : (e : E) → IsPreorder R → Steps {A = A} R (raise e)
  unfolding raise
  Steps-raise e p = record { at = p.stays }

  pub Steps-gets : (f : S → A) → IsPreorder R → Steps {E = E} R (gets f)
  unfolding gets
  Steps-gets f p = record { at = p.stays }

  pub Steps-lift : (r : Result E A) → IsPreorder R → Steps R (lift r)
  unfolding lift
  Steps-lift r p = record { at = p.stays }

  pub Steps-if :
      (b : Bool) (m n : Exec S E A) → Steps R m → Steps R n → Steps R (if b then m else n)
  Steps-if true m n sm sn = sm
  Steps-if false m n sm sn = sn

module _ {S E : Type 0} {R : S → S → Type 0} where
  pub Steps-raise_if : (b : Bool) (e : E) → IsPreorder R → Steps R (raise_if b e)
  unfolding raise_if
  Steps-raise_if b e p = record { at = p.stays }

  pub Steps-modify : (f : S → S) → ((s : S) → R s (f s)) → Steps {E = E} R (modify f)
  unfolding modify
  Steps-modify f h = record { at = h }

module _ {S E A B : Type 0} {R : S → S → Type 0} where
  pub Steps-bind :
      (m : Exec S E A) (f : A → Exec S E B)
      → IsPreorder R
      → Steps R m
      → ((a : A) → Steps R (f a))
      → Steps R (m >>= f)
  unfolding ◌>>=◌
  Steps-bind m f p sm sf = record { at = λ s. go (m s) s (sm.at s) }
    where
      go : (rs : Result E A × S) (s : S) → R s rs.1 → R s (let (r, s') = rs in continue r f s').1
      go (ok a, s') s h = p.goes_on s s' _ h ((sf a).at s')
      go (err e, s') s h = h

module _ {S E A : Type 0} {R : S → S → Type 0} where
  pub Steps-catch :
      (m : Exec S E A) (h : E → Exec S E A)
      → IsPreorder R
      → Steps R m
      → ((e : E) → Steps R (h e))
      → Steps R (catch m h)
  unfolding catch
  Steps-catch m h p sm sh = record { at = λ s. go (m s) s (sm.at s) }
    where
      go : (rs : Result E A × S) (s : S) → R s rs.1 → R s (let (r, s') = rs in handle r h s').1
      go (ok a, s') s k = k
      go (err e, s') s k = p.goes_on s s' _ k ((sh e).at s')

pub ruleset steps_rules = (
  Steps-pure, Steps-raise, Steps-gets, Steps-lift, Steps-if, Steps-raise_if, Steps-bind,
  Steps-catch,
)
