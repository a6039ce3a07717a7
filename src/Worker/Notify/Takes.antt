-- ===== src/Worker/Notify/Takes.antt =====
-- adapters/aws/worker.py: from what is known of the calls so far to what is known after an action,
-- which may depend on whether it returns or raises.
use moodle_autotask.Base.{
  ◌≡◌, refl, sym, subst, Bool, true, false, ◌∷◌, if◌then◌else◌, Result, ok, err,
}
use moodle_autotask.Exec.{pure, raise, catch, continue, handle, ◌>>=◌}
use moodle_autotask.Worker.Notify.{Failure, Effect, Log, Action, call, attempt}

-- From a log of the one kind, the action ends in one of the other.
pub record Takes {A : Type 0} (P : Log → Type 0) (m : Action A)
    (Q : Result Failure A → Log → Type 0) : Type 0 where
  pub at : (log : Log) → P log → Q (m log).0 (m log).1

pub Takes-bind :
    {A B : Type 0} (P : Log → Type 0) (Q : Result Failure A → Log → Type 0)
    (R : Result Failure B → Log → Type 0) (m : Action A) (f : A → Action B)
    → Takes P m Q
    → ((a : A) → Takes (Q (ok a)) (f a) R)
    → ((e : Failure) (log : Log) → Q (err e) log → R (err e) log)
    → Takes P (m >>= f) R
unfolding ◌>>=◌
Takes-bind {A = A} P Q R m f h k l = record { at = λ log p. go (m log) (h.at log p) }
  where
    go : (r : Result Failure A × Log) → Q r.0 r.1 → R (continue r.0 f r.1).0 (continue r.0 f r.1).1
    go (ok a, log') q = (k a).at log' q
    go (err e, log') q = l e log' q

pub Takes-attempt :
    {A : Type 0} (P : Log → Type 0) (Q : Result Failure A → Log → Type 0) (m : Action A)
    → Takes P m Q
    → (log : Log) → P log
    → (r : Result Failure A) × ((attempt m log).0 ≡ ok r) × Q r (attempt m log).1
unfolding attempt catch ◌>>=◌ pure
Takes-attempt {A = A} P Q m h log p = go (m log) (h.at log p)
  where
    go :
        (r : Result Failure A × Log)
        → Q r.0 r.1
        → (let s = continue r.0 (λ a. pure (ok a)) r.1 in
            (x : Result Failure A) × ((handle s.0 (λ e. pure (err e)) s.1).0 ≡ ok x)
            × Q x (handle s.0 (λ e. pure (err e)) s.1).1)
    go (ok a, log') q = (ok a, refl, q)
    go (err e, log') q = (err e, refl, q)

-- What follows a `try`, from what it comes to.
pub Takes-try :
    {A B : Type 0} (P : Log → Type 0) (Q : Result Failure A → Log → Type 0)
    (R : Result Failure B → Log → Type 0) (m : Action A) (f : Result Failure A → Action B)
    → Takes P m Q
    → ((r : Result Failure A) → Takes (Q r) (f r) R)
    → Takes P (attempt m >>= f) R
unfolding ◌>>=◌
Takes-try {A = A} P Q R m f h k = record {
  at = λ log p.
      let (r, same, q) = Takes-attempt P Q m h log p in
      subst
        (λ (x : Result Failure (Result Failure A)).
          R (continue x f (attempt m log).1).0 (continue x f (attempt m log).1).1)
        (sym same) ((k r).at (attempt m log).1 q);
}

pub Takes-call :
    {A : Type 0} (P : Log → Type 0) (Q : Result Failure A → Log → Type 0)
    (ask : Log → Result Failure A) (mark : Result Failure A → Effect)
    → ((r : Result Failure A) (log : Log) → P log → Q r (mark r ∷ log))
    → Takes P (call ask mark) Q
unfolding call
Takes-call P Q ask mark h = record { at = λ log p. h (ask log) log p }

pub Takes-if :
    {A : Type 0} (P : Log → Type 0) (Q : Result Failure A → Log → Type 0) (b : Bool)
    (m n : Action A)
    → (b ≡ true → Takes P m Q)
    → (b ≡ false → Takes P n Q)
    → Takes P (if b then m else n) Q
Takes-if P Q true m n h k = h refl
Takes-if P Q false m n h k = k refl

abbrev pub Kept : {A : Type 0} → (Log → Type 0) → Result Failure A → Log → Type 0
Kept P _ log = P log

pub Takes-pure : {A : Type 0} (P : Log → Type 0) (a : A) → Takes P (pure a) (Kept P)
unfolding pure
Takes-pure P a = record { at = λ log p. p }

pub Takes-raise : {A : Type 0} (P : Log → Type 0) (e : Failure) → Takes P (raise {A = A} e) (Kept P)
unfolding raise
Takes-raise P e = record { at = λ log p. p }
