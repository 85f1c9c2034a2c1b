-- ===== src/Base/Effects.antt =====
-- Effects: code that reads and writes a state and may throw. What was written before a throw stays
-- written, so the state comes back beside the error too.
use mathlib.Core.Path.{◌≡◌, refl, ap}
use mathlib.Core.Logic.{◌⊎◌, inl, inr}
use mathlib.Core.Option.{Option, none, some}
use node_jwt_redis_session_a.Errors.{Failure}

-- The result of a promise with no value.
abbrev pub Done : Type 0
Done = Unit

pub data Result (A : Type 0) : Type 0 where
  ok : A → Result A
  err : Failure → Result A

-- Code that may throw and has no other effect.
abbrev pub and_then : {A B : Type 0} → Result A → (A → Result B) → Result B
and_then (ok a) f = f a
and_then (err e) f = err e

-- `try { … } catch { throw e }`
abbrev pub or_throw : {A : Type 0} → Result A → Failure → Result A
or_throw (ok a) e = ok a
or_throw (err _) e = err e

-- A value that may be missing, and the error thrown where it is.
abbrev pub or_else : {A : Type 0} → Option A → Failure → Result A
or_else none e = err e
or_else (some a) e = ok a

pub and_then-ok :
    {A B : Type 0} (r : Result A) (f : A → Result B) {b : B}
    → and_then r f ≡ ok b
    → (a : A) × (r ≡ ok a) × (f a ≡ ok b)
and_then-ok (ok a) f h = (a, refl, h)
and_then-ok (err e) f h = cc

pub or_else-ok : {A : Type 0} (o : Option A) (e : Failure) {a : A} → or_else o e ≡ ok a → o ≡ some a
or_else-ok none e h = cc
or_else-ok (some a) e h = cc

pub Result-cases :
    {A : Type 0} (r : Result A) → ((a : A) × (r ≡ ok a)) ⊎ ((e : Failure) × (r ≡ err e))
Result-cases (ok a) = inl (a, refl)
Result-cases (err e) = inr (e, refl)

abbrev pub Exec : Type 0 → Type 0 → Type 0
Exec S A = S → Result A × S

module _ {S A : Type 0} where
  abbrev pub pure : A → Exec S A
  pure a s = (ok a, s)

  abbrev pub throw : Failure → Exec S A
  throw e s = (err e, s)

  abbrev pub lift : Result A → Exec S A
  lift r s = (r, s)

  -- `try { … } catch (error) { … }`
  abbrev settle : Result A → (Failure → Exec S A) → Exec S A
  settle (ok a) handler s = (ok a, s)
  settle (err e) handler s = handler e s

  abbrev pub catch : Exec S A → (Failure → Exec S A) → Exec S A
  catch m handler s = let (r, s') = m s in settle r handler s'

module _ {S A B : Type 0} where
  abbrev then : Result A → (A → Exec S B) → Exec S B
  then (ok a) f s = f a s
  then (err e) f s = (err e, s)

  then-inv :
      (r : Result A) (f : A → Exec S B) (s : S) {b : B}
      → (then r f s).0 ≡ ok b
      → (a : A) × (r ≡ ok a) × (then r f s ≡ f a s)
  then-inv (ok a) f s h = (a, refl, refl)
  then-inv (err e) f s h = absurd (cc)

  infixl 10 ◌>>=◌ ◌>>◌
  abbrev pub ◌>>=◌ : Exec S A → (A → Exec S B) → Exec S B
  ◌>>=◌ m f s = let (r, s') = m s in then r f s'

  abbrev pub ◌>>◌ : Exec S A → Exec S B → Exec S B
  m >> n = m >>= λ _. n

  -- The steps of a block, one at a time.
  pub bind-ok :
      (m : Exec S A) (f : A → Exec S B) (s : S) {a : A} {s' : S}
      → m s ≡ (ok a, s')
      → (m >>= f) s ≡ f a s'
  bind-ok m f s e = ap (λ x. then x.0 f x.1) e

  pub bind-err :
      (m : Exec S A) (f : A → Exec S B) (s : S) {e : Failure} {s' : S}
      → m s ≡ (err e, s')
      → (m >>= f) s ≡ (err e, s')
  bind-err m f s h = ap (λ x. then x.0 f x.1) h

  -- A block that returned: its first step did, and the rest went on from there.
  pub bind-inv :
      (m : Exec S A) (f : A → Exec S B) (s : S) {b : B}
      → ((m >>= f) s).0 ≡ ok b
      → (a : A) × ((m s).0 ≡ ok a) × ((m >>= f) s ≡ f a (m s).1)
  bind-inv m f s h = then-inv (m s).0 f (m s).1 h

  then-lift-state : (r : Result A) (f : A → Result B) (s : S) → (then r (λ a. lift (f a)) s).1 ≡ s
  then-lift-state (ok a) f s = refl
  then-lift-state (err e) f s = refl

  -- A step with no effect of its own.
  pub bind-lift-state :
      (m : Exec S A) (f : A → Result B) (s : S) → ((m >>= λ a. lift (f a)) s).1 ≡ (m s).1
  bind-lift-state m f s = then-lift-state (m s).0 f (m s).1

then-throw :
    {S A B : Type 0} (r : Result A) (e : Failure) (s : S) {b : B}
    → (then r (λ _. throw e) s).0 ≡ ok b
    → ⊥
then-throw (ok a) e s h = cc
then-throw (err e') e s h = cc

-- A block that ends with a throw returns nothing.
pub bind-throw :
    {S A B : Type 0} (m : Exec S A) (e : Failure) (s : S) {b : B}
    → ((m >>= λ _. throw e) s).0 ≡ ok b
    → ⊥
bind-throw m e s h = then-throw (m s).0 e (m s).1 h
