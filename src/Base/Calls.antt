-- ===== src/Base/Calls.antt =====
-- Methods that mutate an object and may raise: what was written before a raise stays written, so
-- the state comes back beside the exception too.
use mathlib.Core.Path.{◌≡◌, refl}
use mathlib.Core.Bool.{Bool}
use mathlib.Core.Option.{Option, none, some}
use multi_cloud_ai_orchestra.Base.Tests.{if◌then◌else◌}

pub data Result (E A : Type 0) : Type 0 where
  ok : A → Result E A
  raised : E → Result E A

abbrev pub Method : Type 0 → Type 0 → Type 0 → Type 0
Method E S A = S → Result E A × S

module _ {E S A : Type 0} where
  abbrev pub pure : A → Method E S A
  pure a s = (ok a, s)

  abbrev pub raise : E → Method E S A
  raise e s = (raised e, s)

  abbrev pub gets : (S → A) → Method E S A
  gets f s = (ok (f s), s)

  abbrev pub or_raise : Option A → E → Method E S A
  or_raise none e = raise e
  or_raise (some a) e = pure a

  -- `try: body` / `finally: cleanup`, for a cleanup that cannot raise.
  abbrev pub try_finally : Method E S A → (S → S) → Method E S A
  try_finally body cleanup s = let (r, s') = body s in (r, cleanup s')

module _ {E S : Type 0} where
  abbrev pub modify : (S → S) → Method E S (Unit {0})
  modify f s = (ok tt, f s)

  abbrev pub skip : Method E S (Unit {0})
  skip s = (ok tt, s)

  abbrev pub raise_if : Bool → E → Method E S (Unit {0})
  raise_if c e s = (if c then raised e else ok tt, s)

module _ {E S A B : Type 0} where
  abbrev pub and_then : Result E A → (A → Method E S B) → Method E S B
  and_then (ok a) f s = f a s
  and_then (raised e) f s = (raised e, s)

  infixl 5 ◌>>=◌ ◌>>◌
  abbrev pub ◌>>=◌ : Method E S A → (A → Method E S B) → Method E S B
  ◌>>=◌ m f s = let (r, s') = m s in and_then r f s'

  abbrev pub ◌>>◌ : Method E S A → Method E S B → Method E S B
  m >> k = m >>= λ _. k

module _ {E S A B : Type 0} where
  -- A call that goes well, and then a value.
  pub then-pure :
      (m : Method E S A) (a : A) (b : B) (s : S)
      → (m s).0 ≡ ok a
      → (m >> pure b) s ≡ (ok b, (m s).1)
  then-pure m a b s h = rw h refl
