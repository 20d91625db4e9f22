-- ===== src/Base/Relates.antt =====
-- A relation between the states before and after a method, whether it returns or raises: one rule
-- for each way to build a method.
use mathlib.Core.Path.{◌≡◌, refl}
use mathlib.Core.Bool.{Bool, true, false}
use mathlib.Core.Option.{Option, none, some}
use multi_cloud_ai_orchestra.Base.Tests.{if◌then◌else◌}
use multi_cloud_ai_orchestra.Base.Calls.{
  Method, Result, ok, raised, pure, gets, skip, raise_if, or_raise, and_then, ◌>>=◌, ◌>>◌,
}

pub record Relates {E S A : Type 0} (R : S → S → Type 0) (m : Method E S A) : Type 0 where
  pub at : (s : S) → R s (m s).1

-- What the rules need of a relation.
pub record IsPreorder {S : Type 0} (R : S → S → Type 0) : Type 0 where
  pub same : (s : S) → R s s
  pub join : (s t u : S) → R s t → R t u → R s u

module _ {E S : Type 0} {R : S → S → Type 0} (order : IsPreorder R) where
  pub Relates-pure : {A : Type 0} (a : A) → Relates {E = E} R (pure a)
  Relates-pure a = record { at = order.same }

  pub Relates-gets : {A : Type 0} (f : S → A) → Relates {E = E} R (gets f)
  Relates-gets f = record { at = order.same }

  pub Relates-raise_if : (b : Bool) (e : E) → Relates R (raise_if {E = E} b e)
  Relates-raise_if b e = record { at = order.same }

  pub Relates-or_raise : {A : Type 0} (o : Option A) (e : E) → Relates R (or_raise {E = E} o e)
  Relates-or_raise none e = record { at = order.same }
  Relates-or_raise (some a) e = record { at = order.same }

  pub Relates-skip : Relates R (skip {E = E})
  Relates-skip = record { at = order.same }

  Relates-and_then :
      {A B : Type 0} (r : Result E A) (f : A → Method E S B)
      → ((a : A) → r ≡ ok a → Relates R (f a))
      → Relates R (and_then r f)
  Relates-and_then (ok a) f h = h a refl
  Relates-and_then (raised e) f h = record { at = order.same }

  -- The rest of a `do` block may use what the first part returned.
  pub Relates-bind :
      {A B : Type 0} (m : Method E S A) (f : A → Method E S B)
      → Relates R m
      → ((a : A) → Relates R (f a))
      → Relates R (m >>= f)
  Relates-bind m f first rest = record {
    at = λ s.
        let (r, t) = m s in
        order.join s t _ (first.at s) ((Relates-and_then r f (λ a _. rest a)).at t);
  }

  pub Relates-then :
      {A B : Type 0} (m : Method E S A) (f : Method E S B)
      → Relates R m
      → Relates R f
      → Relates R (m >> f)
  Relates-then m f first rest = Relates-bind m (λ _. f) first (λ _. rest)

pub Relates-if :
    {E S A : Type 0} {R : S → S → Type 0} (b : Bool) (m n : Method E S A)
    → Relates R m
    → Relates R n
    → Relates R (if b then m else n)
Relates-if true m n hm hn = hm
Relates-if false m n hm hn = hn
