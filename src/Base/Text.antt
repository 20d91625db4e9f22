-- ===== src/Base/Text.antt =====
-- Texts: decidable equality, membership, f-strings and decimal numerals.
use Prim.Native.Nat.{ℕ, zero, suc, ◌/◌, ◌%◌}
use Prim.Native.String
use Prim.Native.String.{String}
use mathlib.Core.Bool.{Bool, true, false, Bool-discrete, ◌||◌}
use mathlib.Core.Logic.{dite}
use mathlib.Core.List.{List, [], ◌∷◌, ◌++◌}
use mathlib.Core.Path.{◌≡◌, refl}
use native.Mathlib.Omega.{arith}
use multi_cloud_ai_orchestra.Base.Tests.{ltb, if◌then◌else◌}
use text.Mathlib.Text.{◌==◌}
use text.Mathlib.TextEquality.{eq_iff}

unfoldable pub String-discrete : Discrete String
String-discrete s t =
    dite (Bool-discrete (s == t) true) (λ same. yes ((eq_iff s t).0 same))
      (λ differ. no (λ p. differ ((eq_iff s t).1 p)))

-- `x in xs` for a list or a set of texts.
abbrev pub mem_text : String → List String → Bool
mem_text x [] = false
mem_text x (y ∷ ys) = y == x || mem_text x ys

-- An f-string, as the list of its parts.
unfoldable pub fstring : List String → String
fstring [] = ""
fstring (s ∷ ss) = String.◌++◌ s (fstring ss)

pub mem_text-append :
    (x : String) (ys zs : List String) → mem_text x (ys ++ zs) ≡ (mem_text x ys || mem_text x zs)
mem_text-append x [] zs = refl
mem_text-append x (y ∷ ys) zs = ground (arith, mem_text-append x ys zs)

-- `sep.join(parts)`
unfoldable pub join : String → List String → String
join sep [] = ""
join sep (s ∷ []) = s
join sep (s ∷ t ∷ ss) = String.◌++◌ s (String.◌++◌ sep (join sep (t ∷ ss)))

abbrev digit : ℕ → String
digit zero = "0"
digit (suc zero) = "1"
digit (suc (suc zero)) = "2"
digit (suc (suc (suc zero))) = "3"
digit (suc (suc (suc (suc zero)))) = "4"
digit (suc (suc (suc (suc (suc zero))))) = "5"
digit (suc (suc (suc (suc (suc (suc zero)))))) = "6"
digit (suc (suc (suc (suc (suc (suc (suc zero))))))) = "7"
digit (suc (suc (suc (suc (suc (suc (suc (suc zero)))))))) = "8"
digit (suc (suc (suc (suc (suc (suc (suc (suc (suc n))))))))) = "9"

-- The decimal digits of `n`, the last of them first computed; `n + 1` rounds are enough.
unfoldable pub digits_from : ℕ → ℕ → String
digits_from zero n = ""
digits_from (suc fuel) n =
    let front = digits_from fuel (n / 10) in
    if ltb n 10 then digit n else String.◌++◌ front (digit (n % 10))

-- `str(n)` of a natural number.
unfoldable pub decimal : ℕ → String
unfolding digits_from
decimal n = digits_from (suc n) n

decimal_example : decimal 1207 ≡ "1207"
unfolding decimal
decimal_example = refl
