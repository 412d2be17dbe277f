-- ===== src/Base/Order.antt =====
-- Python's order on `str`: lexicographic by code points.
use Prim.Native.Nat.{compare, Ordering}
use Prim.Native.Char.{code}
use Prim.Native.String.{String, [], ◌∷◌}
use mathlib.Core.Path.{◌≡◌, refl, ap₂}
use mathlib.Core.Bool.{Bool, true, false}
use native.Mathlib.Omega.{arith}
use text.Mathlib.TextEquality.{Char-path}

-- `s < t`
unfoldable pub str_lt : String → String → Bool
str_lt [] [] = false
str_lt [] (d ∷ t) = true
str_lt (c ∷ s) [] = false
str_lt (c ∷ s) (d ∷ t) = elim (compare (code c) (code d)) [
  | Ordering.lt ↦ true
  | Ordering.eq ↦ str_lt s t
  | Ordering.gt ↦ false
]

pub str_lt_irrefl : (s : String) → str_lt s s ≡ false
unfolding str_lt
str_lt_irrefl [] = refl
str_lt_irrefl (c ∷ s) = ground (arith, str_lt_irrefl s)

pub str_lt_trans : (s t u : String) → str_lt s t ≡ true → str_lt t u ≡ true → str_lt s u ≡ true
unfolding str_lt
str_lt_trans [] [] u p q = ground arith
str_lt_trans [] (d ∷ t) [] p q = ground arith
str_lt_trans [] (d ∷ t) (e ∷ u) p q = refl
str_lt_trans (c ∷ s) [] u p q = ground arith
str_lt_trans (c ∷ s) (d ∷ t) [] p q = ground arith
str_lt_trans (c ∷ s) (d ∷ t) (e ∷ u) p q = ground (arith, str_lt_trans s t u)

pub str_lt_connex : (s t : String) → str_lt s t ≡ false → str_lt t s ≡ false → s ≡ t
unfolding str_lt
str_lt_connex [] [] p q = refl
str_lt_connex [] (d ∷ t) p q = ground arith
str_lt_connex (c ∷ s) [] p q = ground arith
str_lt_connex (c ∷ s) (d ∷ t) p q =
    ap₂ ◌∷◌ (Char-path c d (ground arith)) (str_lt_connex s t (ground arith) (ground arith))

pub str_lt_asymm : (s t : String) → str_lt s t ≡ true → str_lt t s ≡ false
unfolding str_lt
str_lt_asymm [] [] p = refl
str_lt_asymm [] (d ∷ t) p = refl
str_lt_asymm (c ∷ s) [] p = ground arith
str_lt_asymm (c ∷ s) (d ∷ t) p = ground (arith, str_lt_asymm s t)
