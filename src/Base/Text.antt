-- ===== src/Base/Text.antt =====
-- Python's `str`, as the native text: a list of code points by `String.[]` and `String.◌∷◌`.
use Prim.Native.Nat.{ℕ, zero, suc, ◌≤◌, ◌/◌, ◌%◌}
use Prim.Native.Char.{Char, code}
use Prim.Native.String.{String, [], ◌∷◌, ◌++◌}
use mathlib.Core.Bool.{Bool, true, false, ◌&&◌, ◌||◌}
use mathlib.Core.List.{List}
use native.Mathlib.Omega.{arith}
use text.Mathlib.Text.{◌==◌}
use mcp_server_auth_template.Base.Tests.{ltb, eqb, in_range, if◌then◌else◌}

-- `len(s)`
abbrev pub length : String → ℕ
length [] = 0
length (c ∷ s) = suc (length s)

-- `s[:n]`
abbrev pub take : ℕ → String → String
take zero s = []
take (suc n) [] = []
take (suc n) (c ∷ s) = c ∷ take n s

-- `s[n:]`
abbrev pub drop : ℕ → String → String
drop zero s = s
drop (suc n) [] = []
drop (suc n) (c ∷ s) = drop n s

pub length-take-le : (n : ℕ) (s : String) → length (take n s) ≤ n
length-take-le zero s = omega arith
length-take-le (suc n) [] = omega arith
length-take-le (suc n) (c ∷ s) = omega (arith, length-take-le n s)

-- `not s`
abbrev pub is_empty : String → Bool
is_empty [] = true
is_empty (c ∷ s) = false

-- `str.isspace` of one code point, which is what `split()` and `strip()` go by.
unfoldable pub is_space : ℕ → Bool
is_space c =
    in_range 9 13 c
    || in_range 28 32 c
    || eqb c 133
    || eqb c 160
    || eqb c 5760
    || in_range 8192 8202 c
    || in_range 8232 8233 c
    || eqb c 8239
    || eqb c 8287
    || eqb c 12288

abbrev pub cons_word : String → List String → List String
cons_word [] ws = ws
cons_word (c ∷ w) ws = List.◌∷◌ (c ∷ w) ws

-- The word that the text begins with (empty before a blank), and the words behind it.
unfoldable pub words : String → String × List String
unfolding is_space
words [] = ([], List.[])
words (c ∷ s) =
    let (w, ws) = words s in if is_space (code c) then ([], cons_word w ws) else (c ∷ w, ws)

-- `s.split()`
unfoldable pub split : String → List String
unfolding words
split s = let (w, ws) = words s in cons_word w ws

-- `all(p(ord(c)) for c in s)`
abbrev pub all_codes : (ℕ → Bool) → String → Bool
all_codes p [] = true
all_codes p (c ∷ s) = p (code c) && all_codes p s

abbrev pub any_code : (ℕ → Bool) → String → Bool
any_code p [] = false
any_code p (c ∷ s) = p (code c) || any_code p s

-- `s.startswith(p)`
unfoldable pub starts_with : String → String → Bool
starts_with s [] = true
starts_with [] (d ∷ p) = false
starts_with (c ∷ s) (d ∷ p) = eqb (code c) (code d) && starts_with s p

-- `p in s`
unfoldable pub has_infix : String → String → Bool
unfolding starts_with
has_infix p [] = starts_with [] p
has_infix p (c ∷ s) = starts_with (c ∷ s) p || has_infix p s

-- `s.endswith(p)`
unfoldable pub ends_with : String → String → Bool
ends_with [] p = is_empty p
ends_with (c ∷ s) p = (c ∷ s) == p || ends_with s p

-- `s.rstrip(c)`, for the characters that `p` accepts
unfoldable pub rstrip : (ℕ → Bool) → String → String
rstrip p [] = []
rstrip p (c ∷ s) = let rest = rstrip p s in if is_empty rest && p (code c) then [] else c ∷ rest

unfoldable pub lstrip : (ℕ → Bool) → String → String
lstrip p [] = []
lstrip p (c ∷ s) = let rest = lstrip p s in if p (code c) then rest else c ∷ s

-- `s.strip()`
unfoldable pub strip : String → String
unfolding rstrip lstrip is_space
strip s = rstrip is_space (lstrip is_space s)

-- `sep.join(parts)`
unfoldable pub join : String → List String → String
join sep List.[] = []
join sep (List.◌∷◌ x List.[]) = x
join sep (List.◌∷◌ x (List.◌∷◌ y xs)) = x ++ sep ++ join sep (List.◌∷◌ y xs)

-- The character at a position of a text, or else `c`.
abbrev pub nth_char : ℕ → String → Char → Char
nth_char n [] c = c
nth_char zero (d ∷ s) c = d
nth_char (suc n) (d ∷ s) c = nth_char n s c

-- The last digit of a number, before a text.
abbrev pub cons_digit : ℕ → String → String
cons_digit n s = nth_char (n % 10) "0123456789" "0" ∷ s

-- The digits of a number before a text, for a fuel of at least the number of digits.
unfoldable pub digits : ℕ → ℕ → String → String
digits zero n s = s
digits (suc fuel) n s = elim (ltb n 10) [
  | true ↦ cons_digit n s
  | false ↦ digits fuel (n / 10) (cons_digit n s)
]

-- `str(n)`
unfoldable pub decimal : ℕ → String
unfolding digits
decimal n = digits (suc n) n ""
