-- ===== src/Base/Sets.antt =====
-- Python's sets of texts as lists: `in`, `issubset`, `set(xs)`, `sorted(xs)`.
pub mod Laws
use Prim.Native.String.{String}
use mathlib.Core.Bool.{Bool, true, false, ◌&&◌, ◌||◌}
use mathlib.Core.List.{List, [], ◌∷◌, ◌++◌}
use text.Mathlib.Text.{◌==◌}
use mcp_server_auth_template.Base.Tests.{if◌then◌else◌}
use mcp_server_auth_template.Base.Order.{str_lt}

-- `a in xs`
unfoldable pub contains : String → List String → Bool
contains a [] = false
contains a (x ∷ xs) = x == a || contains a xs

-- `xs.issubset(ys)`
unfoldable pub subset : List String → List String → Bool
unfolding contains
subset [] ys = true
subset (x ∷ xs) ys = contains x ys && subset xs ys

-- `not xs`
abbrev pub no_items {ℓ} : {A : Type ℓ} → List A → Bool
no_items [] = true
no_items (x ∷ xs) = false

-- `set(xs)`: one copy of each element.
unfoldable pub unique : List String → List String
unfolding contains
unique [] = []
unique (x ∷ xs) = let rest = unique xs in if contains x rest then rest else x ∷ rest

unfoldable pub insert : String → List String → List String
unfolding str_lt
insert a [] = a ∷ []
insert a (x ∷ xs) = if str_lt x a then x ∷ insert a xs else a ∷ x ∷ xs

-- `sorted(xs)`
unfoldable pub sorted : List String → List String
unfolding insert
sorted [] = []
sorted (x ∷ xs) = insert x (sorted xs)

-- `sorted(set(xs))`
unfoldable pub sorted_set : List String → List String
unfolding sorted unique
sorted_set xs = sorted (unique xs)
