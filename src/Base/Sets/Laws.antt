-- ===== src/Base/Sets/Laws.antt =====
-- Membership in `set`, `sorted` and `++`, and the canonical form that `sorted(set(xs))` is.
use mcp_server_auth_template.Base.Tests.{Bool-cases}
use Prim.Native.String.{String}
use mathlib.Core.Path.{◌≡◌, refl, sym, ap₂, ◌∙◌}
use mathlib.Core.Logic.{inl, inr}
use mathlib.Core.Bool.{true, false, ◌||◌}
use mathlib.Core.List.{List, [], ◌∷◌, ◌++◌}
use native.Mathlib.Omega.{arith}
use text.Mathlib.Text.{◌==◌}
use text.Mathlib.TextEquality.{eq_iff}
use text.Mathlib.TextPositions.{eq_refl}
use mcp_server_auth_template.Base.Order.{
  str_lt, str_lt_irrefl, str_lt_asymm, str_lt_trans, str_lt_connex,
}
use mcp_server_auth_template.Base.Sets.{contains, subset, unique, insert, sorted, sorted_set}

-- Two lists with the same elements.
abbrev pub SameMembers : List String → List String → Type 0
SameMembers xs ys = (a : String) → contains a xs ≡ contains a ys

pub contains-append :
    (a : String) (xs ys : List String) → contains a (xs ++ ys) ≡ (contains a xs || contains a ys)
unfolding contains
contains-append a [] ys = refl
contains-append a (x ∷ xs) ys = ground (arith, contains-append a xs ys)

pub contains-unique : (a : String) (xs : List String) → contains a (unique xs) ≡ contains a xs
unfolding contains unique
contains-unique a [] = refl
contains-unique a (x ∷ xs) = ground (arith, eq_iff x a, contains-unique a xs, contains-unique x xs)

contains-insert :
    (a b : String) (xs : List String) → contains a (insert b xs) ≡ (b == a || contains a xs)
unfolding contains insert
contains-insert a b [] = refl
contains-insert a b (x ∷ xs) = ground (arith, contains-insert a b xs)

pub contains-sorted : (a : String) (xs : List String) → contains a (sorted xs) ≡ contains a xs
unfolding contains sorted
contains-sorted a [] = refl
contains-sorted a (x ∷ xs) = ground (arith, contains-insert a x (sorted xs), contains-sorted a xs)

pub contains-sorted_set :
    (a : String) (xs : List String) → contains a (sorted_set xs) ≡ contains a xs
unfolding sorted_set
contains-sorted_set a xs = contains-sorted a (unique xs) ∙ contains-unique a xs

-- `subset` is inclusion.
pub subset_sound :
    (xs ys : List String) (a : String)
    → subset xs ys ≡ true
    → contains a xs ≡ true
    → contains a ys ≡ true
unfolding contains subset
subset_sound [] ys a h m = ground arith
subset_sound (x ∷ xs) ys a h m = ground (arith, eq_iff x a, subset_sound xs ys a)

pub subset_complete :
    (xs ys : List String)
    → ((a : String) → contains a xs ≡ true → contains a ys ≡ true)
    → subset xs ys ≡ true
unfolding contains subset
subset_complete [] ys h = refl
subset_complete (x ∷ xs) ys h = rw (h x (rw eq_refl refl)) (
    subset_complete xs ys (λ a m.
      h a
        (elim (Bool-cases (x == a)) [ inl same ↦ rw same refl | inr other ↦ rw (other, m) refl ])))

-- Strictly ascending, so with no element twice.
abbrev pub AllAbove : String → List String → Type 0
AllAbove a [] = Unit
AllAbove a (x ∷ xs) = (str_lt a x ≡ true) × AllAbove a xs

abbrev pub IsAscending : List String → Type 0
IsAscending [] = Unit
IsAscending (x ∷ xs) = AllAbove x xs × IsAscending xs

AllAbove-trans :
    (a b : String) (xs : List String) → str_lt a b ≡ true → AllAbove b xs → AllAbove a xs
AllAbove-trans a b [] p h = tt
AllAbove-trans a b (x ∷ xs) p (q, h) = (str_lt_trans a b x p q, AllAbove-trans a b xs p h)

AllAbove-insert :
    (a b : String) (xs : List String) → str_lt a b ≡ true → AllAbove a xs → AllAbove a (insert b xs)
unfolding insert
AllAbove-insert a b [] p h = (p, tt)
AllAbove-insert a b (x ∷ xs) p (q, h) = elim (Bool-cases (str_lt x b)) [
  | inl e ↦ rw e (q, AllAbove-insert a b xs p h)
  | inr e ↦ rw e (p, (q, h))
]

insert-IsAscending :
    (a : String) (xs : List String)
    → contains a xs ≡ false
    → IsAscending xs
    → IsAscending (insert a xs)
unfolding insert contains
insert-IsAscending a [] m h = (tt, tt)
insert-IsAscending a (x ∷ xs) m (q, h) = elim (Bool-cases (str_lt x a)) [
  | inl e ↦ rw e (AllAbove-insert x a xs e q, insert-IsAscending a xs (ground arith) h)
  | inr e ↦
      let below : str_lt a x ≡ true = elim (Bool-cases (str_lt a x)) [
        | inl p ↦ p
        | inr p ↦
            let same : x ≡ a = str_lt_connex x a e p in
            let found : (x == a) ≡ true = (eq_iff x a).1 same in ground arith
      ] in
      rw e ((below, AllAbove-trans a x xs below q), (q, h))
]

abbrev pub IsUnique : List String → Type 0
IsUnique [] = Unit
IsUnique (x ∷ xs) = (contains x xs ≡ false) × IsUnique xs

pub unique-IsUnique : (xs : List String) → IsUnique (unique xs)
unfolding unique
unique-IsUnique [] = tt
unique-IsUnique (x ∷ xs) = elim (Bool-cases (contains x (unique xs))) [
  | inl e ↦ rw e (unique-IsUnique xs)
  | inr e ↦ rw e (e, unique-IsUnique xs)
]

sorted-IsAscending : (xs : List String) → IsUnique xs → IsAscending (sorted xs)
unfolding sorted
sorted-IsAscending [] h = tt
sorted-IsAscending (x ∷ xs) (m, h) =
    insert-IsAscending x (sorted xs) (contains-sorted x xs ∙ m) (sorted-IsAscending xs h)

pub sorted_set-IsAscending : (xs : List String) → IsAscending (sorted_set xs)
unfolding sorted_set
sorted_set-IsAscending xs = sorted-IsAscending (unique xs) (unique-IsUnique xs)

above-contains :
    (a b : String) (xs : List String) → AllAbove a xs → contains b xs ≡ true → str_lt a b ≡ true
unfolding contains
above-contains a b [] h m = ground arith
above-contains a b (x ∷ xs) (p, h) m = elim (Bool-cases (x == b)) [
  | inl same ↦ let e : x ≡ b = (eq_iff x b).0 same in rw e at p
  | inr other ↦ above-contains a b xs h (ground arith)
]

not-contains-above : (a : String) (xs : List String) → AllAbove a xs → contains a xs ≡ false
not-contains-above a xs h = elim (Bool-cases (contains a xs)) [
  | inl m ↦ cc (above-contains a a xs h m, str_lt_irrefl a)
  | inr m ↦ m
]

module _ (x y : String) (xs ys : List String) (p : AllAbove x xs) (q : AllAbove y ys)
    (same : SameMembers (x ∷ xs) (y ∷ ys)) where
  -- Neither head lies below the other.
  heads_agree : x ≡ y
  unfolding contains
  heads_agree = ground (
    arith,
    eq_iff x y,
    eq_iff y x,
    eq_iff x x,
    eq_iff y y,
    same x,
    same y,
    above-contains x y xs p,
    above-contains y x ys q,
    str_lt_asymm x y,
  )

  tails_agree : SameMembers xs ys
  unfolding contains
  tails_agree a = ground (
    arith,
    same a,
    heads_agree,
    eq_iff x a,
    eq_iff y a,
    not-contains-above x xs p,
    not-contains-above y ys q,
  )

-- An ascending list is determined by its elements.
ascending_ext :
    (xs ys : List String) → IsAscending xs → IsAscending ys → SameMembers xs ys → xs ≡ ys
unfolding contains
ascending_ext [] [] h k same = refl
ascending_ext [] (y ∷ ys) h k same = ground (arith, same y, eq_iff y y)
ascending_ext (x ∷ xs) [] h k same = ground (arith, same x, eq_iff x x)
ascending_ext (x ∷ xs) (y ∷ ys) (p, h) (q, k) same =
    ap₂ ◌∷◌ (heads_agree x y xs ys p q same)
      (ascending_ext xs ys h k (tails_agree x y xs ys p q same))

-- `sorted(set(xs))` depends on the elements of `xs` alone.
pub sorted_set-ext : (xs ys : List String) → SameMembers xs ys → sorted_set xs ≡ sorted_set ys
sorted_set-ext xs ys same =
    ascending_ext (sorted_set xs) (sorted_set ys) (sorted_set-IsAscending xs)
      (sorted_set-IsAscending ys)
      (λ a. contains-sorted_set a xs ∙ same a ∙ sym (contains-sorted_set a ys))

pub sorted_set-sorted_set : (xs : List String) → sorted_set (sorted_set xs) ≡ sorted_set xs
sorted_set-sorted_set xs = sorted_set-ext (sorted_set xs) xs (λ a. contains-sorted_set a xs)
