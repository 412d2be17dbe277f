-- ===== src/Base/Value.antt =====
-- The values of a decoded JSON document, and Python's `dict` over them.
use Prim.Native.String.{String}
use mathlib.Core.Bool.{Bool, true, false}
use mathlib.Core.Option.{Option, none, some}
use mathlib.Core.List.{List, [], ◌∷◌}
use text.Mathlib.Text.{◌==◌}
use Prim.Native.Nat.{ℕ}
use mcp_server_auth_template.Base.Tests.{if◌then◌else◌}
use mathlib.Core.Path.{◌≡◌, refl}
use mathlib.Core.Logic.{◌≢◌}
use native.Mathlib.Omega.{arith}
use text.Mathlib.TextEquality.{eq_iff}

-- `negsuc n` is -(n + 1).
pub data ℤ : Type 0 where
  pos : ℕ → ℤ
  negsuc : ℕ → ℤ

-- A float is kept as the text that Python prints for it.
mutual
  pub data Value : Type 0 where
    null : Value
    bool : Bool → Value
    int : ℤ → Value
    float : String → Value
    str : String → Value
    arr : Items → Value
    obj : Fields → Value

  pub data Fields : Type 0 where
    end : Fields
    field : String → Value → Fields → Fields

  pub data Items : Type 0 where
    nil : Items
    cons : Value → Items → Items

abbrev pub items : Items → List Value
items nil = []
items (cons v vs) = v ∷ items vs

-- A dict in insertion order.
abbrev pub Dict {ℓ} : Type ℓ → Type ℓ
Dict V = List (String × V)

abbrev pub fields : Fields → Dict Value
fields end = []
fields (field k v fs) = (k, v) ∷ fields fs

-- `d.get(k)`, with `none` for a missing key
unfoldable pub lookup {ℓ} : {V : Type ℓ} → String → Dict V → Option V
lookup k [] = none
lookup k ((j, v) ∷ d) = if j == k then some v else lookup k d

-- `d[k] = v`
unfoldable pub store {ℓ} : {V : Type ℓ} → String → V → Dict V → Dict V
store k v [] = (k, v) ∷ []
store k v ((j, w) ∷ d) = if j == k then (j, v) ∷ d else (j, w) ∷ store k v d

abbrev pub or_null : Option Value → Value
or_null none = null
or_null (some v) = v

-- `d.get(k)` of decoded JSON: `None` for a missing key and for `null` alike
unfoldable pub get : String → Dict Value → Value
unfolding lookup
get k d = or_null (lookup k d)

-- `v if isinstance(v, str)`
abbrev pub as_str : Value → Option String
as_str (str s) = some s
as_str _ = none

-- `v == s`, for a text `s`
abbrev pub equals_str : Value → String → Bool
equals_str (str t) s = t == s
equals_str _ s = false

abbrev pub is_null : Value → Bool
is_null null = true
is_null _ = false

pub lookup-store {ℓ} :
    {V : Type ℓ} (j k : String) (v : V) (d : Dict V) → j ≢ k → lookup j (store k v d) ≡ lookup j d
unfolding lookup store
lookup-store j k v [] h = ground (arith, eq_iff k j)
lookup-store j k v ((i, w) ∷ d) h = ground (arith, eq_iff i k, eq_iff i j, lookup-store j k v d)

pub get-store : (j k : String) (v : Value) (d : Dict Value) → j ≢ k → get j (store k v d) ≡ get j d
unfolding get
get-store j k v d h = rw (lookup-store j k v d h)

pub ne_str : (s t : String) → (s == t) ≡ false → s ≢ t
ne_str s t h = ground (arith, eq_iff s t)

pub get-store_self : (k : String) (v : Value) (d : Dict Value) → get k (store k v d) ≡ v
unfolding get lookup store
get-store_self k v [] = ground (arith, eq_iff k k)
get-store_self k v ((i, w) ∷ d) = ground (arith, eq_iff i k, get-store_self k v d)

pub lookup-store_if {ℓ} :
    {V : Type ℓ} (j k : String) (v : V) (d : Dict V)
    → lookup j (store k v d) ≡ (if k == j then some v else lookup j d)
unfolding lookup store
lookup-store_if j k v [] = refl
lookup-store_if j k v ((i, w) ∷ d) =
    ground (arith, eq_iff k j, eq_iff i k, eq_iff i j, lookup-store_if j k v d)
