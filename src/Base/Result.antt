-- ===== src/Base/Result.antt =====
-- Code that may raise: a value, or the exception that it raised.
use mathlib.Core.Path.{◌≡◌, refl}
use mathlib.Core.Bool.{Bool, true, false}
use mathlib.Core.Logic.{◌⊎◌, inl, inr}
use native.Mathlib.Omega.{arith}
use mathlib.Core.List.{List, [], ◌∷◌}
use mcp_server_auth_template.Base.Lists.{All}

pub data Result {ℓ κ} (E : Type ℓ) (A : Type κ) : Type (ℓ ⊔ κ) where
  err : E → Result E A
  ok : A → Result E A

infixl 5 ◌>>=◌
abbrev pub ◌>>=◌ {ℓ κ λ₁} :
    {E : Type ℓ} {A : Type κ} {B : Type λ₁} → Result E A → (A → Result E B) → Result E B
err raised >>= next = err raised
ok value >>= next = next value

-- What a chain that does not raise has passed through.
pub >>=-eq-ok {ℓ κ λ₁} :
    {E : Type ℓ} {A : Type κ} {B : Type λ₁} {result : B} (first : Result E A)
    (next : A → Result E B)
    → (first >>= next) ≡ ok result
    → (value : A) × (first ≡ ok value) × (next value ≡ ok result)
>>=-eq-ok (err raised) next e = cc
>>=-eq-ok (ok value) next e = (value, refl, e)

-- `if test: raise raised`
abbrev pub refuse_if {ℓ} : {E : Type ℓ} → Bool → E → Result E (Unit {0})
refuse_if true raised = err raised
refuse_if false raised = ok tt

pub refuse_if-eq-ok {ℓ κ} :
    {E : Type ℓ} {B : Type κ} {result : B} (test : Bool) (raised : E) (next : Result E B)
    → (refuse_if test raised >>= λ done. next) ≡ ok result
    → (test ≡ false) × (next ≡ ok result)
refuse_if-eq-ok true raised next h = cc
refuse_if-eq-ok false raised next h = (refl, h)

-- A loop of checks, which stops at the first that raises.
abbrev pub each {ℓ κ} :
    {E : Type ℓ} {A : Type κ} → (A → Result E (Unit {0})) → List A → Result E (Unit {0})
each check [] = ok tt
each check (x ∷ xs) = check x >>= λ done. each check xs

pub each-eq-ok {ℓ κ λ₁} :
    {E : Type ℓ} {A : Type κ} (P : A → Type λ₁) (check : A → Result E (Unit {0}))
    (passes : (x : A) → check x ≡ ok tt → P x) (xs : List A)
    → each check xs ≡ ok tt
    → All P xs
each-eq-ok P check passes [] h = tt
each-eq-ok P check passes (x ∷ xs) h =
    let (done, first, rest) = >>=-eq-ok (check x) (λ done. each check xs) h in
    (passes x first, each-eq-ok P check passes xs rest)

pub refuse_if-passes {ℓ} :
    {E : Type ℓ} (test : Bool) (raised : E) → refuse_if test raised ≡ ok tt → test ≡ false
refuse_if-passes true raised h = cc
refuse_if-passes false raised h = refl

-- Where a chain that raises has raised.
pub >>=-eq-err {ℓ κ λ₁} :
    {E : Type ℓ} {A : Type κ} {B : Type λ₁} {raised : E} (first : Result E A)
    (next : A → Result E B)
    → (first >>= next) ≡ err raised
    → (first ≡ err raised) ⊎ ((value : A) × (first ≡ ok value) × (next value ≡ err raised))
>>=-eq-err (err e) next h = inl (ground arith)
>>=-eq-err (ok value) next h = inr (value, refl, h)
