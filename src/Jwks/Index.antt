-- ===== src/Jwks/Index.antt =====
-- What _index_keys keeps of a JWKS document.
use mcp_server_auth_template.Base.{
  Exists, ap, if◌then◌else◌, ◌∙◌, String, Bool, true, false, Option, none, some, List, [], ◌∷◌,
  ◌==◌, ◌≡◌, refl, arith, eq_iff, Option-cases, Bool-cases, inl, inr,
}
use mcp_server_auth_template.VulnerabilityPolicy.Laws.{none_left}
use mathlib.Core.Path.{subst}
use mcp_server_auth_template.Base.Sets.{contains}
use mcp_server_auth_template.Base.Value.{Value, Dict, get, lookup, store, lookup-store_if}
use mcp_server_auth_template.Base.Result.{ok}
use mcp_server_auth_template.Jwks.{JwkSet, bounded_kid, may_verify, as_dict, index_from, index_keys}

-- The entry under a key id is a signing key of the document with that id.
pub record IsSigningKey (kid : String) (key : Dict Value) : Type 0 where
  pub named : bounded_kid (get "kid" key) ≡ some kid
  pub verifies : may_verify key ≡ true

abbrev pub IsIndexed : JwkSet → Type 0
IsIndexed keys =
    (kid : String) (key : Dict Value) → lookup kid keys ≡ some key → IsSigningKey kid key

IsIndexed-store :
    (kid : String) (key : Dict Value) (keys : JwkSet)
    → IsSigningKey kid key
    → IsIndexed keys
    → IsIndexed (store kid key keys)
IsIndexed-store kid key keys new old j found h = elim (Bool-cases (kid == j)) [
  | inl same ↦
      let e : kid ≡ j = (eq_iff kid j).0 same in
      let k : key ≡ found = ground (arith, lookup-store_if j kid key keys) in
      subst (λ x. IsSigningKey x found) e (subst (IsSigningKey kid) k new)
  | inr other ↦ old j found (ground (arith, lookup-store_if j kid key keys))
]

abbrev store_if : Bool → String → Dict Value → JwkSet → JwkSet
store_if b kid key keys = if b then store kid key keys else keys

IsIndexed-store_if :
    (b : Bool) (kid : String) (key : Dict Value) (keys : JwkSet)
    → bounded_kid (get "kid" key) ≡ some kid
    → may_verify key ≡ b
    → IsIndexed keys
    → IsIndexed (store_if b kid key keys)
IsIndexed-store_if true kid key keys named verifies old =
    IsIndexed-store kid key keys (record { named = named; verifies = verifies }) old
IsIndexed-store_if false kid key keys named verifies old = old

index_from-IsIndexed :
    (raws : List Value) (seen : List String) (indexed keys : JwkSet)
    → IsIndexed indexed
    → index_from seen indexed raws ≡ ok keys
    → IsIndexed keys
unfolding index_from
index_from-IsIndexed [] seen indexed keys old h =
    let same : indexed ≡ keys = ground arith in subst IsIndexed same old
index_from-IsIndexed (raw ∷ raws) seen indexed keys old h = elim (Option-cases (as_dict raw)) [
  | inl e ↦ index_from-IsIndexed raws seen indexed keys old (rw (e, index_from) at h)
  | inr (key, e) ↦ elim (Option-cases (bounded_kid (get "kid" key))) [
    | inl k ↦ index_from-IsIndexed raws seen indexed keys old (rw (e, k, index_from) at h)
    | inr (kid, k) ↦ elim (Bool-cases (contains kid seen)) [
      | inl old_kid ↦ cc (rw (e, k, old_kid, index_from) at h)
      | inr fresh ↦
          index_from-IsIndexed raws (kid ∷ seen) (store_if (may_verify key) kid key indexed) keys
            (IsIndexed-store_if (may_verify key) kid key indexed k refl old)
            (rw (e, k, fresh, index_from) at h)
    ]
  ]
]

-- What is indexed under an id is an entry of the document.
abbrev pub IsFrom : List Value → JwkSet → Type 0
IsFrom raws keys =
    (kid : String) (key : Dict Value)
    → lookup kid keys ≡ some key
    → Exists (λ raw. as_dict raw ≡ some key) raws

module _ (raws : List Value) where
  IsFrom-store :
      (b : Bool) (kid : String) (key : Dict Value) (keys : JwkSet)
      → Exists (λ raw. as_dict raw ≡ some key) raws
      → IsFrom raws keys
      → IsFrom raws (store_if b kid key keys)
  IsFrom-store false kid key keys new old j found h = old j found h
  IsFrom-store true kid key keys new old j found h = elim (Bool-cases (kid == j)) [
    | inl same ↦
        let k : key ≡ found = ground (arith, lookup-store_if j kid key keys) in
        subst (λ x. Exists (λ raw. as_dict raw ≡ some x) raws) k new
    | inr other ↦ old j found (ground (arith, lookup-store_if j kid key keys))
  ]

  index_from-IsFrom :
      (rest : List Value)
      (inside : (raw : Value) → Exists (λ r. r ≡ raw) rest → Exists (λ r. r ≡ raw) raws)
      (seen : List String) (indexed keys : JwkSet)
      → IsFrom raws indexed
      → index_from seen indexed rest ≡ ok keys
      → IsFrom raws keys
  unfolding index_from
  index_from-IsFrom [] inside seen indexed keys old h =
      let same : indexed ≡ keys = ground arith in subst (IsFrom raws) same old
  index_from-IsFrom (raw ∷ rest) inside seen indexed keys old h =
      let later = λ (x : Value) (e : Exists (λ r. r ≡ x) rest). inside x (inr e) in
      elim (Option-cases (as_dict raw)) [
        | inl e ↦ index_from-IsFrom rest later seen indexed keys old (rw (e, index_from) at h)
        | inr (key, e) ↦ elim (Option-cases (bounded_kid (get "kid" key))) [
          | inl k ↦ index_from-IsFrom rest later seen indexed keys old (rw (e, k, index_from) at h)
          | inr (kid, k) ↦ elim (Bool-cases (contains kid seen)) [
            | inl old_kid ↦ cc (rw (e, k, old_kid, index_from) at h)
            | inr fresh ↦
                index_from-IsFrom rest later (kid ∷ seen)
                  (store_if (may_verify key) kid key indexed) keys
                  (IsFrom-store (may_verify key) kid key indexed
                    (among key raw e raws (inside raw (inl refl))) old)
                  (rw (e, k, fresh, index_from) at h)
          ]
        ]
      ]
    where
      among :
          (key : Dict Value) (raw : Value)
          → as_dict raw ≡ some key
          → (rs : List Value) → Exists (λ r. r ≡ raw) rs
          → Exists (λ r. as_dict r ≡ some key) rs
      among key raw e [] none_left = none_left
      among key raw e (r ∷ rs) (inl same) = inl (ap as_dict same ∙ e)
      among key raw e (r ∷ rs) (inr more) = inr (among key raw e rs more)

pub index_keys-IsFrom :
    (raws : List Value) (keys : JwkSet) → index_keys raws ≡ ok keys → IsFrom raws keys
unfolding index_keys lookup
index_keys-IsFrom raws keys h =
    index_from-IsFrom raws raws (λ raw e. e) [] [] keys (λ kid key found. cc) h

-- The ids that `_index_keys` reads, in the order of the document: of the entries that are objects
-- with a text `kid` that is not empty and has at most 256 characters.
abbrev pub kid_of : Value → Option String
kid_of raw = elim (as_dict raw) [ none ↦ none | some key ↦ bounded_kid (get "kid" key) ]

unfoldable pub kids_of : List Value → List String
kids_of [] = []
kids_of (raw ∷ raws) = elim (kid_of raw) [ none ↦ kids_of raws | some kid ↦ kid ∷ kids_of raws ]

-- No id is among the earlier ones, or twice.
abbrev pub AllFresh : List String → List String → Type 0
AllFresh seen [] = Unit
AllFresh seen (kid ∷ kids) = (contains kid seen ≡ false) × AllFresh (kid ∷ seen) kids

index_from-AllFresh :
    (raws : List Value) (seen : List String) (indexed keys : JwkSet)
    → index_from seen indexed raws ≡ ok keys
    → AllFresh seen (kids_of raws)
unfolding index_from kids_of
index_from-AllFresh [] seen indexed keys h = tt
index_from-AllFresh (raw ∷ raws) seen indexed keys h = elim (Option-cases (as_dict raw)) [
  | inl e ↦ rw (e, kids_of) (index_from-AllFresh raws seen indexed keys (rw (e, index_from) at h))
  | inr (key, e) ↦ elim (Option-cases (bounded_kid (get "kid" key))) [
    | inl k ↦
        rw (e, k, kids_of) (index_from-AllFresh raws seen indexed keys (rw (e, k, index_from) at h))
    | inr (kid, k) ↦ elim (Bool-cases (contains kid seen)) [
      | inl old_kid ↦ cc (rw (e, k, old_kid, index_from) at h)
      | inr fresh ↦
          rw (e, k, kids_of)
            (
              fresh,
              index_from-AllFresh raws (kid ∷ seen) (store_if (may_verify key) kid key indexed) keys
                  (rw (e, k, fresh, index_from) at h),
            )
    ]
  ]
]

-- A JWKS document that is indexed has no key id twice, and what it is indexed to holds under each
-- id a key with that id, non-empty and of at most 256 characters, that may verify signatures.
pub index_keys-IsIndexed :
    (raws : List Value) (keys : JwkSet)
    → index_keys raws ≡ ok keys
    → AllFresh [] (kids_of raws) × IsIndexed keys
unfolding index_keys lookup
index_keys-IsIndexed raws keys h = (
  index_from-AllFresh raws [] [] keys h,
  index_from-IsIndexed raws [] [] keys (λ kid key found. cc) h,
)
