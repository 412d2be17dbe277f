-- ===== src/Jwks.antt =====
-- src/mcp_server_auth_template/adapters/jwks_key_resolver.py: signing keys from a cached JWKS document.
-- Times are natural numbers of some unit. The HTTP client, the TTL cache, PyJWT and the JSON decoder
-- are parameters.
pub mod Index
pub mod Resolver
pub mod Resolution
mod Tests
use mcp_server_auth_template.Base.{
  ◌⊎◌, ◌≡◌, ℕ, ◌+◌, ◌-◌, String, Bool, true, false, not, ◌&&◌, ◌||◌, Option, none, some, List, [],
  ◌∷◌, ◌==◌, ltb, leb, length, if◌then◌else◌,
}
use mcp_server_auth_template.Base.Text
use mcp_server_auth_template.Base.Text.{is_empty}
use mcp_server_auth_template.Base.Sets.{contains}
use mcp_server_auth_template.Base.Value.{
  Value, null, str, arr, obj, Items, items, Fields, fields, Dict, get, lookup, store, equals_str,
  is_null,
}
use mcp_server_auth_template.Base.Result.{Result, ok, err, ◌>>=◌}
use mcp_server_auth_template.Http.{Bytes}
use mcp_server_auth_template.OidcJson.{OidcDocumentError, duplicate_keys, bad_member}

abbrev pub accepted_algorithms : List String
accepted_algorithms = "RS256" ∷ "ES256" ∷ []

abbrev pub max_kid_length : ℕ
max_kid_length = 256

-- `isinstance(kid, str) and kid and len(kid) <= 256`
abbrev pub bounded_kid : Value → Option String
bounded_kid (str kid) =
    if is_empty kid || ltb max_kid_length (Text.length kid) then none else some kid
bounded_kid _ = none

abbrev pub JwkSet : Type 0
JwkSet = Dict (Dict Value)

-- `"verify" in key_ops`, for a list
abbrev pub has_verify : List Value → Bool
has_verify [] = false
has_verify (v ∷ vs) = equals_str v "verify" || has_verify vs

abbrev pub ops_allow : Value → Bool
ops_allow null = true
ops_allow (arr vs) = has_verify (items vs)
ops_allow _ = false

-- The key may verify signatures: `use` and `key_ops`, where they are given.
unfoldable pub may_verify : Dict Value → Bool
unfolding get
may_verify key =
    (is_null (get "use" key) || equals_str (get "use" key) "sig") && ops_allow (get "key_ops" key)

abbrev pub as_dict : Value → Option (Dict Value)
as_dict (obj fs) = some (fields fs)
as_dict _ = none

-- The loop of `_index_keys` with `seen_kids` and `indexed`.
unfoldable pub index_from : List String → JwkSet → List Value → Result OidcDocumentError JwkSet
index_from seen indexed [] = ok indexed
index_from seen indexed (raw ∷ rest) = elim (as_dict raw) [
  | none ↦ index_from seen indexed rest
  | some key ↦ elim (bounded_kid (get "kid" key)) [
    | none ↦ index_from seen indexed rest
    | some kid ↦
        let more =
          index_from (kid ∷ seen) (if may_verify key then store kid key indexed else indexed)
            rest in
        if contains kid seen then err duplicate_keys else more
  ]
]

-- `_index_keys`
unfoldable pub index_keys : List Value → Result OidcDocumentError JwkSet
index_keys raw_keys = index_from [] [] raw_keys

abbrev pub key_type_of : String → String
key_type_of algorithm = if algorithm == "RS256" then "RSA" else "EC"

-- The tests of `_compatible_key` on the entry that it found.
unfoldable pub fits : String → Dict Value → Bool
unfolding get
fits algorithm raw =
    (is_null (get "alg" raw) || equals_str (get "alg" raw) algorithm)
    && (equals_str (get "kty" raw) (key_type_of algorithm)
        && (not (algorithm == "ES256") || equals_str (get "crv" raw) "P-256"))

-- `from_dict` is PyJWK.from_dict, `none` where it raises one of the exceptions that the code catches.
module _ {Key : Type 0} (from_dict : Dict Value → String → Option Key) where
  abbrev pub key_of : String → Option (Dict Value) → Option Key
  key_of algorithm none = none
  key_of algorithm (some raw) = if fits algorithm raw then from_dict raw algorithm else none

  -- `_compatible_key`
  unfoldable pub compatible_key : JwkSet → String → String → Option Key
  compatible_key keys kid algorithm = key_of algorithm (lookup kid keys)

-- The TTL cache: what it yields under a key at a time was put there under that key.
pub record TtlCache (V : Type 0) : Type 1 where
  pub Cache : Type 0
  pub empty : Cache
  pub cached : String → ℕ → Cache → Option V
  pub put : String → V → ℕ → Cache → Cache
  pub cached-empty : (k : String) (t : ℕ) → cached k t empty ≡ none
  pub cached-put :
      (j k : String) (v w : V) (s t : ℕ) (c : Cache)
      → cached j t (put k v s c) ≡ some w
      → ((j ≡ k) × (w ≡ v)) ⊎ (cached j t c ≡ some w)
