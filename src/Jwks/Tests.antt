-- ===== src/Jwks/Tests.antt =====
-- A resolver with a cache that keeps everything, an HTTP client that counts its requests, and one
-- document with one signing key.
use mcp_server_auth_template.Base.{
  String, [], arith, eq_iff, none, refl, some, suc, true, ℕ, ◌==◌, ◌∷◌, ◌≡◌, ◌⊎◌,
}
use mcp_server_auth_template.Base.Result.{ok}
use mcp_server_auth_template.Base.Sets.{contains}
use mcp_server_auth_template.Base.Value.{
  Dict, Fields, Value, arr, cons, end, field, fields, get, lookup, lookup-store_if, nil, obj, store,
  str,
}
use mcp_server_auth_template.Jwks.{
  JwkSet, TtlCache, accepted_algorithms, bounded_kid, compatible_key, fits, index_from, index_keys,
  may_verify,
}
use mcp_server_auth_template.Jwks.Index.{AllFresh, IsIndexed, index_keys-IsIndexed, kids_of}
use mcp_server_auth_template.Jwks.Resolution.{IsResolved, IsSound, resolve-Settles}
use mcp_server_auth_template.Jwks.Resolver.{
  Collaborators, ResolverState, document_keys, fetch_and_store, fetch_keys, keys_for, resolve,
  text_in,
}
use mcp_server_auth_template.OidcJson.{fresh_keys, parse_json_object, passes_hook}

abbrev KeyCache : Type 0
KeyCache = Dict JwkSet

-- An entry under another key than the one stored is the one that was there.
lookup-store_inv :
    (j k : String) (v w : JwkSet) (d : KeyCache)
    → lookup j (store k v d) ≡ some w
    → ((j ≡ k) × (w ≡ v)) ⊎ (lookup j d ≡ some w)
lookup-store_inv j k v w d h = ground (arith, lookup-store_if j k v d, eq_iff k j)

lookup-nil : (k : String) → lookup {V = JwkSet} k [] ≡ none
unfolding lookup
lookup-nil k = refl

abbrev keep_all : TtlCache JwkSet
keep_all = record {
  Cache = KeyCache;
  empty = [];
  cached = λ k t c. lookup k c;
  put = λ k v t c. store k v c;
  cached-empty = λ k t. lookup-nil k;
  cached-put = λ j k v w s t c h. lookup-store_inv j k v w c h;
}

abbrev signing_entry : Fields
signing_entry = field "kid" (str "k1") (field "kty" (str "RSA") (field "use" (str "sig") end))

abbrev document : Value
document = obj (field "keys" (arr (cons (obj signing_entry) (cons (str "junk") nil))) end)

abbrev deps : Collaborators ℕ String
deps = record {
  http_get = λ uri n. (
    some (record {
      status_ok = true;
      content_type = "Application/JSON; charset=utf-8";
      content = "{}";
    }),
    suc n,
  );
  trusted = λ uri. uri == "https://idp/jwks";
  jwks_max_bytes = 1000;
  unverified_header = λ token. some (("alg", str "RS256") ∷ ("kid", str "k1") ∷ []);
  from_dict = λ entry alg. some alg;
  loads = λ content. some document;
  max_keys = 10;
  refresh_cooldown = 60;
}

abbrev fresh : ResolverState deps keep_all
fresh = record { cache = []; last_forced_refresh = [] }

fresh_resolves : (resolve deps keep_all "https://idp/jwks" "t" 5 6 fresh 0).0 ≡ ok "RS256"
unfolding resolve keys_for fetch_and_store fetch_keys document_keys parse_json_object passes_hook
    fresh_keys index_keys index_from may_verify fits compatible_key contains store lookup
fresh_resolves = refl

fresh-IsSound : IsSound deps keep_all fresh
unfolding lookup
fresh-IsSound uri t keys h = cc

resolve-Settles_example :
    IsSound deps keep_all (resolve deps keep_all "https://idp/jwks" "t" 5 6 fresh 0).1
    × ((key : String)
        → (resolve deps keep_all "https://idp/jwks" "t" 5 6 fresh 0).0 ≡ ok key
        → (header : Dict Value) × (kid : String) × (alg : String) × (deps.unverified_header "t"
            ≡ some header)
          × (bounded_kid (get "kid" header) ≡ some kid)
          × (text_in accepted_algorithms (get "alg" header) ≡ some alg)
          × IsResolved deps keep_all "https://idp/jwks" kid alg key)
resolve-Settles_example =
    resolve-Settles deps keep_all "https://idp/jwks" "t" 5 6 fresh 0 fresh-IsSound

abbrev some_keys : JwkSet
some_keys = ("k1", fields signing_entry) ∷ []

abbrev refreshed : ResolverState deps keep_all
refreshed = record {
  cache = ("https://idp/jwks", some_keys) ∷ [];
  last_forced_refresh = ("https://idp/jwks", 100) ∷ [];
}

index_keys-IsIndexed_example :
    AllFresh [] (kids_of (obj signing_entry ∷ str "junk" ∷ [])) × IsIndexed some_keys
unfolding index_keys index_from may_verify contains store
index_keys-IsIndexed_example =
    index_keys-IsIndexed (obj signing_entry ∷ str "junk" ∷ []) some_keys refl
