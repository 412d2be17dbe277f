-- ===== src/Jwks/Resolution.antt =====
-- Which key a token is verified with, over the states of the cache.
use mcp_server_auth_template.Base.{
  eq_iff, ◌≤◌, ◌⊎◌, Exists, ℕ, ◌-◌, ◌<◌, String, Bool, true, false, not, ◌||◌, Option, none, some,
  ltb, length, ◌==◌, ◌≡◌, refl, arith, Option-cases, Bool-cases, inl, inr, lt→ltb,
}
use mcp_server_auth_template.Jwks.Resolver.{
  media_type, TokenVerificationError, HttpResponse, Collaborators, ResolverState, text_in,
  keys_member, document_keys, signing_key, keys_of_response, fetch_keys, Fetched, remember,
  fetch_and_store, is_cooling, refresh, or_fetch, keys_for, Resolved, second_try, first_try,
  resolve,
}
use mcp_server_auth_template.Base.Value.{Items, Value, arr, items, Dict, get, lookup, store}
use mcp_server_auth_template.Jwks.{
  as_dict, index_keys, JwkSet, TtlCache, accepted_algorithms, bounded_kid, compatible_key, fits,
}
use mcp_server_auth_template.Jwks.Index.{index_keys-IsFrom, IsSigningKey, index_keys-IsIndexed}
use mathlib.Core.Path.{sym, subst}
use mcp_server_auth_template.Base.Result.{Result, ok, err, >>=-eq-ok}
use mcp_server_auth_template.OidcJson.{OidcDocumentError, parse_json_object}

module _ {W Key : Type 0} (deps : Collaborators W Key) (tc : TtlCache JwkSet) where
  open tc use {Cache, cached, put, cached-put}

  -- The entry is in a document that the HTTP client has answered with for the URL: in the list, of at
  -- most the limit of keys, of a JSON object that the response, of a good status and a JSON media
  -- type, has as its body.
  pub record IsServed (uri : String) (entry : Dict Value) : Type 0 where
    pub world : W
    pub response : HttpResponse
    pub answered : (deps.http_get uri world).0 ≡ some response
    pub good : response.status_ok ≡ true
    pub json :
        (media_type response ≡ "application/json")
        ⊎ (media_type response ≡ "application/jwk-set+json")
    pub document : Dict Value
    pub parsed : parse_json_object deps.loads response.content deps.jwks_max_bytes ≡ ok document
    pub keys : Items
    pub listed : get "keys" document ≡ arr keys
    pub few : length (items keys) ≤ deps.max_keys
    pub found : Exists (λ raw. as_dict raw ≡ some entry) (items keys)

  -- A key set with signing keys from documents of the URL.
  abbrev pub IsKeySet : String → JwkSet → Type 0
  IsKeySet uri keys =
      (kid : String) (entry : Dict Value)
      → lookup kid keys ≡ some entry
      → IsSigningKey kid entry × IsServed uri entry

  -- Whatever the cache can yield for a URL at any time is a key set from documents of that URL.
  abbrev pub IsSound : ResolverState deps tc → Type 0
  IsSound s =
      (uri : String) (t : ℕ) (keys : JwkSet) → cached uri t s.cache ≡ some keys → IsKeySet uri keys

  abbrev Yields : String → Result TokenVerificationError JwkSet → Type 0
  Yields uri r = (keys : JwkSet) → r ≡ ok keys → IsKeySet uri keys

  -- What a fetch leaves: a sound state, and a key set of the URL if it succeeded.
  abbrev Leaves : String → Fetched deps tc → Type 0
  Leaves uri f = IsSound f.1 × Yields uri f.0

  keys_member-eq-ok :
      (v : Value) (keys : JwkSet)
      → keys_member deps tc v ≡ ok keys
      → (vs : Items) × (v ≡ arr vs)
        × (length (items vs) ≤ deps.max_keys)
        × (index_keys (items vs) ≡ ok keys)
  keys_member-eq-ok (arr vs) keys h = elim (Bool-cases (ltb deps.max_keys (length (items vs)))) [
    | inl many ↦ cc (rw many at h)
    | inr few ↦ (vs, refl, ground (arith, few), rw few at h)
  ]
  keys_member-eq-ok _ keys h = cc

  either_type :
      (m : String)
      → (m == "application/json" || m == "application/jwk-set+json") ≡ true
      → (m ≡ "application/json") ⊎ (m ≡ "application/jwk-set+json")
  either_type m h = elim (Bool-cases (m == "application/json")) [
    | inl plain ↦ inl ((eq_iff m "application/json").0 plain)
    | inr other ↦ inr ((eq_iff m "application/jwk-set+json").0 (rw other at h))
  ]

  document_keys-IsKeySet :
      (uri : String) (w : W) (r : HttpResponse) (keys : JwkSet)
      → (deps.http_get uri w).0 ≡ some r
      → document_keys deps tc r ≡ ok keys
      → IsKeySet uri keys
  unfolding document_keys
  document_keys-IsKeySet uri w r keys answered h =
      elim (Bool-cases (
        not r.status_ok
        || not
            (media_type r == "application/json" || media_type r == "application/jwk-set+json"))) [
              | inl bad ↦ cc (rw bad at h)
              | inr good ↦
                  let (document, parsed, found) =
                    >>=-eq-ok (parse_json_object deps.loads r.content deps.jwks_max_bytes)
                      (λ d. keys_member deps tc (get "keys" d)) (rw good at h) in
                  let (vs, listed, few, indexed) =
                    keys_member-eq-ok (get "keys" document) keys found in
                  λ kid entry e. (
                    (index_keys-IsIndexed (items vs) keys indexed).1 kid entry e,
                    record {
                      world = w;
                      response = r;
                      answered = answered;
                      good = ground (arith, good);
                      json = either_type (media_type r) (ground (arith, good));
                      document = document;
                      parsed = parsed;
                      keys = vs;
                      listed = listed;
                      few = few;
                      found = index_keys-IsFrom (items vs) keys indexed kid entry e;
                    },
                  )
            ]

  signing_key-eq-ok :
      (d : Result OidcDocumentError JwkSet) (keys : JwkSet)
      → signing_key deps tc d ≡ ok keys
      → d ≡ ok keys
  signing_key-eq-ok (ok ks) keys h = ground arith
  signing_key-eq-ok (err e) keys h = cc

  keys_of_response-Yields :
      (uri : String) (w : W) (o : Option HttpResponse)
      → (deps.http_get uri w).0 ≡ o
      → Yields uri (keys_of_response deps tc o)
  keys_of_response-Yields uri w none answered keys h = cc
  keys_of_response-Yields uri w (some r) answered keys h =
      document_keys-IsKeySet uri w r keys answered
        (signing_key-eq-ok (document_keys deps tc r) keys h)

  fetch_keys-Yields : (uri : String) (w : W) → Yields uri (fetch_keys deps tc uri w).0
  unfolding fetch_keys
  fetch_keys-Yields uri w = elim (Bool-cases (deps.trusted uri)) [
    | inl e ↦ rw e (keys_of_response-Yields uri w (deps.http_get uri w).0 refl)
    | inr e ↦ rw e (λ keys h. cc)
  ]

  remember-Leaves :
      (uri : String) (now : ℕ) (s : ResolverState deps tc)
      (f : Result TokenVerificationError JwkSet × W)
      → IsSound s
      → Yields uri f.0
      → Leaves uri (remember deps tc uri now s f)
  remember-Leaves uri now s (ok keys, w) sound yields = (
    λ j t ks found. elim (cached-put j uri keys ks now t s.cache found) [
      | inl (here, same) ↦
          subst (λ u. IsKeySet u ks) (sym here) (subst (IsKeySet uri) (sym same) (yields keys refl))
      | inr old ↦ sound j t ks old
    ],
    yields,
  )
  remember-Leaves uri now s (err e, w) sound yields = (sound, yields)

  fetch_and_store-Leaves :
      (uri : String) (now : ℕ) (s : ResolverState deps tc) (w : W)
      → IsSound s
      → Leaves uri (fetch_and_store deps tc uri now s w)
  unfolding fetch_and_store
  fetch_and_store-Leaves uri now s w sound =
      remember-Leaves uri now s (fetch_keys deps tc uri w) sound (fetch_keys-Yields uri w)

  keep-Leaves :
      (uri : String) (s : ResolverState deps tc) (w : W) (keys : JwkSet)
      → IsSound s
      → IsKeySet uri keys
      → Leaves uri (ok keys, s, w)
  keep-Leaves uri s w keys sound indexed =
      (sound, λ ks h. let same : keys ≡ ks = ground arith in subst (IsKeySet uri) same indexed)

  or_fetch-Leaves :
      (uri : String) (now : ℕ) (s : ResolverState deps tc) (w : W) (o : Option JwkSet)
      → IsSound s
      → cached uri now s.cache ≡ o
      → Leaves uri (or_fetch deps tc uri now s w o)
  or_fetch-Leaves uri now s w none sound e = fetch_and_store-Leaves uri now s w sound
  or_fetch-Leaves uri now s w (some keys) sound e =
      keep-Leaves uri s w keys sound (sound uri now keys e)

  refresh-Leaves :
      (uri : String) (now : ℕ) (s : ResolverState deps tc) (w : W) (o : Option JwkSet)
      → IsSound s
      → cached uri now s.cache ≡ o
      → Leaves uri (refresh deps tc uri now s w o)
  refresh-Leaves uri now s w none sound e = fetch_and_store-Leaves uri now s w sound
  refresh-Leaves uri now s w (some keys) sound e =
      elim (Bool-cases (is_cooling deps tc now (lookup uri s.last_forced_refresh))) [
        | inl c ↦ rw c (keep-Leaves uri s w keys sound (sound uri now keys e))
        | inr c ↦ rw c (
            fetch_and_store-Leaves uri now
              (record s { last_forced_refresh = store uri now s.last_forced_refresh }) w sound)
      ]

  keys_for-Leaves :
      (force : Bool) (uri : String) (now : ℕ) (s : ResolverState deps tc) (w : W)
      → IsSound s
      → Leaves uri (keys_for deps tc force uri now s w)
  unfolding keys_for
  keys_for-Leaves false uri now s w sound = or_fetch-Leaves uri now s w _ sound refl
  keys_for-Leaves true uri now s w sound = refresh-Leaves uri now s w _ sound refl

  -- The key is made of an entry of a document of the trusted URL: the one that the token's header
  -- names, and it fits the header's algorithm.
  pub record IsResolved (uri kid alg : String) (key : Key) : Type 0 where
    pub trusted : deps.trusted uri ≡ true
    pub entry : Dict Value
    pub signing : IsSigningKey kid entry
    pub served : IsServed uri entry
    pub compatible : fits alg entry ≡ true
    pub made : deps.from_dict entry alg ≡ some key

  compatible_key-IsResolved :
      (uri kid alg : String) (keys : JwkSet) (key : Key)
      → deps.trusted uri ≡ true
      → IsKeySet uri keys
      → compatible_key deps.from_dict keys kid alg ≡ some key
      → IsResolved uri kid alg key
  unfolding compatible_key
  compatible_key-IsResolved uri kid alg keys key trusted indexed h =
      elim (Option-cases (lookup kid keys)) [
        | inl e ↦ cc (rw e at h)
        | inr (entry, e) ↦ elim (Bool-cases (fits alg entry)) [
          | inl fit ↦ record {
            trusted = trusted;
            entry = entry;
            signing = (indexed kid entry e).0;
            served = (indexed kid entry e).1;
            compatible = fit;
            made = rw (e, fit) at h;
          }
          | inr unfit ↦ cc (rw (e, unfit) at h)
        ]
      ]

  -- What `resolve` leaves: a sound state, and a resolved key if it succeeded.
  abbrev pub Settles : (uri kid alg : String) → Resolved deps tc → Type 0
  Settles uri kid alg r = IsSound r.1 × ((key : Key) → r.0 ≡ ok key → IsResolved uri kid alg key)

  module _ (uri kid alg : String) (trusted : deps.trusted uri ≡ true) where
    found-Settles :
        (s : ResolverState deps tc) (w : W) (keys : JwkSet) (key : Key)
        → IsSound s
        → IsKeySet uri keys
        → compatible_key deps.from_dict keys kid alg ≡ some key
        → Settles uri kid alg (ok key, s, w)
    found-Settles s w keys key sound indexed h = (
      sound,
      λ k e.
          let same : key ≡ k = ground arith in
          subst (IsResolved uri kid alg) same
            (compatible_key-IsResolved uri kid alg keys key trusted indexed h),
    )

    second_try-Settles :
        (f : Fetched deps tc) → Leaves uri f → Settles uri kid alg (second_try deps tc kid alg f)
    second_try-Settles (err e, s, w) (sound, yields) = (sound, λ key h. cc)
    second_try-Settles (ok keys, s, w) (sound, yields) =
        elim (Option-cases (compatible_key deps.from_dict keys kid alg)) [
          | inl e ↦ rw (e, second_try) (sound, λ key h. cc)
          | inr (key, e) ↦
              rw (e, second_try) (found-Settles s w keys key sound (yields keys refl) e)
        ]

    first_try-Settles :
        (later : ℕ) (f : Fetched deps tc)
        → Leaves uri f
        → Settles uri kid alg (first_try deps tc uri later kid alg f)
    first_try-Settles later (err e, s, w) (sound, yields) = (sound, λ key h. cc)
    first_try-Settles later (ok keys, s, w) (sound, yields) =
        elim (Option-cases (compatible_key deps.from_dict keys kid alg)) [
          | inl e ↦
              rw (e, first_try) (second_try-Settles _ (keys_for-Leaves true uri later s w sound))
          | inr (key, e) ↦ rw (e, first_try) (found-Settles s w keys key sound (yields keys refl) e)
        ]

-- From a cache that is sound, in that it yields for each URL only signing keys from documents that
-- the HTTP client has answered with for that URL, `resolve` leaves a sound cache; and a key that it
-- returns is made of an entry of such a document of the given URL, which is trusted: the entry whose
-- id is the `kid` of the token's header, which may verify signatures and whose type, curve and
-- algorithm fit the header's `alg`, RS256 or ES256.
pub resolve-Settles :
    {W Key : Type 0} (deps : Collaborators W Key) (tc : TtlCache JwkSet) (uri token : String)
    (now later : ℕ) (s : ResolverState deps tc) (w : W)
    → IsSound deps tc s
    → IsSound deps tc (resolve deps tc uri token now later s w).1
      × ((key : Key)
          → (resolve deps tc uri token now later s w).0 ≡ ok key
          → (header : Dict Value) × (kid : String) × (alg : String) × (deps.unverified_header token
              ≡ some header)
            × (bounded_kid (get "kid" header) ≡ some kid)
            × (text_in accepted_algorithms (get "alg" header) ≡ some alg)
            × IsResolved deps tc uri kid alg key)
unfolding resolve
resolve-Settles deps tc uri token now later s w sound =
    elim (Option-cases (deps.unverified_header token)) [
      | inl e ↦ rw e (sound, λ key h. cc)
      | inr (header, e) ↦ elim (Option-cases (bounded_kid (get "kid" header))) [
        | inl k ↦ rw (e, k) (sound, λ key h. cc)
        | inr (kid, k) ↦ elim (Option-cases (text_in accepted_algorithms (get "alg" header))) [
          | inl a ↦ rw (e, k, a) (sound, λ key h. cc)
          | inr (alg, a) ↦ elim (Bool-cases (deps.trusted uri)) [
            | inr t ↦ rw (e, k, a, t) (sound, λ key h. cc)
            | inl t ↦
                let settled =
                  first_try-Settles deps tc uri kid alg t later _
                    (keys_for-Leaves deps tc false uri now s w sound) in
                rw (e, k, a, t)
                  (settled.0, λ key h. (header, kid, alg, refl, k, a, settled.1 key h))
          ]
        ]
      ]
    ]

-- While a refresh of a URL is less than the cooldown old and its keys are cached, a forced refresh
-- yields the cached keys, without a request and without a change of state.
pub keys_for_cooling :
    {W Key : Type 0} (deps : Collaborators W Key) (tc : TtlCache JwkSet) (uri : String)
    (last now : ℕ) (s : ResolverState deps tc) (w : W) (keys : JwkSet)
    → tc.cached uri now s.cache ≡ some keys
    → lookup uri s.last_forced_refresh ≡ some last
    → now - last < deps.refresh_cooldown
    → keys_for deps tc true uri now s w ≡ (ok keys, s, w)
unfolding keys_for
keys_for_cooling deps tc uri last now s w keys held before cooling =
    rw (held, before, lt→ltb (now - last) deps.refresh_cooldown cooling) refl
