-- ===== src/Jwks/Resolver.antt =====
-- The stateful part of jwks_key_resolver.py: `resolve`, `_keys_for` and `_fetch_keys`.
use mcp_server_auth_template.Base.{
  eqb, if◌then◌else◌, ℕ, ◌-◌, String, Bool, true, false, not, ◌||◌, Option, none, some, List, ltb,
  length, ◌==◌,
}
use mcp_server_auth_template.Http.{lower, Bytes}
use Prim.Native.Char.{code}
use mcp_server_auth_template.Base.Sets.{contains}
use mcp_server_auth_template.Base.Value.{Value, str, arr, items, Dict, get, lookup, store}
use mcp_server_auth_template.Base.Result.{Result, ok, err, ◌>>=◌}
use mcp_server_auth_template.OidcJson.{OidcDocumentError, bad_member, parse_json_object}
use mcp_server_auth_template.Jwks.{
  JwkSet, TtlCache, accepted_algorithms, bounded_kid, index_keys, compatible_key,
}

-- domain/auth_errors.py: the subclasses of TokenVerificationError.
pub data TokenVerificationError : Type 0 where
  discovery_error signing_key_error claim_validation_error : TokenVerificationError

-- An httpx response: whether `raise_for_status` passes, the Content-Type header (empty where there is
-- none), and the body.
pub record HttpResponse : Type 0 where
  pub status_ok : Bool
  pub content_type : String
  pub content : Bytes

-- `s.split(";", maxsplit=1)[0]`
unfoldable pub before_semicolon : String → String
before_semicolon String.[] = String.[]
before_semicolon (String.◌∷◌ c s) =
    let rest = before_semicolon s in if eqb (code c) b';' then String.[] else String.◌∷◌ c rest

-- The media type of a response. `.lower()` is that of ASCII: no other character becomes one of the
-- letters of the JSON media types.
unfoldable pub media_type : HttpResponse → String
unfolding before_semicolon lower
media_type r = lower (before_semicolon r.content_type)

-- What the resolver is built from: the HTTP client on a world `W`, the network policy's test of a
-- JWKS URL and its size limit, PyJWT, and the JSON decoder.
pub record Collaborators (W Key : Type 0) : Type 0 where
  pub http_get : String → W → Option HttpResponse × W
  pub trusted : String → Bool
  pub jwks_max_bytes : ℕ
  pub unverified_header : String → Option (Dict Value)
  pub from_dict : Dict Value → String → Option Key
  pub loads : Bytes → Option Value
  pub max_keys : ℕ
  pub refresh_cooldown : ℕ

abbrev pub text_in : List String → Value → Option String
text_in allowed (str s) = if contains s allowed then some s else none
text_in allowed _ = none

module _ {W Key : Type 0} (deps : Collaborators W Key) (tc : TtlCache JwkSet) where
  open tc use {Cache, cached, put}

  pub record ResolverState : Type 0 where
    pub cache : Cache
    pub last_forced_refresh : Dict ℕ

  abbrev pub keys_member : Value → Result OidcDocumentError JwkSet
  keys_member (arr vs) =
      if ltb deps.max_keys (length (items vs)) then err bad_member else index_keys (items vs)
  keys_member _ = err bad_member

  -- the `try` body of `_fetch_keys` from the response on
  unfoldable pub document_keys : HttpResponse → Result OidcDocumentError JwkSet
  unfolding media_type
  document_keys r =
      if not r.status_ok
        || not (media_type r == "application/json" || media_type r == "application/jwk-set+json")
      then err bad_member
      else do
        document ← parse_json_object deps.loads r.content deps.jwks_max_bytes
        keys_member (get "keys" document)

  abbrev pub signing_key {ℓ} :
      {A : Type ℓ} → Result OidcDocumentError A → Result TokenVerificationError A
  signing_key (ok a) = ok a
  signing_key (err e) = err signing_key_error

  abbrev pub keys_of_response : Option HttpResponse → Result TokenVerificationError JwkSet
  keys_of_response none = err signing_key_error
  keys_of_response (some r) = signing_key (document_keys r)

  -- `_fetch_keys`
  unfoldable pub fetch_keys : String → W → Result TokenVerificationError JwkSet × W
  fetch_keys uri w =
      if deps.trusted uri
      then (let (response, w') = deps.http_get uri w in (keys_of_response response, w'))
      else (err signing_key_error, w)

  -- The keys or the error, with the new state and world.
  abbrev pub Fetched : Type 0
  Fetched = Result TokenVerificationError JwkSet × ResolverState × W

  abbrev pub remember :
      String → ℕ → ResolverState → Result TokenVerificationError JwkSet × W → Fetched
  remember uri now s (ok keys, w) = (ok keys, record s { cache = put uri keys now s.cache }, w)
  remember uri now s (err e, w) = (err e, s, w)

  -- the end of the locked section
  unfoldable pub fetch_and_store : String → ℕ → ResolverState → W → Fetched
  fetch_and_store uri now s w = remember uri now s (fetch_keys uri w)

  -- `now - last_refresh < cooldown`, for an earlier refresh
  abbrev pub is_cooling : ℕ → Option ℕ → Bool
  is_cooling now none = false
  is_cooling now (some last) = ltb (now - last) deps.refresh_cooldown

  -- the locked section with `force_refresh`
  abbrev pub refresh : String → ℕ → ResolverState → W → Option JwkSet → Fetched
  refresh uri now s w none = fetch_and_store uri now s w
  refresh uri now s w (some keys) =
      if is_cooling now (lookup uri s.last_forced_refresh)
      then (ok keys, s, w)
      else fetch_and_store uri now
          (record s { last_forced_refresh = store uri now s.last_forced_refresh }) w

  abbrev pub or_fetch : String → ℕ → ResolverState → W → Option JwkSet → Fetched
  or_fetch uri now s w none = fetch_and_store uri now s w
  or_fetch uri now s w (some keys) = (ok keys, s, w)

  -- `_keys_for`, without and with `force_refresh`
  unfoldable pub keys_for : Bool → String → ℕ → ResolverState → W → Fetched
  keys_for false uri now s w = or_fetch uri now s w (cached uri now s.cache)
  keys_for true uri now s w = refresh uri now s w (cached uri now s.cache)

  abbrev pub Resolved : Type 0
  Resolved = Result TokenVerificationError Key × ResolverState × W

  -- the part of `resolve` after the forced refresh
  abbrev pub second_try : String → String → Fetched → Resolved
  second_try kid alg (err e, s, w) = (err e, s, w)
  second_try kid alg (ok keys, s, w) = elim (compatible_key deps.from_dict keys kid alg) [
    | none ↦ (err signing_key_error, s, w)
    | some key ↦ (ok key, s, w)
  ]

  abbrev pub first_try : String → ℕ → String → String → Fetched → Resolved
  first_try uri later kid alg (err e, s, w) = (err e, s, w)
  first_try uri later kid alg (ok keys, s, w) = elim (compatible_key deps.from_dict keys kid alg) [
    | none ↦ second_try kid alg (keys_for true uri later s w)
    | some key ↦ (ok key, s, w)
  ]

  abbrev pub resolve_with :
      String → ℕ → ℕ → ResolverState → W → Option String → Option String → Resolved
  resolve_with uri now later s w (some kid) (some alg) =
      if deps.trusted uri
      then first_try uri later kid alg (keys_for false uri now s w)
      else (err signing_key_error, s, w)
  resolve_with uri now later s w _ _ = (err signing_key_error, s, w)

  abbrev pub resolve_header : String → ℕ → ℕ → ResolverState → W → Option (Dict Value) → Resolved
  resolve_header uri now later s w none = (err signing_key_error, s, w)
  resolve_header uri now later s w (some header) =
      resolve_with uri now later s w (bounded_kid (get "kid" header))
        (text_in accepted_algorithms (get "alg" header))

  -- `resolve`, which reads the keys at time `now` and refreshes them at time `later` if it has to.
  unfoldable pub resolve : String → String → ℕ → ℕ → ResolverState → W → Resolved
  resolve uri token now later s w = resolve_header uri now later s w (deps.unverified_header token)
