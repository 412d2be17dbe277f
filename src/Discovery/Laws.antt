-- ===== src/Discovery/Laws.antt =====
-- Which metadata is believed, over the states of the cache.
use mcp_server_auth_template.Base.{
  Bool-cases, String, arith, eq_iff, inl, inr, none, not, refl, some, ℕ, ◌==◌, ◌≡◌, Option,
}
use mcp_server_auth_template.Base.Result.{Result, err, ok}
use mcp_server_auth_template.Base.Value.{Value}
use mcp_server_auth_template.Discovery.{
  remember_metadata, Discovered, OidcMetadata, cached_or_fetched, discover, document_metadata,
  fetch, if_trusted, metadata_of_response, trusted_metadata,
}
use mcp_server_auth_template.Http.{Bytes}
use mcp_server_auth_template.OidcNetwork.{
  NetworkError, Policy, Urls, assert_jwks_uri_trusted, assert_metadata_trusted,
}
use mathlib.Core.Path.{sym, subst}
use mcp_server_auth_template.Jwks.{TtlCache}
use mcp_server_auth_template.Jwks.Resolver.{HttpResponse, TokenVerificationError}
use mcp_server_auth_template.OidcJson.{OidcDocumentError}

module _ {Address : Type 0} (urls : Urls Address) (p : Policy) where
  -- Metadata of the configured issuer, whose keys are at a trusted origin.
  abbrev pub IsTrustedMetadata : OidcMetadata → Type 0
  IsTrustedMetadata m =
      (m.issuer ≡ p.config.issuer_url) × (assert_jwks_uri_trusted urls p m.jwks_uri ≡ ok tt)

  assert_metadata_trusted-eq-ok :
      (m : OidcMetadata) (u : Unit {0})
      → assert_metadata_trusted urls p m.issuer m.jwks_uri ≡ ok u
      → IsTrustedMetadata m
  unfolding assert_metadata_trusted
  assert_metadata_trusted-eq-ok m u h = elim (Bool-cases (not (m.issuer == p.config.issuer_url))) [
    | inl differs ↦ cc (rw differs at h)
    | inr same ↦ (ground (arith, eq_iff m.issuer p.config.issuer_url), rw same at h)
  ]

module _ {W Address : Type 0} (urls : Urls Address) (p : Policy)
    (http_get : String → W → Option HttpResponse × W) (loads : Bytes → Option Value)
    (tc : TtlCache OidcMetadata) where
  open tc use {Cache, cached, put, cached-put}

  -- Whatever the cache can yield at any time is trusted.
  abbrev pub IsSoundCache : Cache → Type 0
  IsSoundCache c =
      (issuer : String) (t : ℕ) (m : OidcMetadata)
      → cached issuer t c ≡ some m
      → IsTrustedMetadata urls p m

  abbrev pub Believes : Result TokenVerificationError OidcMetadata → Type 0
  Believes r = (m : OidcMetadata) → r ≡ ok m → IsTrustedMetadata urls p m

  if_trusted-Believes :
      (m : OidcMetadata) (answer : Result NetworkError (Unit {0}))
      → assert_metadata_trusted urls p m.issuer m.jwks_uri ≡ answer
      → Believes (if_trusted urls p http_get loads tc m answer)
  if_trusted-Believes m (err e) asserted n h = cc
  if_trusted-Believes m (ok u) asserted n h =
      let same : m ≡ n = ground arith in
      subst (IsTrustedMetadata urls p) same (assert_metadata_trusted-eq-ok urls p m u asserted)

  trusted_metadata-Believes :
      (d : Result OidcDocumentError OidcMetadata)
      → Believes (trusted_metadata urls p http_get loads tc d)
  trusted_metadata-Believes (err e) m h = cc
  trusted_metadata-Believes (ok n) m h = if_trusted-Believes n _ refl m h

  response-Believes :
      (o : Option HttpResponse) → Believes (metadata_of_response urls p http_get loads tc o)
  response-Believes none m h = cc
  response-Believes (some r) m h =
      trusted_metadata-Believes (document_metadata urls p http_get loads tc r) m h

  pub fetch-Believes : (w : W) → Believes (fetch urls p http_get loads tc w).0
  unfolding fetch
  fetch-Believes w = response-Believes (http_get p.discovery_url w).0

  -- What a step leaves: a sound cache, and trusted metadata if it succeeded.
  abbrev pub Leaves : Discovered urls p http_get loads tc → Type 0
  Leaves d = IsSoundCache d.1 × Believes d.0

  pub remember_metadata-Leaves :
      (issuer : String) (now : ℕ) (c : Cache) (f : Result TokenVerificationError OidcMetadata × W)
      → IsSoundCache c
      → Believes f.0
      → Leaves (remember_metadata urls p http_get loads tc issuer now c f)
  remember_metadata-Leaves issuer now c (err e, w) sound believes = (sound, believes)
  remember_metadata-Leaves issuer now c (ok m, w) sound believes = (
    λ j t n found. elim (cached-put j issuer m n now t c found) [
      | inl (_, same) ↦ subst (IsTrustedMetadata urls p) (sym same) (believes m refl)
      | inr old ↦ sound j t n old
    ],
    believes,
  )

  cached_or_fetched-Leaves :
      (issuer : String) (now : ℕ) (c : Cache) (w : W) (o : Option OidcMetadata)
      → IsSoundCache c
      → cached issuer now c ≡ o
      → Leaves (cached_or_fetched urls p http_get loads tc issuer now c w o)
  cached_or_fetched-Leaves issuer now c w none sound e =
      remember_metadata-Leaves issuer now c (fetch urls p http_get loads tc w) sound
        (fetch-Believes w)
  cached_or_fetched-Leaves issuer now c w (some m) sound e = (
    sound,
    λ n h.
        let same : m ≡ n = ground arith in
        subst (IsTrustedMetadata urls p) same (sound issuer now m e),
  )

-- From a sound cache discovery leaves a sound cache, and metadata that it returns is that of the
-- configured issuer, under its exact name, with the keys at an origin that the policy trusts; for
-- any other issuer it returns none.
pub discover-IsTrusted :
    {W Address : Type 0} (urls : Urls Address) (p : Policy)
    (http_get : String → W → Option HttpResponse × W) (loads : Bytes → Option Value)
    (tc : TtlCache OidcMetadata) (issuer : String) (now : ℕ) (c : tc.Cache) (w : W)
    → IsSoundCache urls p http_get loads tc c
    → IsSoundCache urls p http_get loads tc (discover urls p http_get loads tc issuer now c w).1
      × ((m : OidcMetadata)
          → (discover urls p http_get loads tc issuer now c w).0 ≡ ok m
          → (issuer ≡ p.config.issuer_url) × IsTrustedMetadata urls p m)
unfolding discover
discover-IsTrusted urls p http_get loads tc issuer now c w sound =
    elim (Bool-cases (not (issuer == p.config.issuer_url))) [
      | inl differs ↦ rw differs (sound, λ m h. cc)
      | inr same ↦
          let left =
            cached_or_fetched-Leaves urls p http_get loads tc issuer now c w _ sound refl in
          rw same (left.0, λ m h. (ground (arith, eq_iff issuer p.config.issuer_url), left.1 m h))
    ]
