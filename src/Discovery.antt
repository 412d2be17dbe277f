-- ===== src/Discovery.antt =====
-- src/mcp_server_auth_template/adapters/oidc_discovery.py and domain/oidc_metadata.py: the metadata of the
-- configured issuer, from a cache or from its discovery document.
use mcp_server_auth_template.Base.{if◌then◌else◌, String, none, not, some, ℕ, ◌==◌, ◌||◌, Option}
use mcp_server_auth_template.Jwks.Resolver.{
  media_type, HttpResponse, TokenVerificationError, discovery_error,
}
use mcp_server_auth_template.Base.Result.{◌>>=◌, Result, err, ok}
use mcp_server_auth_template.Base.Text.{is_empty}
use mcp_server_auth_template.Base.Value.{Value, get, str}
use mcp_server_auth_template.Http.{Bytes}
use mcp_server_auth_template.OidcNetwork.{
  resolve, Urls, Policy, NetworkError, assert_metadata_trusted,
}
pub mod Laws
pub mod Tasks
pub mod Samples
mod Tests
use mcp_server_auth_template.Jwks.{TtlCache}
use mcp_server_auth_template.OidcJson.{OidcDocumentError, bad_member, parse_json_object}

pub record OidcMetadata : Type 0 where
  pub issuer : String
  pub jwks_uri : String

-- a member that is a non-empty text
abbrev pub text_member : Value → Result OidcDocumentError String
text_member (str s) = if is_empty s then err bad_member else ok s
text_member _ = err bad_member

module _ {W Address : Type 0} (urls : Urls Address) (p : Policy)
    (http_get : String → W → Option HttpResponse × W) (loads : Bytes → Option Value)
    (tc : TtlCache OidcMetadata) where
  open tc use {Cache, cached, put}

  -- the `try` body of `_fetch` from the response on, up to the test of trust
  unfoldable pub document_metadata : HttpResponse → Result OidcDocumentError OidcMetadata
  unfolding media_type
  document_metadata r =
      if not r.status_ok || not (media_type r == "application/json") then err bad_member else do
        document ← parse_json_object loads r.content p.config.discovery_max_bytes
        issuer ← text_member (get "issuer" document)
        jwks_uri ← text_member (get "jwks_uri" document)
        ok (record { issuer = issuer; jwks_uri = jwks_uri })

  abbrev pub if_trusted :
      OidcMetadata → Result NetworkError (Unit {0}) → Result TokenVerificationError OidcMetadata
  if_trusted m (err e) = err discovery_error
  if_trusted m (ok u) = ok m

  abbrev pub trusted_metadata :
      Result OidcDocumentError OidcMetadata → Result TokenVerificationError OidcMetadata
  trusted_metadata (err e) = err discovery_error
  trusted_metadata (ok m) = if_trusted m (assert_metadata_trusted urls p m.issuer m.jwks_uri)

  abbrev pub metadata_of_response : Option HttpResponse → Result TokenVerificationError OidcMetadata
  metadata_of_response none = err discovery_error
  metadata_of_response (some r) = trusted_metadata (document_metadata r)

  -- `_fetch`
  unfoldable pub fetch : W → Result TokenVerificationError OidcMetadata × W
  fetch w = let (response, w') = http_get p.discovery_url w in (metadata_of_response response, w')

  abbrev pub Discovered : Type 0
  Discovered = Result TokenVerificationError OidcMetadata × Cache × W

  abbrev pub remember_metadata :
      String → ℕ → Cache → Result TokenVerificationError OidcMetadata × W → Discovered
  remember_metadata issuer now c (err e, w) = (err e, c, w)
  remember_metadata issuer now c (ok m, w) = (ok m, put issuer m now c, w)

  abbrev pub cached_or_fetched : String → ℕ → Cache → W → Option OidcMetadata → Discovered
  cached_or_fetched issuer now c w (some m) = (ok m, c, w)
  cached_or_fetched issuer now c w none = remember_metadata issuer now c (fetch w)

  -- OidcDiscoveryClient.resolve, at time `now`
  unfoldable pub discover : String → ℕ → Cache → W → Discovered
  discover issuer_base_url now c w =
      if not (issuer_base_url == p.config.issuer_url)
      then (err discovery_error, c, w)
      else cached_or_fetched issuer_base_url now c w (cached issuer_base_url now c)
