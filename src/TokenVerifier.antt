-- ===== src/TokenVerifier.antt =====
-- src/mcp_server_auth_template/adapters/generic_oidc_token_verifier.py and
-- src/mcp_server_auth_template/adapters/entra_token_verifier.py: the verifiers of bearer tokens. The two
-- ports (application/auth_ports.py) act on a world `W`; PyJWT is a parameter.
use mcp_server_auth_template.Base.{
  Bool, List, String, [], eqb, false, if◌then◌else◌, none, not, some, true, ℕ, ◌++◌, ◌==◌, ◌||◌,
  ◌∷◌, Option,
}
use mcp_server_auth_template.Base.Result.{◌>>=◌, Result, err, ok}
use mcp_server_auth_template.Base.Text.{is_empty}
use mcp_server_auth_template.Base.Value.{
  Dict, Value, arr, bool, cons, end, equals_str, field, float, get, int, lookup, negsuc, nil, null,
  obj, pos, str,
}
use mcp_server_auth_template.OidcNetwork.{discovery}
use mcp_server_auth_template.ProgressiveVerifier.{verify_token}
use mcp_server_auth_template.ScopeClaims.{qualify_scopes, scopes_from_claims}
pub mod Laws
pub mod Acceptance
mod Tests
use Prim.Native.String
use mcp_server_auth_template.Jwks.Resolver.{TokenVerificationError}
use mcp_server_auth_template.Discovery.{OidcMetadata}
use mcp_server_auth_template.McpPrincipal.{AccessToken, text_of, claims_or_empty}

-- The keyword arguments of `jwt.decode`.
pub record JwtOptions : Type 0 where
  pub algorithms : List String
  pub audience : String
  pub issuer : String
  pub leeway : ℕ
  pub require : List String

-- What a verifier is built from. `decode` is `jwt.decode` at the time of the call, `none` where it
-- raises InvalidTokenError; `int_of` is Python's `int`, `none` where it raises; `print_value` is
-- Python's `str` of a value that is no text.
pub record Verification (W Key : Type 0) : Type 0 where
  pub issuer_url : String
  pub audience : String
  pub discovery : String → W → Result TokenVerificationError OidcMetadata × W
  pub key_resolver : String → String → W → Result TokenVerificationError Key × W
  pub decode : String → Key → JwtOptions → Option (Dict Value)
  pub int_of : Value → Option ℕ
  pub print_value : Value → String

-- The exceptions that leave `verify_token`: `claims["sub"]` without the claim, and `int(...)`.
pub data Raised : Type 0 where
  key_error value_error : Raised

-- `bool(value)`
abbrev pub truthy : Value → Bool
truthy null = false
truthy (bool b) = b
truthy (int (pos n)) = not (eqb n 0)
truthy (int (negsuc n)) = true
truthy (float t) = not (t == "0.0" || t == "-0.0")
truthy (str s) = not (is_empty s)
truthy (arr nil) = false
truthy (arr (cons v vs)) = true
truthy (obj end) = false
truthy (obj (field k v fs)) = true

abbrev pub jwt_options : String → String → JwtOptions
jwt_options audience issuer = record {
  algorithms = "RS256" ∷ "ES256" ∷ [];
  audience = audience;
  issuer = issuer;
  leeway = 60;
  require = "exp" ∷ "iat" ∷ "iss" ∷ "aud" ∷ "sub" ∷ [];
}

module _ {W Key : Type 0} (v : Verification W Key) where
  abbrev pub present : Option Value → Result Raised Value
  present none = err key_error
  present (some value) = ok value

  -- `claims.get("azp") or claims.get("client_id") or claims["sub"]`
  abbrev pub client_of : Dict Value → Result Raised Value
  client_of claims =
      if truthy (get "azp" claims)
      then ok (get "azp" claims)
      else if truthy (get "client_id" claims)
      then ok (get "client_id" claims)
      else present (lookup "sub" claims)

  abbrev pub converted : Option ℕ → Result Raised ℕ
  converted none = err value_error
  converted (some n) = ok n

  -- the construction of the AccessToken, its arguments in order
  unfoldable pub access_token_of : String → Dict Value → Result Raised AccessToken
  access_token_of token claims = do
    client ← client_of claims
    exp ← present (lookup "exp" claims)
    expires_at ← converted (v.int_of exp)
    sub ← present (lookup "sub" claims)
    ok (record {
      token = token;
      client_id = text_of v.print_value client;
      scopes = scopes_from_claims claims;
      expires_at = expires_at;
      resource = v.audience;
      subject = some (text_of v.print_value sub);
      claims = some claims;
    })

  abbrev pub access_token : String → Option (Dict Value) → Result Raised (Option AccessToken)
  access_token token none = ok none
  access_token token (some claims) = access_token_of token claims >>= λ t. ok (some t)

  abbrev pub decoded :
      String
      → OidcMetadata
      → Result TokenVerificationError Key × W
      → Result Raised (Option AccessToken) × W
  decoded token m (err e, w) = (ok none, w)
  decoded token m (ok key, w) =
      (access_token token (v.decode token key (jwt_options v.audience m.issuer)), w)

  abbrev pub with_metadata :
      String
      → Result TokenVerificationError OidcMetadata × W
      → Result Raised (Option AccessToken) × W
  with_metadata token (err e, w) = (ok none, w)
  with_metadata token (ok m, w) = decoded token m (v.key_resolver m.jwks_uri token w)

  -- GenericOidcTokenVerifier.verify_token
  unfoldable pub verify_generic : String → W → Result Raised (Option AccessToken) × W
  verify_generic token w = with_metadata token (v.discovery v.issuer_url w)

-- the part of EntraTokenVerifier.verify_token behind the delegate's
unfoldable pub bind_tenant : String → String → Option AccessToken → Option AccessToken
bind_tenant tenant_id uri none = none
bind_tenant tenant_id uri (some t) =
    if not (equals_str (get "tid" (claims_or_empty t.claims)) tenant_id)
    then none
    else some (record t { scopes = qualify_scopes t.scopes uri })

abbrev pub bind_result :
    String → String → Result Raised (Option AccessToken) → Result Raised (Option AccessToken)
bind_result tenant_id uri (err e) = err e
bind_result tenant_id uri (ok t) = ok (bind_tenant tenant_id uri t)

-- `_ENTRA_ISSUER_TEMPLATE.format(tenant_id=tenant_id)`
abbrev pub entra_issuer : String → String
entra_issuer tenant_id =
    String.◌++◌ "https://login.microsoftonline.com/" (String.◌++◌ tenant_id "/v2.0")

-- EntraTokenVerifier.verify_token, with the delegate that its constructor builds
unfoldable pub verify_entra :
    {W Key : Type 0}
    → Verification W Key
    → String
    → String
    → String
    → W
    → Result Raised (Option AccessToken) × W
verify_entra v tenant_id uri token w =
    let (result, w') = verify_generic (record v { issuer_url = entra_issuer tenant_id }) token w in
    (bind_result tenant_id uri result, w')
