-- ===== src/TokenVerifier/Tests.antt =====
-- A verifier whose ports always answer and whose decoder returns one set of claims, where these
-- have what is required.
use mcp_server_auth_template.Base.{
  ap, if◌then◌else◌, ◌&&◌, ◌∙◌, Bool-cases, List, String, [], arith, eq_iff, inl, inr, none, refl,
  some, suc, true, ℕ, ◌==◌, ◌∷◌, ◌≡◌, ◌≢◌, Option,
}
use mcp_server_auth_template.TokenVerifier.Acceptance.{
  ChecksTokens, IsAddressed, IsVerified, verify_generic-IsVerified,
}
use mcp_server_auth_template.Base.Result.{ok}
use mcp_server_auth_template.Base.Sets.{contains, subset}
use mcp_server_auth_template.Base.Sets.Laws.{subset_sound}
use mcp_server_auth_template.Base.Value.{Dict, Value, get, int, lookup, null, pos, str}
use mcp_server_auth_template.ScopeClaims.{
  qualify, qualify_scopes, resource_prefix, scopes_from_claims,
}
use mcp_server_auth_template.TokenVerifier.{
  JwtOptions, Verification, access_token_of, bind_tenant, verify_entra, verify_generic,
}
use mcp_server_auth_template.TokenVerifier.Laws.{
  IsJwtDecoder, verify_entra-IsVerified, verify_generic_total,
}
use mathlib.Core.Path.{subst}
use mcp_server_auth_template.McpPrincipal.{AccessToken, claims_or_empty}

abbrev known_claims : String → String → Dict Value
known_claims issuer audience =
    ("exp", int (pos 100))
    ∷ ("sub", str "user")
    ∷ ("tid", str "tenant")
    ∷ ("scp", str "read")
    ∷ ("iat", int (pos 1))
    ∷ ("iss", str issuer)
    ∷ ("aud", str audience)
    ∷ []

abbrev claim_names : List String
claim_names = "exp" ∷ "iat" ∷ "iss" ∷ "aud" ∷ "sub" ∷ []

unfoldable known_decode : String → String → JwtOptions → Option (Dict Value)
known_decode token key opts =
    if contains "RS256" opts.algorithms && subset opts.require claim_names
    then some (known_claims opts.issuer opts.audience)
    else none

abbrev read_int : Value → Option ℕ
read_int (int (pos n)) = some n
read_int _ = none

abbrev verifier : Verification ℕ String
verifier = record {
  issuer_url = "i";
  audience = "api";
  discovery = λ issuer n. (ok (record { issuer = issuer; jwks_uri = "https://idp/keys" }), suc n);
  key_resolver = λ uri token n. (ok "key", suc n);
  decode = known_decode;
  int_of = read_int;
  print_value = λ value. "?";
}

known_decode-eq-some :
    (token key : String) (opts : JwtOptions) (claims : Dict Value)
    → known_decode token key opts ≡ some claims
    → (contains "RS256" opts.algorithms ≡ true)
      × (subset opts.require claim_names ≡ true)
      × (known_claims opts.issuer opts.audience ≡ claims)
unfolding known_decode
known_decode-eq-some token key opts claims h =
    elim (Bool-cases (contains "RS256" opts.algorithms && subset opts.require claim_names)) [
      | inl e ↦ let h' = rw e at h in (ground (arith, e), ground (arith, e), ground arith)
      | inr e ↦ cc (rw e at h)
    ]

lookup-known :
    (issuer audience name : String)
    → contains name claim_names ≡ true
    → (value : Value) × (lookup name (known_claims issuer audience) ≡ some value) × (value ≢ null)
unfolding contains lookup
lookup-known issuer audience name h = elim (Bool-cases ("exp" == name)) [
  | inl e ↦ rw (← (eq_iff "exp" name).0 e) (_, refl, λ x. cc)
  | inr n1 ↦ elim (Bool-cases ("iat" == name)) [
    | inl e ↦ rw (← (eq_iff "iat" name).0 e) (_, refl, λ x. cc)
    | inr n2 ↦ elim (Bool-cases ("iss" == name)) [
      | inl e ↦ rw (← (eq_iff "iss" name).0 e) (_, refl, λ x. cc)
      | inr n3 ↦ elim (Bool-cases ("aud" == name)) [
        | inl e ↦ rw (← (eq_iff "aud" name).0 e) (_, refl, λ x. cc)
        | inr n4 ↦ elim (Bool-cases ("sub" == name)) [
          | inl e ↦ rw (← (eq_iff "sub" name).0 e) (_, refl, λ x. cc)
          | inr n5 ↦ cc (rw (n1, n2, n3, n4, n5) at h)
        ]
      ]
    ]
  ]
]

verifier-IsJwtDecoder : IsJwtDecoder verifier
unfolding lookup
verifier-IsJwtDecoder = record {
  required = λ token key opts claims name e m.
      let (_, met, same) = known_decode-eq-some token key opts claims e in
      subst (λ c. (value : Value) × (lookup name c ≡ some value) × (value ≢ null)) same
        (lookup-known opts.issuer opts.audience name
          (subset_sound opts.require claim_names name met m));
  numeric_exp = λ token key opts claims value e m found.
      let (_, met, same) = known_decode-eq-some token key opts claims e in
      let exp : int (pos 100) ≡ value = ground (arith, found, same) in
      subst (λ x. (n : ℕ) × (read_int x ≡ some n)) exp (100, refl);
}

verify_generic_total_example : (r : Option AccessToken) × ((verify_generic verifier "t" 0).0 ≡ ok r)
verify_generic_total_example = verify_generic_total verifier "t" 0 verifier-IsJwtDecoder

abbrev rsa : String → Option String
rsa token = some "RS256"

verifier-ChecksTokens : ChecksTokens verifier rsa 50
unfolding lookup get
verifier-ChecksTokens = record {
  decoder = verifier-IsJwtDecoder;
  signed =
      λ token key opts claims e. ("RS256", refl, (known_decode-eq-some token key opts claims e).0);
  issued = λ token key opts claims e.
      subst (λ c. get "iss" c ≡ str opts.issuer) (known_decode-eq-some token key opts claims e).2
        refl;
  addressed = λ token key opts claims e.
      subst (λ c. IsAddressed opts.audience (get "aud" c))
        (known_decode-eq-some token key opts claims e).2 refl;
  unexpired = λ token key opts claims exp n e found number.
      let (_, _, same) = known_decode-eq-some token key opts claims e in
      let hundred : int (pos 100) ≡ exp = ground (arith, found, same) in
      let read : read_int (int (pos 100)) ≡ some n = ap read_int hundred ∙ number in
      let value : 100 ≡ n = ground (arith, read) in omega (arith, value);
}

abbrev accepted : String → AccessToken
accepted issuer = record {
  token = "t";
  client_id = "user";
  scopes = "read" ∷ [];
  expires_at = 100;
  resource = "api";
  subject = some "user";
  claims = some (known_claims issuer "api");
}

verify_generic-IsVerified_example : IsVerified verifier rsa 50 "t" 0 (accepted "i")
unfolding verify_generic access_token_of known_decode get lookup subset contains scopes_from_claims
verify_generic-IsVerified_example =
    verify_generic-IsVerified verifier rsa 50 "t" 0 (accepted "i") verifier-ChecksTokens refl

abbrev tenant_issuer : String
tenant_issuer = "https://login.microsoftonline.com/tenant/v2.0"

abbrev in_tenant : AccessToken
in_tenant = record (accepted tenant_issuer) { scopes = "api://app/read" ∷ [] }

verify_entra-IsVerified_example :
    (u : AccessToken) × ((verify_generic (record verifier { issuer_url = tenant_issuer }) "t" 0).0
      ≡ ok (some u))
    × (get "tid" (claims_or_empty u.claims) ≡ str "tenant")
    × (in_tenant.token ≡ u.token)
    × (in_tenant.client_id ≡ u.client_id)
    × (in_tenant.expires_at ≡ u.expires_at)
    × (in_tenant.resource ≡ u.resource)
    × (in_tenant.subject ≡ u.subject)
    × (in_tenant.claims ≡ u.claims)
    × (in_tenant.scopes ≡ qualify_scopes u.scopes "api://app")
unfolding verify_entra verify_generic bind_tenant access_token_of known_decode get lookup subset
    contains scopes_from_claims qualify_scopes qualify resource_prefix
verify_entra-IsVerified_example =
    verify_entra-IsVerified verifier "tenant" "api://app" "t" 0 in_tenant refl
