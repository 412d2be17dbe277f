-- ===== src/TokenVerifier/Laws.antt =====
-- What a verified token is, and that no exception leaves a verifier.
use mcp_server_auth_template.Base.{
  eq_iff, sym, Bool-cases, String, ap, arith, inl, inr, none, refl, some, true, ℕ, ◌∙◌, ◌≡◌, ◌≢◌,
  Option,
}
use mcp_server_auth_template.Base.Value.{
  arr, bool, float, int, obj, str, Dict, Value, equals_str, get, lookup, null,
}
use Prim.Native.String
use mcp_server_auth_template.Base.Result.{Result, err, ok}
use mcp_server_auth_template.Base.Sets.{contains}
use mcp_server_auth_template.ScopeClaims.{qualify_scopes}
use mcp_server_auth_template.TokenVerifier.{
  JwtOptions, Raised, Verification, access_token, access_token_of, bind_result, bind_tenant,
  client_of, decoded, jwt_options, truthy, verify_entra, verify_generic, with_metadata,
}
use mcp_server_auth_template.Jwks.Resolver.{TokenVerificationError}
use mcp_server_auth_template.Discovery.{OidcMetadata}
use mcp_server_auth_template.McpPrincipal.{AccessToken, claims_or_empty}

module _ {W Key : Type 0} (v : Verification W Key) where
  -- What PyJWT documents of the claims that `decode` returns: a required claim is there and is not
  -- null, and a required `exp` can be read as an integer.
  pub record IsJwtDecoder : Type 0 where
    pub required :
        (token : String) (key : Key) (opts : JwtOptions) (claims : Dict Value) (name : String)
        → v.decode token key opts ≡ some claims
        → contains name opts.require ≡ true
        → (value : Value) × (lookup name claims ≡ some value) × (value ≢ null)
    pub numeric_exp :
        (token : String) (key : Key) (opts : JwtOptions) (claims : Dict Value) (value : Value)
        → v.decode token key opts ≡ some claims
        → contains "exp" opts.require ≡ true
        → lookup "exp" claims ≡ some value
        → (n : ℕ) × (v.int_of value ≡ some n)

  client_of_total :
      (claims : Dict Value) (sub : Value)
      → lookup "sub" claims ≡ some sub
      → (client : Value) × (client_of v claims ≡ ok client)
  client_of_total claims sub found = elim (Bool-cases (truthy (get "azp" claims))) [
    | inl azp ↦ rw azp (_, refl)
    | inr no_azp ↦ elim (Bool-cases (truthy (get "client_id" claims))) [
      | inl client_id ↦ rw (no_azp, client_id) (_, refl)
      | inr no_client ↦ rw (no_azp, no_client, found) (sub, refl)
    ]
  ]

  access_token_of_total :
      (token : String) (claims : Dict Value) (sub exp : Value) (n : ℕ)
      → lookup "sub" claims ≡ some sub
      → lookup "exp" claims ≡ some exp
      → v.int_of exp ≡ some n
      → (t : AccessToken) × (access_token_of v token claims ≡ ok t)
  unfolding access_token_of
  access_token_of_total token claims sub exp n with_sub with_exp number =
      let (client, found) = client_of_total claims sub with_sub in
      rw (found, with_exp, number, with_sub) (_, refl)

  module _ (laws : IsJwtDecoder) (token : String) where
    access_token_total :
        (key : Key) (m : OidcMetadata) (o : Option (Dict Value))
        → v.decode token key (jwt_options v.audience m.issuer) ≡ o
        → (r : Option AccessToken) × (access_token v token o ≡ ok r)
    unfolding contains
    access_token_total key m none e = (none, refl)
    access_token_total key m (some claims) e =
        let opts = jwt_options v.audience m.issuer in
        let (sub, with_sub, _) = laws.required token key opts claims "sub" e refl in
        let (exp, with_exp, _) = laws.required token key opts claims "exp" e refl in
        let (n, number) = laws.numeric_exp token key opts claims exp e refl with_exp in
        let (t, made) = access_token_of_total token claims sub exp n with_sub with_exp number in
        rw made (some t, refl)

    decoded_total :
        (m : OidcMetadata) (k : Result TokenVerificationError Key × W)
        → (r : Option AccessToken) × ((decoded v token m k).0 ≡ ok r)
    decoded_total m (err e, w) = (none, refl)
    decoded_total m (ok key, w) = access_token_total key m _ refl

    with_metadata_total :
        (d : Result TokenVerificationError OidcMetadata × W)
        → (r : Option AccessToken) × ((with_metadata v token d).0 ≡ ok r)
    with_metadata_total (err e, w) = (none, refl)
    with_metadata_total (ok m, w) = decoded_total m _

-- With a decoder that keeps its documented promises, no exception leaves the generic verifier: it
-- returns an access token or None, whatever the ports answer.
pub verify_generic_total :
    {W Key : Type 0} (v : Verification W Key) (token : String) (w : W)
    → IsJwtDecoder v
    → (r : Option AccessToken) × ((verify_generic v token w).0 ≡ ok r)
unfolding verify_generic
verify_generic_total v token w laws = with_metadata_total v laws token _

bind_tenant-eq-some :
    (tenant_id uri : String) (o : Option AccessToken) (t : AccessToken)
    → bind_tenant tenant_id uri o ≡ some t
    → (u : AccessToken) × (o ≡ some u)
      × (equals_str (get "tid" (claims_or_empty u.claims)) tenant_id ≡ true)
      × (record u { scopes = qualify_scopes u.scopes uri } ≡ t)
unfolding bind_tenant
bind_tenant-eq-some tenant_id uri none t h = cc
bind_tenant-eq-some tenant_id uri (some u) t h =
    elim (Bool-cases (equals_str (get "tid" (claims_or_empty u.claims)) tenant_id)) [
      | inl same ↦ (u, refl, same, ground arith)
      | inr differs ↦ cc (rw differs at h)
    ]

bind_result-eq-ok :
    (tenant_id uri : String) (r : Result Raised (Option AccessToken)) (t : AccessToken)
    → bind_result tenant_id uri r ≡ ok (some t)
    → (o : Option AccessToken) × (r ≡ ok o) × (bind_tenant tenant_id uri o ≡ some t)
bind_result-eq-ok tenant_id uri (err e) t h = cc
bind_result-eq-ok tenant_id uri (ok o) t h = (o, refl, ground arith)

equals_str-eq : (value : Value) (s : String) → equals_str value s ≡ true → value ≡ str s
equals_str-eq (str x) s h = ap str ((eq_iff x s).0 h)
equals_str-eq null s h = cc
equals_str-eq (bool b) s h = cc
equals_str-eq (int n) s h = cc
equals_str-eq (float f) s h = cc
equals_str-eq (arr vs) s h = cc
equals_str-eq (obj fs) s h = cc

-- A token that the Entra verifier accepts is one that the generic verifier accepts for the
-- issuer URL of the tenant, with the tenant's id as its `tid` claim, and differs from it in its
-- scopes alone, which are qualified with the application's URI.
pub verify_entra-IsVerified :
    {W Key : Type 0} (v : Verification W Key) (tenant_id uri token : String) (w : W)
    (t : AccessToken)
    → (verify_entra v tenant_id uri token w).0 ≡ ok (some t)
    → (u : AccessToken) × ((verify_generic
          (record v {
            issuer_url =
                String.◌++◌ "https://login.microsoftonline.com/" (String.◌++◌ tenant_id "/v2.0");
          })
          token
          w).0
        ≡ ok (some u))
      × (get "tid" (claims_or_empty u.claims) ≡ str tenant_id)
      × (t.token ≡ u.token)
      × (t.client_id ≡ u.client_id)
      × (t.expires_at ≡ u.expires_at)
      × (t.resource ≡ u.resource)
      × (t.subject ≡ u.subject)
      × (t.claims ≡ u.claims)
      × (t.scopes ≡ qualify_scopes u.scopes uri)
unfolding verify_entra
verify_entra-IsVerified v tenant_id uri token w t h =
    let (o, by_generic, bound) = bind_result-eq-ok tenant_id uri _ t h in
    let (u, found, tenant, same) = bind_tenant-eq-some tenant_id uri o t bound in
    (
      u,
      by_generic ∙ ap ok found,
      equals_str-eq (get "tid" (claims_or_empty u.claims)) tenant_id tenant,
      sym (ap (λ (x : AccessToken). x.token) same),
      sym (ap (λ (x : AccessToken). x.client_id) same),
      sym (ap (λ (x : AccessToken). x.expires_at) same),
      sym (ap (λ (x : AccessToken). x.resource) same),
      sym (ap (λ (x : AccessToken). x.subject) same),
      sym (ap (λ (x : AccessToken). x.claims) same),
      sym (ap (λ (x : AccessToken). x.scopes) same),
    )
