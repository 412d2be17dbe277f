-- ===== src/TokenVerifier/Acceptance.antt =====
-- What a token is that a verifier accepts, if PyJWT checks what it documents.
-- The claim names the audience, alone or among others.
use mcp_server_auth_template.Base.{
  Bool-cases, Exists, Option, String, [], ap, arith, eq_iff, false, inl, inr, none, refl, some, sym,
  true, ℕ, ◌+◌, ◌<◌, ◌==◌, ◌∙◌, ◌∷◌, ◌≡◌, ◌≢◌, ◌⊎◌,
}
use mcp_server_auth_template.Base.Result.{>>=-eq-ok, Result, err, ok}
use mcp_server_auth_template.Base.Sets.{contains}
use mcp_server_auth_template.Base.Value.{Dict, Value, arr, get, items, lookup, null, str}
use mcp_server_auth_template.Discovery.{OidcMetadata}
use mcp_server_auth_template.Jwks.Resolver.{TokenVerificationError}
use mcp_server_auth_template.McpPrincipal.{AccessToken, text_of}
use mcp_server_auth_template.ScopeClaims.{scopes_from_claims}
use mcp_server_auth_template.TokenVerifier.{
  decoded, JwtOptions, Verification, access_token, access_token_of, client_of, converted,
  jwt_options, present, truthy, verify_generic, with_metadata,
}
use mcp_server_auth_template.TokenVerifier.Laws.{IsJwtDecoder}

abbrev pub IsAddressed : String → Value → Type 0
IsAddressed audience (str s) = s ≡ audience
IsAddressed audience (arr vs) = Exists (λ v. v ≡ str audience) (items vs)
IsAddressed audience _ = ⊥

-- What PyJWT documents that `decode` has checked when it returns claims, at the time `now`, for the
-- algorithm that the token's header names.
pub record ChecksTokens {W Key : Type 0} (v : Verification W Key) (alg_of : String → Option String)
    (now : ℕ) : Type 0 where
  pub decoder : IsJwtDecoder v
  pub signed :
      (token : String) (key : Key) (opts : JwtOptions) (claims : Dict Value)
      → v.decode token key opts ≡ some claims
      → (alg : String) × (alg_of token ≡ some alg) × (contains alg opts.algorithms ≡ true)
  pub issued :
      (token : String) (key : Key) (opts : JwtOptions) (claims : Dict Value)
      → v.decode token key opts ≡ some claims
      → get "iss" claims ≡ str opts.issuer
  pub addressed :
      (token : String) (key : Key) (opts : JwtOptions) (claims : Dict Value)
      → v.decode token key opts ≡ some claims
      → IsAddressed opts.audience (get "aud" claims)
  pub unexpired :
      (token : String) (key : Key) (opts : JwtOptions) (claims : Dict Value) (exp : Value) (n : ℕ)
      → v.decode token key opts ≡ some claims
      → lookup "exp" claims ≡ some exp
      → v.int_of exp ≡ some n
      → now < n + opts.leeway

-- The claim is there and not null.
abbrev pub IsGiven : String → Dict Value → Type 0
IsGiven name claims = (value : Value) × (lookup name claims ≡ some value) × (value ≢ null)

-- The client is the `azp`, or else the `client_id`, or else the `sub`.
abbrev pub IsClient : Dict Value → Value → Type 0
IsClient claims client =
    ((truthy (get "azp" claims) ≡ true) × (client ≡ get "azp" claims))
    ⊎ ((truthy (get "azp" claims) ≡ false)
        × (truthy (get "client_id" claims) ≡ true)
        × (client ≡ get "client_id" claims))
    ⊎ ((truthy (get "azp" claims) ≡ false)
        × (truthy (get "client_id" claims) ≡ false)
        × (lookup "sub" claims ≡ some client))

-- The fields of the access token that come from the claims.
pub record IsReadFrom {W Key : Type 0} (v : Verification W Key) (token : String)
    (claims : Dict Value) (t : AccessToken) : Type 0 where
  pub claims_kept : t.claims ≡ some claims
  pub scopes_read : t.scopes ≡ scopes_from_claims claims
  pub bound : t.resource ≡ v.audience
  pub same_token : t.token ≡ token
  pub client : (c : Value) × IsClient claims c × (t.client_id ≡ text_of v.print_value c)
  pub exp : Value
  pub has_exp : lookup "exp" claims ≡ some exp
  pub expiry : v.int_of exp ≡ some t.expires_at
  pub sub : Value
  pub has_sub : lookup "sub" claims ≡ some sub
  pub subject : t.subject ≡ some (text_of v.print_value sub)

-- How a verifier came to an access token, and what the token says.
pub record IsVerified {W Key : Type 0} (v : Verification W Key) (alg_of : String → Option String)
    (now : ℕ) (token : String) (w : W) (t : AccessToken) : Type 0 where
  pub metadata : OidcMetadata
  pub discovered : (v.discovery v.issuer_url w).0 ≡ ok metadata
  pub key : Key
  pub resolved : (v.key_resolver metadata.jwks_uri token (v.discovery v.issuer_url w).1).0 ≡ ok key
  pub claims : Dict Value
  pub opts : JwtOptions
  pub decoded : v.decode token key opts ≡ some claims
  pub read : IsReadFrom v token claims t
  pub algorithm : (alg_of token ≡ some "RS256") ⊎ (alg_of token ≡ some "ES256")
  pub issuer : get "iss" claims ≡ str metadata.issuer
  pub audience : IsAddressed v.audience (get "aud" claims)
  pub in_time : now < t.expires_at + 60
  pub has_iat : IsGiven "iat" claims
  pub has_sub : IsGiven "sub" claims

present-eq-ok :
    {W Key : Type 0} (v : Verification W Key) (o : Option Value) (value : Value)
    → present v o ≡ ok value
    → o ≡ some value
present-eq-ok v none value h = cc
present-eq-ok v (some x) value h = ap some (ground arith)

converted-eq-ok :
    {W Key : Type 0} (v : Verification W Key) (o : Option ℕ) (n : ℕ)
    → converted v o ≡ ok n
    → o ≡ some n
converted-eq-ok v none n h = cc
converted-eq-ok v (some x) n h = ap some (ground arith)

either_of :
    (alg : String)
    → contains alg ("RS256" ∷ "ES256" ∷ []) ≡ true
    → (alg ≡ "RS256") ⊎ (alg ≡ "ES256")
unfolding contains
either_of alg h = elim (Bool-cases ("RS256" == alg)) [
  | inl rsa ↦ inl (sym ((eq_iff "RS256" alg).0 rsa))
  | inr other ↦ inr (sym ((eq_iff "ES256" alg).0 (ground arith)))
]

client_of-IsClient :
    {W Key : Type 0} (v : Verification W Key) (claims : Dict Value) (client : Value)
    → client_of v claims ≡ ok client
    → IsClient claims client
client_of-IsClient v claims client h = elim (Bool-cases (truthy (get "azp" claims))) [
  | inl azp ↦ let h' = rw azp at h in inl (azp, ground arith)
  | inr no_azp ↦ elim (Bool-cases (truthy (get "client_id" claims))) [
    | inl named ↦ let h' = rw (no_azp, named) at h in inr (inl (no_azp, named, ground arith))
    | inr unnamed ↦ inr (
        inr (
          no_azp,
          unnamed,
          present-eq-ok v (lookup "sub" claims) client (rw (no_azp, unnamed) at h),
        ))
  ]
]

module _ {W Key : Type 0} (v : Verification W Key) (token : String) (t : AccessToken) where
  access_token_of-IsReadFrom :
      (claims : Dict Value) → access_token_of v token claims ≡ ok t → IsReadFrom v token claims t
  unfolding access_token_of
  access_token_of-IsReadFrom claims h =
      let (client, found, h1) = >>=-eq-ok (client_of v claims) _ h in
      let (exp, has_exp, h2) = >>=-eq-ok (present v (lookup "exp" claims)) _ h1 in
      let (n, number, h3) = >>=-eq-ok (converted v (v.int_of exp)) _ h2 in
      let (sub, has_sub, made) = >>=-eq-ok (present v (lookup "sub" claims)) _ h3 in
      let same : n ≡ t.expires_at = ground arith in
      record {
        claims_kept = ground arith;
        scopes_read = ground arith;
        bound = ground arith;
        same_token = ground arith;
        client = (client, client_of-IsClient v claims client found, ground arith);
        exp = exp;
        has_exp = present-eq-ok v (lookup "exp" claims) exp has_exp;
        expiry = converted-eq-ok v (v.int_of exp) n number ∙ ap some same;
        sub = sub;
        has_sub = present-eq-ok v (lookup "sub" claims) sub has_sub;
        subject = ground arith;
      }

  access_token-eq-some :
      (o : Option (Dict Value))
      → access_token v token o ≡ ok (some t)
      → (claims : Dict Value) × (o ≡ some claims) × (access_token_of v token claims ≡ ok t)
  access_token-eq-some none h = cc
  access_token-eq-some (some claims) h =
      let (u, made, e) = >>=-eq-ok (access_token_of v token claims) (λ u. ok (some u)) h in
      let same : u ≡ t = ground arith in (claims, refl, made ∙ ap ok same)

  module _ (alg_of : String → Option String) (now : ℕ) (laws : ChecksTokens v alg_of now)
      (w : W) where
    decoded-IsVerified :
        (m : OidcMetadata) (k : Result TokenVerificationError Key) (w' : W)
        → (v.discovery v.issuer_url w).0 ≡ ok m
        → (v.key_resolver m.jwks_uri token (v.discovery v.issuer_url w).1).0 ≡ k
        → (decoded v token m (k, w')).0 ≡ ok (some t)
        → IsVerified v alg_of now token w t
    unfolding contains
    decoded-IsVerified m (err e) w' discovered resolved h = cc
    decoded-IsVerified m (ok key) w' discovered resolved h =
        let (claims, same, made) = access_token-eq-some _ h in
        let opts = jwt_options v.audience m.issuer in
        let read = access_token_of-IsReadFrom claims made in
        let (alg, named, listed) = laws.signed token key opts claims same in
        record {
          metadata = m;
          discovered = discovered;
          key = key;
          resolved = resolved;
          claims = claims;
          opts = opts;
          decoded = same;
          read = read;
          algorithm = elim (either_of alg listed) [
            | inl rsa ↦ inl (named ∙ ap some rsa)
            | inr ec ↦ inr (named ∙ ap some ec)
          ];
          issuer = laws.issued token key opts claims same;
          audience = laws.addressed token key opts claims same;
          in_time =
              laws.unexpired token key opts claims read.exp t.expires_at same read.has_exp
                read.expiry;
          has_iat = laws.decoder.required token key opts claims "iat" same refl;
          has_sub = laws.decoder.required token key opts claims "sub" same refl;
        }

    with_metadata-IsVerified :
        (d : Result TokenVerificationError OidcMetadata)
        → (v.discovery v.issuer_url w).0 ≡ d
        → (with_metadata v token (d, (v.discovery v.issuer_url w).1)).0 ≡ ok (some t)
        → IsVerified v alg_of now token w t
    with_metadata-IsVerified (err e) discovered h = cc
    with_metadata-IsVerified (ok m) discovered h = decoded-IsVerified m _ _ discovered refl h

-- If PyJWT checks what it documents, a token that the generic verifier accepts at a time is signed
-- with RS256 or ES256; its `iss` is the issuer of the discovered metadata and its `aud` names the
-- verifier's audience; it has not expired by more than a minute, and has `iat` and `sub`; the key is
-- the one that the resolver finds for it in that issuer's JWKS; and the access token has these claims
-- and, read from them, the scopes, the client, the expiry and the subject.
pub verify_generic-IsVerified :
    {W Key : Type 0} (v : Verification W Key) (alg_of : String → Option String) (now : ℕ)
    (token : String) (w : W) (t : AccessToken)
    → ChecksTokens v alg_of now
    → (verify_generic v token w).0 ≡ ok (some t)
    → IsVerified v alg_of now token w t
unfolding verify_generic
verify_generic-IsVerified v alg_of now token w t laws h =
    with_metadata-IsVerified v token t alg_of now laws w _ refl h
