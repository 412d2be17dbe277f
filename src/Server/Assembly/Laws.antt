-- ===== src/Server/Assembly/Laws.antt =====
-- The parts of a server that is built from settings that passed the validator.
use mcp_server_auth_template.Base.Result.{>>=-eq-err, ◌>>=◌, Result, err, ok}
use mcp_server_auth_template.OidcNetwork.{network_policy, NetworkError, Policy, Urls}
use mcp_server_auth_template.ProgressiveVerifier.{progressive_verifier}
use mcp_server_auth_template.Server.Assembly.{
  ServerParts, build_auth_settings, build_oidc_network_policy, build_server, build_token_verifier,
  network_config, VerifierParts, entra_parts, entra_verifier, generic_parts, generic_verifier,
  issuer_for, lift_network, lift_policy, policy_of, required_issuer, resolve_issuer_url,
  tenant_text, verifier_for,
}
use mcp_server_auth_template.Server.Registry.{build_tool_authorizer}
use mcp_server_auth_template.Settings.{Python, effective_required_scopes, Settings, is_given}
use mcp_server_auth_template.Settings.Laws.Passed.{settings_of-IsServable}
use mcp_server_auth_template.Settings.Validation.{settings_of, provider_fields}
use mcp_server_auth_template.Base.{
  All, Bool, Option, Option-cases, String, arith, false, inl, inr, none, refl, some, true, ◌||◌,
  ◌≡◌,
}
use mcp_server_auth_template.Base.Text.{is_empty}
use mcp_server_auth_template.McpPrincipal.{AuthProvider, entra, generic}
use mcp_server_auth_template.Server.{ServerError, network, policy}
use mcp_server_auth_template.TokenVerifier.{entra_issuer}
use mcp_server_auth_template.ToolAuthorization.{PolicyError}
use mathlib.Core.Path.{subst}

-- A RuntimeError of the builders themselves, which the validator is to make impossible.
abbrev pub is_own_error : ServerError → Bool
is_own_error (network e) = false
is_own_error (policy e) = false
is_own_error _ = true

lift_network-reports {ℓ} :
    {A : Type ℓ} (r : Result NetworkError A) (e : ServerError)
    → lift_network r ≡ err e
    → is_own_error e ≡ false
lift_network-reports (err n) e h =
    let same : network n ≡ e = ground arith in subst (λ x. is_own_error x ≡ false) same refl
lift_network-reports (ok a) e h = cc

lift_policy-reports {ℓ} :
    {A : Type ℓ} (r : Result PolicyError A) (e : ServerError)
    → lift_policy r ≡ err e
    → is_own_error e ≡ false
lift_policy-reports (err n) e h =
    let same : policy n ≡ e = ground arith in subst (λ x. is_own_error x ≡ false) same refl
lift_policy-reports (ok a) e h = cc

-- The fields that the provider needs are not empty.
abbrev pub Provided : AuthProvider → Settings → Type 0
Provided provider s = All (λ field. is_given (field.1) ≡ true) (provider_fields provider s)

issuer_for-Provided :
    (provider : AuthProvider) (s : Settings)
    → Provided provider s
    → (issuer : String) × (issuer_for provider s ≡ ok issuer)
issuer_for-Provided entra s h = (_, refl)
issuer_for-Provided generic s (given, h) = elim (Option-cases s.generic_issuer_url) [
  | inl absent ↦ cc (rw absent at given)
  | inr (url, e) ↦ (url, rw e refl)
]

module _ {Address : Type 0} (urls : Urls Address) (p : Policy) where
  entra_verifier-given :
      (tenant audience uri : Option String)
      → is_given tenant ≡ true
      → is_given audience ≡ true
      → is_given uri ≡ true
      → (t a u : String) × (tenant ≡ some t)
        × (entra_verifier urls tenant audience uri (ok p) ≡ ok (entra_parts t a u p))
  entra_verifier-given none audience uri h i j = cc
  entra_verifier-given (some t) none uri h i j = cc
  entra_verifier-given (some t) (some a) none h i j = cc
  entra_verifier-given (some t) (some a) (some u) h i j =
      let full : (is_empty t || is_empty a || is_empty u) ≡ false = ground arith in
      (t, a, u, refl, rw full refl)

  generic_verifier-given :
      (issuer audience : Option String)
      → is_given issuer ≡ true
      → is_given audience ≡ true
      → (i a : String) × (issuer ≡ some i)
        × (generic_verifier urls issuer audience (λ _. ok p) ≡ ok (generic_parts i a p))
  generic_verifier-given none audience h i = cc
  generic_verifier-given (some t) none h i = cc
  generic_verifier-given (some t) (some a) h i =
      let full : (is_empty t || is_empty a) ≡ false = ground arith in (t, a, refl, rw full refl)

  -- With a policy at hand and the fields of the provider, the verifier is built, for the issuer that
  -- the settings name and with that policy.
  verifier_for-Provided :
      (provider : AuthProvider) (s : Settings) (issuer : String)
      → Provided provider s
      → issuer_for provider s ≡ ok issuer
      → resolve_issuer_url s ≡ ok issuer
      → (parts : VerifierParts) × (verifier_for urls provider s (some p) ≡ ok parts)
        × (required_issuer parts ≡ issuer)
        × (policy_of parts ≡ p)
  verifier_for-Provided entra s issuer (tenant, (audience, (uri, h))) i r =
      let (t, a, u, given, built) =
        entra_verifier-given s.entra_tenant_id s.entra_audience s.entra_application_id_uri tenant
          audience uri in
      (entra_parts t a u p, rw r built, issuer_ok t given, refl)
    where
      issuer_ok : (t : String) → s.entra_tenant_id ≡ some t → entra_issuer t ≡ issuer
      issuer_ok t given =
          let i' : ok (entra_issuer (tenant_text (some t))) ≡ ok issuer = rw given at i in
          ground arith
  verifier_for-Provided generic s issuer (url, (audience, h)) i r =
      let (t, a, given, built) =
        generic_verifier-given s.generic_issuer_url s.generic_audience url audience in
      let i' : ok t ≡ ok issuer = rw given at i in (generic_parts t a p, built, ground arith, refl)

resolve_issuer_url-Provided :
    (s : Settings)
    → Provided s.auth_provider s
    → (issuer : String) × (resolve_issuer_url s ≡ ok issuer)
unfolding resolve_issuer_url
resolve_issuer_url-Provided s h = issuer_for-Provided s.auth_provider s h

resolve_issuer_url-for :
    (s : Settings) (issuer : String)
    → resolve_issuer_url s ≡ ok issuer
    → issuer_for s.auth_provider s ≡ ok issuer
unfolding resolve_issuer_url
resolve_issuer_url-for s issuer h = h

module _ {Address : Type 0} (urls : Urls Address) where
  pub build_token_verifier-Provided :
      (s : Settings) (issuer : String) (p : Policy)
      → Provided s.auth_provider s
      → resolve_issuer_url s ≡ ok issuer
      → (parts : VerifierParts) × (build_token_verifier urls s (some p) ≡ ok parts)
        × (required_issuer parts ≡ issuer)
        × (policy_of parts ≡ p)
  unfolding build_token_verifier
  build_token_verifier-Provided s issuer p h r =
      verifier_for-Provided urls p s.auth_provider s issuer h (resolve_issuer_url-for s issuer r) r

  -- What build_server goes through when the fields of the provider are given.
  pub record Steps (s : Settings) (result : Result ServerError ServerParts) : Type 0 where
    pub issuer : String
    pub resolved : resolve_issuer_url s ≡ ok issuer
    pub continued :
        (build_oidc_network_policy urls s issuer >>= λ p.
        build_token_verifier urls s (some p) >>= λ verifier.
        lift_policy (build_tool_authorizer s none) >>= λ authorizer. ok (record {
          verifier = verifier;
          authorizer = authorizer;
          progressive =
              progressive_verifier authorizer s.auth_provider (effective_required_scopes s);
          auth = build_auth_settings s issuer;
        }))
        ≡ result

  pub build_server-Steps :
      (s : Settings) (result : Result ServerError ServerParts)
      → Provided s.auth_provider s
      → build_server urls s ≡ result
      → Steps s result
  unfolding build_server
  build_server-Steps s result h b =
      let (issuer, r) = resolve_issuer_url-Provided s h in
      record { issuer = issuer; resolved = r; continued = rw r at b }

  build_server-reports-Provided :
      (s : Settings) (e : ServerError)
      → Provided s.auth_provider s
      → build_server urls s ≡ err e
      → is_own_error e ≡ false
  unfolding build_oidc_network_policy
  build_server-reports-Provided s e h b =
      let steps = build_server-Steps s (err e) h b in
      elim (>>=-eq-err (build_oidc_network_policy urls s steps.issuer) _ steps.continued) [
        | inl raised ↦
            lift_network-reports (network_policy urls (network_config s steps.issuer)) e raised
        | inr (p, _, h1) ↦
            let (parts, built, _, _) =
              build_token_verifier-Provided s steps.issuer p h steps.resolved in
            elim (>>=-eq-err (lift_policy (build_tool_authorizer s none)) _ (rw built at h1)) [
              | inl raised ↦ lift_policy-reports (build_tool_authorizer s none) e raised
              | inr (authorizer, _, h2) ↦ cc
            ]
      ]

  -- From settings that passed the validator, the server is built, or the network policy or a tool
  -- policy is refused: none of the RuntimeErrors for missing provider fields is raised.
  pub build_server-reports :
      (py : Python Address) (s v : Settings) (e : ServerError)
      → settings_of py s ≡ ok v
      → build_server urls v ≡ err e
      → is_own_error e ≡ false
  build_server-reports py s v e h b =
      build_server-reports-Provided v e (settings_of-IsServable py s v h).provider b
