-- ===== src/McpPrincipal/Laws.antt =====
-- Which identity a token gives its caller.
use mathlib.Core.Path.{ap₂, subst}
use mcp_server_auth_template.Base.{
  not, String, Bool, true, false, List, [], ◌∷◌, some, ◌≡◌, ◌≢◌, ◌↔◌, ◌⊎◌, inl, inr, refl, arith,
}
use mcp_server_auth_template.Base.Sets.{no_items}
use mcp_server_auth_template.Base.Value.{
  ne_str, get-store, null, lookup, Value, Dict, get, store, equals_str,
}
use mcp_server_auth_template.Principal.{Principal, delegated, application, unknown}
use mcp_server_auth_template.ScopeClaims.{claim_words}
use mcp_server_auth_template.ToolAuthorization.{
  ToolPolicyKind, authenticated, delegated_scopes, application_roles, oauth_scopes, ToolPolicy,
  ToolAuthorizationService, authorize,
}
use mcp_server_auth_template.ToolAuthorization.Decisions.{authorize-PermitsKind, PermitsKind}
use mcp_server_auth_template.McpPrincipal.{
  classify, entra, generic, AccessToken, claims_or_empty, entra_principal_kind,
  principal_from_access_token,
}

classify_iff :
    (ws : List String) (is_app : Bool)
    → ((classify (not (no_items ws)) is_app ≡ application) ↔ ((is_app ≡ true) × (ws ≡ [])))
      × ((classify (not (no_items ws)) is_app ≡ delegated) ↔ ((is_app ≡ false) × (ws ≢ [])))
classify_iff [] is_app = ground arith
classify_iff (w ∷ ws) is_app = ground arith

-- An Entra token is an application's exactly if it says `idtyp=app` and has no delegated scope, and
-- a user's exactly if it has a delegated scope and does not say so; whatever its roles are.
entra_principal_kind_iff :
    (claims : Dict Value) (roles : Value)
    → ((entra_principal_kind claims ≡ application)
        ↔ ((equals_str (get "idtyp" claims) "app" ≡ true) × (claim_words (get "scp" claims) ≡ [])))
      × ((entra_principal_kind claims ≡ delegated) ↔ (
          (equals_str (get "idtyp" claims) "app" ≡ false) × (claim_words (get "scp" claims) ≢ [])))
      × (entra_principal_kind (store "roles" roles claims) ≡ entra_principal_kind claims)
unfolding entra_principal_kind
entra_principal_kind_iff claims roles =
    let (app, user) =
      classify_iff (claim_words (get "scp" claims)) (equals_str (get "idtyp" claims) "app") in
    (
      app,
      user,
      ap₂ (λ s t. classify (not (no_items (claim_words s))) (equals_str t "app"))
          (get-store "scp" "roles" roles claims (ne_str _ _ refl))
          (get-store "idtyp" "roles" roles claims (ne_str _ _ refl)),
    )

PermitsKind-unknown :
    (k : ToolPolicyKind) (p : ToolPolicy) (u : Principal)
    → u.kind ≡ unknown
    → PermitsKind k p u
    → (k ≡ authenticated) ⊎ (k ≡ oauth_scopes)
PermitsKind-unknown authenticated p u e h = inl refl
PermitsKind-unknown oauth_scopes p u e h = inr refl
PermitsKind-unknown delegated_scopes p u e h = cc (h.0)
PermitsKind-unknown application_roles p u e h = cc (h.0)

-- With the generic provider no token passes a policy that asks for a delegated user or an
-- application: what is allowed has a policy on authentication or on OAuth scopes. With Entra, a
-- token without delegated scopes passes no `delegated_scopes` policy, whatever its roles.
pub provider_confines :
    (print_value : Value → String) (service : ToolAuthorizationService) (tool : String)
    (t : AccessToken) (p : ToolPolicy)
    → lookup tool service.policies ≡ some p
    → ((authorize service tool
            (some (principal_from_access_token print_value t generic))).is_allowed
          ≡ true
        → (p.kind ≡ authenticated) ⊎ (p.kind ≡ oauth_scopes))
      × (claim_words (get "scp" (claims_or_empty t.claims)) ≡ []
          → (authorize service tool
              (some (principal_from_access_token print_value t entra))).is_allowed
            ≡ true
          → p.kind ≢ delegated_scopes)
unfolding principal_from_access_token
provider_confines print_value service tool t p found = (
  λ h.
      PermitsKind-unknown p.kind p (principal_from_access_token print_value t generic) refl
        ((authorize-PermitsKind service tool _ p found).0 h),
  λ no_scopes h is_delegated.
      let u = principal_from_access_token print_value t entra in
      let permits : PermitsKind p.kind p u = (authorize-PermitsKind service tool u p found).0 h in
      let by_user : PermitsKind delegated_scopes p u =
        subst (λ k. PermitsKind k p u) is_delegated permits in
      ((entra_principal_kind_iff (claims_or_empty t.claims) null).1.0 by_user.0).1 no_scopes,
)
