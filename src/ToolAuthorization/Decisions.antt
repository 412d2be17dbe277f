-- ===== src/ToolAuthorization/Decisions.antt =====
-- ToolAuthorizationService against a declarative account of what a policy permits.
use mcp_server_auth_template.Base.{
  String, true, List, Option, none, some, ◌≡◌, ◌↔◌, inl, inr, refl, arith, Option-cases,
}
use mcp_server_auth_template.Base.Sets.{contains, subset}
use mcp_server_auth_template.Base.Sets.Laws.{subset_sound, subset_complete}
use mcp_server_auth_template.Base.Value.{lookup}
use mcp_server_auth_template.Principal.{Principal, PrincipalKind, delegated, application, unknown}
use mcp_server_auth_template.ToolAuthorization.{
  ToolPolicyKind, authenticated, delegated_scopes, application_roles, oauth_scopes, ToolPolicy,
  ToolAuthorizationService, permission_decision, decide_kind, decide, authorize, is_visible,
}

-- Every permission of the policy is among the granted ones.
abbrev pub Grants : List String → ToolPolicy → Type 0
Grants granted policy =
    (a : String) → contains a policy.permissions ≡ true → contains a granted ≡ true

-- What a policy asks of a principal.
abbrev pub PermitsKind : ToolPolicyKind → ToolPolicy → Principal → Type 0
PermitsKind authenticated policy u = Unit
PermitsKind delegated_scopes policy u = (u.kind ≡ delegated) × Grants u.scopes policy
PermitsKind application_roles policy u = (u.kind ≡ application) × Grants u.roles policy
PermitsKind oauth_scopes policy u = Grants u.scopes policy

module _ (policy : ToolPolicy) (u : Principal) where
  subset→Grants :
      (granted : List String) → subset policy.permissions granted ≡ true → Grants granted policy
  subset→Grants granted h a m = subset_sound policy.permissions granted a h m

  Grants→subset :
      (granted : List String) → Grants granted policy → subset policy.permissions granted ≡ true
  Grants→subset granted g = subset_complete policy.permissions granted g

  permission_decision-allows :
      (granted : List String)
      → ((permission_decision policy granted).is_allowed ≡ true) ↔ Grants granted policy
  unfolding permission_decision
  permission_decision-allows granted =
      (λ h. subset→Grants granted (ground arith), λ g. rw (Grants→subset granted g) refl)

  decide_kind-allows :
      (kind : ToolPolicyKind) (who : PrincipalKind)
      → u.kind ≡ who
      → ((decide_kind kind who policy u).is_allowed ≡ true) ↔ PermitsKind kind policy u
  unfolding decide_kind
  decide_kind-allows authenticated who e = (λ _. tt, λ _. refl)
  decide_kind-allows delegated_scopes delegated e =
      let (to, from) = permission_decision-allows u.scopes in (λ h. (e, to h), λ p. from p.1)
  decide_kind-allows delegated_scopes application e = (λ h. cc, λ p. cc (p.0))
  decide_kind-allows delegated_scopes unknown e = (λ h. cc, λ p. cc (p.0))
  decide_kind-allows application_roles application e =
      let (to, from) = permission_decision-allows u.roles in (λ h. (e, to h), λ p. from p.1)
  decide_kind-allows application_roles delegated e = (λ h. cc, λ p. cc (p.0))
  decide_kind-allows application_roles unknown e = (λ h. cc, λ p. cc (p.0))
  decide_kind-allows oauth_scopes who e = permission_decision-allows u.scopes

-- There is a registered policy and an authenticated principal that it permits.
pub record IsPermitted (service : ToolAuthorizationService) (tool : String) (who : Option Principal)
    : Type 0 where
  pub policy : ToolPolicy
  pub registered : lookup tool service.policies ≡ some policy
  pub principal : Principal
  pub present : who ≡ some principal
  pub permits : PermitsKind policy.kind policy principal

module _ (service : ToolAuthorizationService) (tool : String) where
  authorize_sound :
      (who : Option Principal)
      → (authorize service tool who).is_allowed ≡ true
      → IsPermitted service tool who
  unfolding authorize decide
  authorize_sound none h = elim (Option-cases (lookup tool service.policies)) [
    | inl missing ↦ cc (rw (missing, decide) at h)
    | inr (p, found) ↦ cc (rw (found, decide) at h)
  ]
  authorize_sound (some u) h = elim (Option-cases (lookup tool service.policies)) [
    | inl missing ↦ cc (rw (missing, decide) at h)
    | inr (p, found) ↦ record {
      policy = p;
      registered = found;
      principal = u;
      present = refl;
      permits = (decide_kind-allows p u p.kind u.kind refl).0 (rw (found, decide) at h);
    }
  ]

  authorize_complete :
      (who : Option Principal)
      → IsPermitted service tool who
      → (authorize service tool who).is_allowed ≡ true
  unfolding authorize decide
  authorize_complete who p =
      rw (p.present, p.registered)
        ((decide_kind-allows p.policy p.principal p.policy.kind p.principal.kind refl).1 p.permits)

-- A principal may invoke a tool exactly if a policy is registered for the tool, the caller is
-- authenticated, and the policy permits that principal: always for `authenticated`, with all
-- permissions among the scopes of a delegated principal for `delegated_scopes`, with all among the
-- roles of an application for `application_roles`, and with all among the scopes for
-- `oauth_scopes`. `is_visible` answers the same.
pub authorize_iff :
    (service : ToolAuthorizationService) (tool : String) (who : Option Principal)
    → (((authorize service tool who).is_allowed ≡ true) ↔ IsPermitted service tool who)
      × (is_visible service tool who ≡ (authorize service tool who).is_allowed)
unfolding is_visible
authorize_iff service tool who =
    ((authorize_sound service tool who, authorize_complete service tool who), refl)

-- The same, for the registered policy and the principal at hand.
pub authorize-PermitsKind :
    (service : ToolAuthorizationService) (tool : String) (u : Principal) (p : ToolPolicy)
    → lookup tool service.policies ≡ some p
    → ((authorize service tool (some u)).is_allowed ≡ true) ↔ PermitsKind p.kind p u
unfolding authorize decide
authorize-PermitsKind service tool u p found =
    rw (found, decide) (decide_kind-allows p u p.kind u.kind refl)
