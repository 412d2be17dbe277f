-- ===== src/ToolAuthorization/StepUp.antt =====
-- What a denial tells the client to ask for, and what more permissions do to a decision.
use mcp_server_auth_template.Base.{
  String, true, List, [], ◌++◌, Option, none, some, ◌≡◌, ◌≢◌, ◌↔◌, ◌⊎◌, inl, inr, refl, arith,
  Option-cases, ◌∙◌, sym,
}
use mcp_server_auth_template.Base.Sets.{subset, sorted}
use mcp_server_auth_template.Base.Sets.Laws.{
  subset_sound, subset_complete, contains-append, contains-sorted,
}
use mcp_server_auth_template.Base.Value.{lookup}
use mathlib.Core.Option.{some-injective}
use mathlib.Core.Path.{subst}
use mcp_server_auth_template.Principal.{Principal, PrincipalKind, delegated, application, unknown}
use mcp_server_auth_template.ToolAuthorization.{
  ToolPolicyKind, authenticated, delegated_scopes, application_roles, oauth_scopes, ToolPolicy,
  allowed, policy_missing, missing_permission, AuthorizationDecision, ToolAuthorizationService,
  required_scopes, permission_decision, decide_kind, decide, authorize, required_scopes_for,
  scopes_of_kind,
}
use mcp_server_auth_template.ToolAuthorization.Decisions.{Grants, PermitsKind, authorize_iff}

-- A decision is coherent: it allows exactly if its reason says so, and asks for scopes only in
-- a case where more scopes can matter.
abbrev pub IsCoherent : AuthorizationDecision → Type 0
IsCoherent d =
    ((d.is_allowed ≡ true) ↔ (d.reason ≡ allowed))
    × (d.reason ≡ policy_missing → d.required_scopes ≡ [])

permission_decision-IsCoherent :
    (p : ToolPolicy) (granted : List String) → IsCoherent (permission_decision p granted)
unfolding permission_decision
permission_decision-IsCoherent p granted = ground arith

decide_kind-IsCoherent :
    (kind : ToolPolicyKind) (who : PrincipalKind) (p : ToolPolicy) (u : Principal)
    → IsCoherent (decide_kind kind who p u)
unfolding decide_kind
decide_kind-IsCoherent authenticated who p u = ground arith
decide_kind-IsCoherent delegated_scopes delegated p u = permission_decision-IsCoherent p u.scopes
decide_kind-IsCoherent delegated_scopes application p u = ground arith
decide_kind-IsCoherent delegated_scopes unknown p u = ground arith
decide_kind-IsCoherent application_roles application p u = permission_decision-IsCoherent p u.roles
decide_kind-IsCoherent application_roles delegated p u = ground arith
decide_kind-IsCoherent application_roles unknown p u = ground arith
decide_kind-IsCoherent oauth_scopes who p u = permission_decision-IsCoherent p u.scopes

-- A principal with more scopes.
abbrev pub with_scopes : Principal → List String → Principal
with_scopes u more = record u { scopes = u.scopes ++ more }

module _ (p : ToolPolicy) (u : Principal) where
  Grants-sorted : Grants (u.scopes ++ sorted p.permissions) p
  Grants-sorted a m =
      ground
        (arith, contains-append a u.scopes (sorted p.permissions), contains-sorted a p.permissions)

  required_scopes-permission_decision :
      (granted : List String) → (permission_decision p granted).required_scopes ≡ required_scopes p
  unfolding permission_decision
  required_scopes-permission_decision granted = ground arith

  required_scopes_of_kind :
      (kind : ToolPolicyKind)
      → p.kind ≡ kind
      → required_scopes p ≡ scopes_of_kind kind p.permissions
  unfolding required_scopes
  required_scopes_of_kind kind e = rw e refl

  permission_decision-step_up :
      required_scopes p ≡ sorted p.permissions
      → (permission_decision p
          (u.scopes ++ (permission_decision p u.scopes).required_scopes)).is_allowed
        ≡ true
  unfolding permission_decision
  permission_decision-step_up e =
      rw (required_scopes-permission_decision u.scopes, e)
        (rw (subset_complete p.permissions (u.scopes ++ sorted p.permissions) Grants-sorted) refl)

  abbrev IsStepUp : ToolPolicyKind → PrincipalKind → Type 0
  IsStepUp kind who =
      ((decide_kind kind who p
          (with_scopes u (decide_kind kind who p u).required_scopes)).is_allowed
        ≡ true)
      × ((decide_kind kind who p u).required_scopes ≡ required_scopes p)
      × ((kind ≡ delegated_scopes) ⊎ (kind ≡ oauth_scopes))

  -- Only a policy on scopes asks for scopes; with those granted it is met.
  decide_kind-IsStepUp :
      (kind : ToolPolicyKind) (who : PrincipalKind)
      → p.kind ≡ kind
      → (decide_kind kind who p u).reason ≡ missing_permission
      → (decide_kind kind who p u).required_scopes ≢ []
      → IsStepUp kind who
  unfolding decide_kind
  decide_kind-IsStepUp authenticated who e why scopes = cc
  decide_kind-IsStepUp delegated_scopes delegated e why scopes =
      let sorted_scopes = required_scopes_of_kind delegated_scopes e in
      (
        permission_decision-step_up sorted_scopes,
        required_scopes-permission_decision u.scopes,
        inl refl,
      )
  decide_kind-IsStepUp delegated_scopes application e why scopes = cc
  decide_kind-IsStepUp delegated_scopes unknown e why scopes = cc
  decide_kind-IsStepUp application_roles application e why scopes = absurd (
      scopes
        (required_scopes-permission_decision u.roles ∙ required_scopes_of_kind application_roles e))
  decide_kind-IsStepUp application_roles delegated e why scopes = cc
  decide_kind-IsStepUp application_roles unknown e why scopes = cc
  decide_kind-IsStepUp oauth_scopes who e why scopes =
      let sorted_scopes = required_scopes_of_kind oauth_scopes e in
      (
        permission_decision-step_up sorted_scopes,
        required_scopes-permission_decision u.scopes,
        inr refl,
      )

-- A denial for missing permissions that names scopes names those of the tool's policy, and is
-- lifted by them: the same principal with these scopes added may invoke the tool.
pub authorize-step_up :
    (service : ToolAuthorizationService) (tool : String) (u : Principal)
    → (authorize service tool (some u)).reason ≡ missing_permission
    → (authorize service tool (some u)).required_scopes ≢ []
    → ((authorize service tool
          (some (with_scopes u (authorize service tool (some u)).required_scopes))).is_allowed
        ≡ true)
      × ((authorize service tool (some u)).required_scopes ≡ required_scopes_for service tool)
unfolding authorize decide required_scopes_for
authorize-step_up service tool u why scopes = elim (Option-cases (lookup tool service.policies)) [
  | inl missing ↦ cc (rw (missing, decide) at why)
  | inr (p, found) ↦
      let (lifted, listed, _) =
        decide_kind-IsStepUp p u p.kind u.kind refl (rw (found, decide) at why)
          (rw (found, decide) at scopes) in
      rw (found, decide) (lifted, listed)
]

Grants-mono :
    (p : ToolPolicy) (granted more : List String)
    → subset granted more ≡ true
    → Grants granted p
    → Grants more p
Grants-mono p granted more h g a m = subset_sound granted more a h (g a m)

PermitsKind-mono :
    (kind : ToolPolicyKind) (p : ToolPolicy) (u v : Principal)
    → u.kind ≡ v.kind
    → subset u.scopes v.scopes ≡ true
    → subset u.roles v.roles ≡ true
    → PermitsKind kind p u
    → PermitsKind kind p v
PermitsKind-mono authenticated p u v e scopes roles h = tt
PermitsKind-mono delegated_scopes p u v e scopes roles (k, g) =
    (sym e ∙ k, Grants-mono p u.scopes v.scopes scopes g)
PermitsKind-mono application_roles p u v e scopes roles (k, g) =
    (sym e ∙ k, Grants-mono p u.roles v.roles roles g)
PermitsKind-mono oauth_scopes p u v e scopes roles g = Grants-mono p u.scopes v.scopes scopes g

-- More scopes and more roles never turn a permission into a denial.
pub authorize_mono :
    (service : ToolAuthorizationService) (tool : String) (u v : Principal)
    → u.kind ≡ v.kind
    → subset u.scopes v.scopes ≡ true
    → subset u.roles v.roles ≡ true
    → (authorize service tool (some u)).is_allowed ≡ true
    → (authorize service tool (some v)).is_allowed ≡ true
authorize_mono service tool u v kinds scopes roles h =
    let c = (authorize_iff service tool (some u)).0.0 h in
    let same = some-injective u c.principal c.present in
    (authorize_iff service tool (some v)).0.1 (record {
      policy = c.policy;
      registered = c.registered;
      principal = v;
      present = refl;
      permits =
          PermitsKind-mono c.policy.kind c.policy u v kinds scopes roles
            (subst (PermitsKind c.policy.kind c.policy) (sym same) c.permits);
    })

-- A decision allows exactly if its reason is `allowed`, and a missing policy asks for no scopes.
pub authorize-IsCoherent :
    (service : ToolAuthorizationService) (tool : String) (who : Option Principal)
    → IsCoherent (authorize service tool who)
unfolding authorize decide
authorize-IsCoherent service tool who = elim (Option-cases (lookup tool service.policies)) [
  | inl missing ↦ rw (missing, decide) (ground arith)
  | inr (p, found) ↦ rw (found, decide) (policy_cases p who)
]
  where
    policy_cases : (p : ToolPolicy) (who : Option Principal) → IsCoherent (decide (some p) who)
    policy_cases p none = ground arith
    policy_cases p (some u) = decide_kind-IsCoherent p.kind u.kind p u
