-- ===== src/ToolAuthorization.antt =====
-- src/mcp_server_auth_template/application/tool_authorization.py: policies for tools, and the
-- service that decides by them.
pub mod Decisions
pub mod Policies
pub mod StepUp
mod Tests
use mcp_server_auth_template.Base.{
  ℕ, String, Bool, true, false, not, ◌&&◌, ◌||◌, List, [], ◌∷◌, Option, none, some, keep, eqb,
  in_range, if◌then◌else◌,
}
use mcp_server_auth_template.Base.Text.{is_empty, all_codes}
use mcp_server_auth_template.Base.Sets.{contains, subset, unique, sorted, no_items}
use mcp_server_auth_template.Base.Result.{Result, ok, err, ◌>>=◌}
use mcp_server_auth_template.Base.Value.{Dict, lookup}
use mcp_server_auth_template.Principal.{Principal, PrincipalKind, delegated, application, unknown}

pub data ToolPolicyKind : Type 0 where
  authenticated delegated_scopes application_roles oauth_scopes : ToolPolicyKind

pub data AuthorizationReason : Type 0 where
  allowed policy_missing unauthenticated wrong_principal_kind missing_permission :
      AuthorizationReason

-- `reason.value`
abbrev pub reason_value : AuthorizationReason → String
reason_value allowed = "allowed"
reason_value policy_missing = "policy_missing"
reason_value unauthenticated = "unauthenticated"
reason_value wrong_principal_kind = "wrong_principal_kind"
reason_value missing_permission = "missing_permission"

pub record ToolPolicy : Type 0 where
  pub kind : ToolPolicyKind
  pub permissions : List String

-- The ValueErrors of this file.
pub data PolicyError : Type 0 where
  permissions_on_authenticated : PolicyError
  no_permission : ToolPolicyKind → PolicyError
  no_values : PolicyError
  invalid_scope : String → PolicyError

-- ToolPolicy(kind, permissions), with the checks of `__post_init__`
unfoldable pub tool_policy : ToolPolicyKind → List String → Result PolicyError ToolPolicy
tool_policy authenticated [] = ok (record { kind = authenticated; permissions = [] })
tool_policy authenticated (p ∷ ps) = err permissions_on_authenticated
tool_policy kind [] = err (no_permission kind)
tool_policy kind (p ∷ ps) = ok (record { kind = kind; permissions = p ∷ ps })

unfoldable pub is_valid_oauth_scope_token : String → Bool
is_valid_oauth_scope_token value =
    all_codes (λ c. eqb c 0x21 || in_range 0x23 0x5B c || in_range 0x5D 0x7E c) value

-- `_permissions`
unfoldable pub permissions_of : List String → Result PolicyError (List String)
unfolding unique keep
permissions_of values =
    let permissions = unique (keep (λ v. not (is_empty v)) values) in
    if no_items permissions then err no_values else ok permissions

-- the loop of `_scope_permissions`
unfoldable pub check_scopes : List String → Result PolicyError (Unit {0})
unfolding is_valid_oauth_scope_token
check_scopes [] = ok tt
check_scopes (scope ∷ scopes) =
    let rest = check_scopes scopes in
    if is_valid_oauth_scope_token scope then rest else err (invalid_scope scope)

-- `_scope_permissions`
unfoldable pub scope_permissions : List String → Result PolicyError (List String)
unfolding permissions_of check_scopes
scope_permissions values = do
  permissions ← permissions_of values
  _ ← check_scopes permissions
  ok permissions

-- ToolPolicy.authenticated()
unfoldable pub authenticated_policy : Result PolicyError ToolPolicy
unfolding tool_policy
authenticated_policy = tool_policy authenticated []

-- ToolPolicy.delegated_scopes(*scopes)
unfoldable pub delegated_scopes_policy : List String → Result PolicyError ToolPolicy
unfolding tool_policy scope_permissions
delegated_scopes_policy scopes = do
  permissions ← scope_permissions scopes
  tool_policy delegated_scopes permissions

-- ToolPolicy.application_roles(*roles)
unfoldable pub application_roles_policy : List String → Result PolicyError ToolPolicy
unfolding tool_policy permissions_of
application_roles_policy roles = do
  permissions ← permissions_of roles
  tool_policy application_roles permissions

-- ToolPolicy.oauth_scopes(*scopes)
unfoldable pub oauth_scopes_policy : List String → Result PolicyError ToolPolicy
unfolding tool_policy scope_permissions
oauth_scopes_policy scopes = do
  permissions ← scope_permissions scopes
  tool_policy oauth_scopes permissions

pub record AuthorizationDecision : Type 0 where
  pub is_allowed : Bool
  pub reason : AuthorizationReason
  pub required_scopes : List String

abbrev pub allow : List String → AuthorizationDecision
allow scopes = record { is_allowed = true; reason = allowed; required_scopes = scopes }

abbrev pub deny : AuthorizationReason → List String → AuthorizationDecision
deny why scopes = record { is_allowed = false; reason = why; required_scopes = scopes }

-- ToolAuthorizationService, which keeps a copy of the policy registry
pub record ToolAuthorizationService : Type 0 where
  pub policies : Dict ToolPolicy

abbrev pub scopes_of_kind : ToolPolicyKind → List String → List String
scopes_of_kind delegated_scopes permissions = sorted permissions
scopes_of_kind oauth_scopes permissions = sorted permissions
scopes_of_kind _ permissions = []

-- `_required_scopes`
unfoldable pub required_scopes : ToolPolicy → List String
required_scopes policy = scopes_of_kind policy.kind policy.permissions

-- `_permission_decision`
unfoldable pub permission_decision : ToolPolicy → List String → AuthorizationDecision
unfolding subset required_scopes
permission_decision policy granted =
    if subset policy.permissions granted
    then allow (required_scopes policy)
    else deny missing_permission (required_scopes policy)

-- the tests of `authorize` on the policy's kind and on the principal's
unfoldable pub decide_kind :
    ToolPolicyKind → PrincipalKind → ToolPolicy → Principal → AuthorizationDecision
unfolding permission_decision
decide_kind authenticated _ policy principal = allow []
decide_kind delegated_scopes delegated policy principal =
    permission_decision policy principal.scopes
decide_kind delegated_scopes _ policy principal = deny wrong_principal_kind (required_scopes policy)
decide_kind application_roles application policy principal =
    permission_decision policy principal.roles
decide_kind application_roles _ policy principal = deny wrong_principal_kind []
decide_kind oauth_scopes _ policy principal = permission_decision policy principal.scopes

unfoldable pub decide : Option ToolPolicy → Option Principal → AuthorizationDecision
unfolding decide_kind required_scopes
decide none _ = deny policy_missing []
decide (some policy) none = deny unauthenticated (required_scopes policy)
decide (some policy) (some principal) = decide_kind policy.kind principal.kind policy principal

unfoldable pub authorize :
    ToolAuthorizationService → String → Option Principal → AuthorizationDecision
unfolding decide lookup
authorize service tool_name principal = decide (lookup tool_name service.policies) principal

unfoldable pub is_visible : ToolAuthorizationService → String → Option Principal → Bool
unfolding authorize
is_visible service tool_name principal = (authorize service tool_name principal).is_allowed

abbrev pub scopes_or_none : Option ToolPolicy → List String
scopes_or_none none = []
scopes_or_none (some policy) = required_scopes policy

unfoldable pub required_scopes_for : ToolAuthorizationService → String → List String
unfolding required_scopes lookup
required_scopes_for service tool_name = scopes_or_none (lookup tool_name service.policies)
