-- ===== src/ToolAuthorization/Tests.antt =====
-- A service with one policy of each kind, and callers that pass or miss them.
use mcp_server_auth_template.Base.{
  Bool-cases, String, [], arith, eq_iff, inl, inr, none, refl, some, true, ◌==◌, ◌↔◌, ◌∷◌, ◌≡◌,
}
use mcp_server_auth_template.Base.Result.{ok}
use mcp_server_auth_template.Base.Sets.{contains, sorted}
use mcp_server_auth_template.Principal.{Principal, delegated}
use mcp_server_auth_template.ToolAuthorization.{
  ToolAuthorizationService, ToolPolicy, application_roles, authenticated, authorize, decide_kind,
  delegated_scopes, delegated_scopes_policy, deny, is_valid_oauth_scope_token, is_visible,
  missing_permission, oauth_scopes, oauth_scopes_policy, permission_decision, policy_missing,
  required_scopes_for,
}
use mcp_server_auth_template.ToolAuthorization.Decisions.{IsPermitted, authorize_iff}
use mcp_server_auth_template.ToolAuthorization.Policies.{
  is_given, IsBuilt, IsSafe, scope_policies-IsBuilt,
}
use mcp_server_auth_template.ToolAuthorization.StepUp.{authorize-step_up, with_scopes}

abbrev scopes_policy : ToolPolicy
scopes_policy = record { kind = oauth_scopes; permissions = "b" ∷ "a" ∷ [] }

abbrev registry : ToolAuthorizationService
registry = record {
  policies =
      ("whoami", record { kind = authenticated; permissions = [] })
      ∷ ("list", scopes_policy)
      ∷ ("admin", record { kind = application_roles; permissions = "Admin" ∷ [] })
      ∷ [];
}

abbrev reader : Principal
reader = record {
  client_id = "cli";
  subject = none;
  issuer = none;
  kind = delegated;
  scopes = "a" ∷ [];
  roles = [];
}

abbrev writer : Principal
writer = record {
  client_id = "cli";
  subject = none;
  issuer = none;
  kind = delegated;
  scopes = "a" ∷ "b" ∷ "c" ∷ [];
  roles = "Admin" ∷ [];
}

reader_misses : authorize registry "list" (some reader) ≡ deny missing_permission ("a" ∷ "b" ∷ [])
unfolding authorize decide_kind permission_decision sorted
reader_misses = refl

unregistered_is_denied : authorize registry "other" (some writer) ≡ deny policy_missing []
unfolding authorize
unregistered_is_denied = refl

authorize_iff_example :
    (((authorize registry "list" (some writer)).is_allowed ≡ true)
      ↔ IsPermitted registry "list" (some writer))
    × (is_visible registry "list" (some writer)
        ≡ (authorize registry "list" (some writer)).is_allowed)
authorize_iff_example = authorize_iff registry "list" (some writer)

authorize-step_up_example :
    ((authorize registry "list" (
        some (
          with_scopes reader (authorize registry "list" (some reader)).required_scopes))).is_allowed
      ≡ true)
    × ((authorize registry "list" (some reader)).required_scopes
        ≡ required_scopes_for registry "list")
unfolding authorize decide_kind permission_decision sorted
authorize-step_up_example = authorize-step_up registry "list" reader refl (λ e. cc)

scope_policies-IsBuilt_example :
    (delegated_scopes_policy ("b" ∷ "" ∷ "a" ∷ [])
        ≡ ok (record { kind = delegated_scopes; permissions = "b" ∷ "a" ∷ [] })
      → IsBuilt delegated_scopes
          ("b" ∷ "" ∷ "a" ∷ [])
          (record { kind = delegated_scopes; permissions = "b" ∷ "a" ∷ [] })
        × IsSafe (record { kind = delegated_scopes; permissions = "b" ∷ "a" ∷ [] }))
    × (oauth_scopes_policy ("b" ∷ "" ∷ "a" ∷ [])
          ≡ ok (record { kind = delegated_scopes; permissions = "b" ∷ "a" ∷ [] })
        → IsBuilt oauth_scopes
            ("b" ∷ "" ∷ "a" ∷ [])
            (record { kind = delegated_scopes; permissions = "b" ∷ "a" ∷ [] })
          × IsSafe (record { kind = delegated_scopes; permissions = "b" ∷ "a" ∷ [] }))
scope_policies-IsBuilt_example =
    scope_policies-IsBuilt ("b" ∷ "" ∷ "a" ∷ [])
      (record { kind = delegated_scopes; permissions = "b" ∷ "a" ∷ [] })

only_read_given :
    (b : String) → is_given ("read" ∷ "" ∷ []) b ≡ true → is_valid_oauth_scope_token b ≡ true
unfolding contains is_valid_oauth_scope_token
only_read_given b h = elim (Bool-cases ("read" == b)) [
  | inl same ↦ rw (← (eq_iff "read" b).0 same) refl
  | inr differs ↦ elim (Bool-cases ("" == b)) [
    | inl same ↦ cc (rw (← (eq_iff "" b).0 same) at h)
    | inr filled ↦ ground (arith, differs, filled)
  ]
]
