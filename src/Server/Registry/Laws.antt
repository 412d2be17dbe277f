-- ===== src/Server/Registry/Laws.antt =====
-- What qualifying the scopes of the policies does to decisions.
use mcp_server_auth_template.Base.{
  [], Bool, Bool-cases, List, Option, String, ap, arith, false, inl, inr, none, refl, some, sym,
  true, ◌==◌, ◌∙◌, ◌∷◌, ◌≡◌,
}
use mcp_server_auth_template.Server.Registry.{service_of, effective_policies, effective_policy}
use mcp_server_auth_template.ToolAuthorization.{
  authorize, ToolPolicy, ToolPolicyKind, application_roles, authenticated, delegated_scopes,
  oauth_scopes,
}
use mcp_server_auth_template.ToolAuthorization.Decisions.{
  PermitsKind, authorize-PermitsKind, authorize_iff, Grants,
}
use mcp_server_auth_template.Base.Result.{>>=-eq-ok, ok}
use mcp_server_auth_template.Base.Sets.{contains, sorted}
use mcp_server_auth_template.Base.Sets.Laws.{contains-sorted, contains-sorted_set}
use mcp_server_auth_template.Base.Value.{Dict, lookup}
use mcp_server_auth_template.Principal.{Principal}
use mcp_server_auth_template.ScopeClaims.{qualify_scopes, resource_prefix}
use mcp_server_auth_template.ScopeClaims.Qualified.{qualified, qualified_mono}
use mcp_server_auth_template.ToolAuthorization.Policies.{is_given, scope_policies-IsBuilt}
use mathlib.Core.Path.{subst}

-- The principal with the scopes in the form that the Entra verifier gives them.
abbrev pub qualified_principal : String → Principal → Principal
qualified_principal uri u = record u { scopes = qualify_scopes u.scopes uri }

abbrev pub is_scope_kind : ToolPolicyKind → Bool
is_scope_kind delegated_scopes = true
is_scope_kind oauth_scopes = true
is_scope_kind _ = false

-- The effective policy is of the same kind; its permissions are the qualified ones, or untouched.
pub record IsEffective (uri : String) (p e : ToolPolicy) : Type 0 where
  pub kind : e.kind ≡ p.kind
  pub qualified :
      is_scope_kind p.kind ≡ true
      → (a : String)
      → contains a e.permissions ≡ is_given (qualify_scopes (sorted p.permissions) uri) a
  pub untouched : is_scope_kind p.kind ≡ false → e ≡ p

effective_lem :
    (uri : String) (k : ToolPolicyKind) (p e : ToolPolicy)
    → p.kind ≡ k
    → effective_policy uri p ≡ ok e
    → IsEffective uri p e
unfolding effective_policy
effective_lem uri authenticated p e same h =
    let made : p ≡ e = cc in
    record {
      kind = sym (ap (λ (x : ToolPolicy). x.kind) made);
      qualified = λ s. cc;
      untouched = λ s. sym made;
    }
effective_lem uri application_roles p e same h =
    let made : p ≡ e = cc in
    record {
      kind = sym (ap (λ (x : ToolPolicy). x.kind) made);
      qualified = λ s. cc;
      untouched = λ s. sym made;
    }
effective_lem uri delegated_scopes p e same h =
    let (built, _) =
      (scope_policies-IsBuilt (qualify_scopes (sorted p.permissions) uri) e).0 (rw same at h) in
    record { kind = built.kind ∙ sym same; qualified = λ s. built.permissions; untouched = λ s. cc }
effective_lem uri oauth_scopes p e same h =
    let (built, _) =
      (scope_policies-IsBuilt (qualify_scopes (sorted p.permissions) uri) e).1 (rw same at h) in
    record { kind = built.kind ∙ sym same; qualified = λ s. built.permissions; untouched = λ s. cc }

-- What a name stands for in the registry and in the effective one.
abbrev pub SameEntry : String → Option ToolPolicy → Option ToolPolicy → Type 0
SameEntry uri none none = Unit
SameEntry uri (some p) (some e) = IsEffective uri p e
SameEntry uri _ _ = ⊥

effective_policies-lookup :
    (uri name : String) (registry effective : Dict ToolPolicy)
    → effective_policies uri registry ≡ ok effective
    → SameEntry uri (lookup name registry) (lookup name effective)
unfolding effective_policies lookup
effective_policies-lookup uri name [] effective h =
    let same : [] ≡ effective = ground arith in
    subst (λ x. SameEntry uri none (lookup name x)) same tt
effective_policies-lookup uri name ((j, p) ∷ registry) effective h =
    let (e, first, h1) = >>=-eq-ok (effective_policy uri p) _ h in
    let (others, rest, h2) = >>=-eq-ok (effective_policies uri registry) _ h1 in
    let same : (j, e) ∷ others ≡ effective = ground (arith, h2) in
    subst (λ x. SameEntry uri (lookup name ((j, p) ∷ registry)) (lookup name x)) same
      (elim (Bool-cases (j == name)) [
        | inl here ↦ rw here (effective_lem uri p.kind p e refl first)
        | inr there ↦ rw there (effective_policies-lookup uri name registry others rest)
      ])

Grants-qualified :
    (uri : String) (p e : ToolPolicy) (granted : List String)
    → ((a : String)
        → contains a e.permissions ≡ is_given (qualify_scopes (sorted p.permissions) uri) a)
    → Grants granted p
    → Grants (qualify_scopes granted uri) e
unfolding qualify_scopes
Grants-qualified uri p e granted h g a m =
    let prefix = resource_prefix uri in
    let given : is_given (qualify_scopes (sorted p.permissions) uri) a ≡ true = sym (h a) ∙ m in
    let among : contains a (qualify_scopes (sorted p.permissions) uri) ≡ true = ground arith in
    contains-sorted_set a (qualified prefix granted)
    ∙ qualified_mono prefix a (sorted p.permissions) granted
        (λ b n. g b (sym (contains-sorted b p.permissions) ∙ n))
        (sym (contains-sorted_set a (qualified prefix (sorted p.permissions))) ∙ among)

PermitsKind-qualified :
    (uri : String) (k : ToolPolicyKind) (p e : ToolPolicy) (u : Principal)
    → p.kind ≡ k
    → IsEffective uri p e
    → PermitsKind k p u
    → PermitsKind k e (qualified_principal uri u)
PermitsKind-qualified uri authenticated p e u same eff permits = tt
PermitsKind-qualified uri application_roles p e u same eff (kind, grants) =
    let alike : e ≡ p = eff.untouched (rw same refl) in
    (kind, subst (Grants u.roles) (sym alike) grants)
PermitsKind-qualified uri delegated_scopes p e u same eff (kind, grants) =
    (kind, Grants-qualified uri p e u.scopes (eff.qualified (rw same refl)) grants)
PermitsKind-qualified uri oauth_scopes p e u same eff grants =
    Grants-qualified uri p e u.scopes (eff.qualified (rw same refl)) grants

entry_permits :
    (uri : String) (u : Principal) (o o' : Option ToolPolicy)
    → SameEntry uri o o'
    → (p : ToolPolicy) → o ≡ some p
    → (e : ToolPolicy) × (o' ≡ some e)
      × (PermitsKind p.kind p u → PermitsKind e.kind e (qualified_principal uri u))
entry_permits uri u none none same p h = cc
entry_permits uri u none (some e) same p h = cc
entry_permits uri u (some q) none same p h = elim same [ ]
entry_permits uri u (some q) (some e) same p h = (
  e,
  refl,
  λ permits.
      let is_p : q ≡ p = ground arith in
      let eff : IsEffective uri p e = subst (λ x. IsEffective uri x e) is_p same in
      subst (λ k. PermitsKind k e (qualified_principal uri u)) (sym eff.kind)
        (PermitsKind-qualified uri p.kind p e u refl eff permits),
)

-- Where a registry allows a principal a tool, the effective registry for a resource URI allows it to
-- the principal whose scopes are qualified with that URI: tokens and policies meet in one form.
pub authorize-effective :
    (uri : String) (registry effective : Dict ToolPolicy) (tool : String) (u : Principal)
    → effective_policies uri registry ≡ ok effective
    → (authorize (service_of registry) tool (some u)).is_allowed ≡ true
    → (authorize (service_of effective) tool (some (qualified_principal uri u))).is_allowed ≡ true
authorize-effective uri registry effective tool u h allowed =
    let permitted = (authorize_iff (service_of registry) tool (some u)).0.0 allowed in
    let is_u : u ≡ permitted.principal = some_inj permitted.present in
    let (e, found, permits) =
      entry_permits uri u (lookup tool registry) (lookup tool effective)
        (effective_policies-lookup uri tool registry effective h) permitted.policy
        permitted.registered in
    (authorize-PermitsKind (service_of effective) tool (qualified_principal uri u) e found).1 (
      permits
        (subst (PermitsKind permitted.policy.kind permitted.policy) (sym is_u) permitted.permits))
  where
    some_inj : {x y : Principal} → some x ≡ some y → x ≡ y
    some_inj e = ground arith
