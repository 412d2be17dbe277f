-- ===== src/ProgressiveVerifier/Laws.antt =====
-- When the verifier lets a token through, and what its challenge is worth.
use mathlib.Core.Path.{subst}
use mcp_server_auth_template.Base.{
  eq_iff, String, true, false, Option, none, some, List, [], ◌∷◌, ◌++◌, ◌≡◌, ◌≢◌, ◌⊎◌, refl, arith,
  ap, ◌∙◌, Bool-cases, Option-cases, inl, inr,
}
use mcp_server_auth_template.Base.Sets.{contains, subset, sorted, sorted_set, no_items}
use mcp_server_auth_template.Base.Sets.Laws.{
  subset_sound, subset_complete, contains-append, contains-sorted, contains-sorted_set,
}
use mcp_server_auth_template.Base.Value.{Value, lookup}
use mcp_server_auth_template.Principal.{Principal, PrincipalKind, delegated, application, unknown}
use mcp_server_auth_template.ToolAuthorization.{
  ToolPolicyKind, authenticated, delegated_scopes, application_roles, oauth_scopes, ToolPolicy,
  ToolAuthorizationService, AuthorizationDecision, missing_permission, authorize, decide,
  decide_kind, permission_decision, required_scopes, scopes_of_kind,
}
use mcp_server_auth_template.ToolAuthorization.StepUp.{with_scopes}
use mcp_server_auth_template.McpPrincipal.{AccessToken, principal_from_access_token}
use mcp_server_auth_template.ProgressiveHttp.{ProgressiveAuthorizationContext, McpRequestTarget}
use mcp_server_auth_template.ProgressiveVerifier.{
  Verifier, step_scopes, global_step, target_step, challenge_scopes, verify_token,
}

subset-append : (xs ys zs : List String) → subset xs ys ≡ true → subset xs (ys ++ zs) ≡ true
subset-append xs ys zs h =
    subset_complete xs (ys ++ zs)
      (λ a m. ground (arith, contains-append a ys zs, subset_sound xs ys a h m))

subset-append_right : (xs ys zs : List String) → subset xs zs ≡ true → subset xs (ys ++ zs) ≡ true
subset-append_right xs ys zs h =
    subset_complete xs (ys ++ zs)
      (λ a m. ground (arith, contains-append a ys zs, subset_sound xs zs a h m))

no_items→nil : (xs : List String) → no_items xs ≡ true → xs ≡ []
no_items→nil [] h = refl
no_items→nil (x ∷ xs) h = cc

module _ (p : ToolPolicy) where
  step_scopes_met :
      (granted : List String)
      → subset p.permissions granted ≡ true
      → step_scopes (permission_decision p granted) ≡ []
  unfolding permission_decision
  step_scopes_met granted h = rw h refl

  step_scopes_roles :
      (granted : List String)
      → required_scopes p ≡ []
      → step_scopes (permission_decision p granted) ≡ []
  unfolding permission_decision
  step_scopes_roles granted e = elim (Bool-cases (subset p.permissions granted)) [
    | inl h ↦ step_scopes_met granted h
    | inr h ↦ rw (h, e) refl
  ]

  step_scopes_missing :
      (granted : List String)
      → subset p.permissions granted ≡ false
      → no_items (required_scopes p) ≡ false
      → step_scopes (permission_decision p granted) ≡ required_scopes p
  unfolding permission_decision
  step_scopes_missing granted h e = rw (h, e) refl

module _ (p : ToolPolicy) (ss : List String) where
  -- a policy on scopes: its permissions are the scopes it asks for
  permission_decision-settles :
      (granted : List String)
      → required_scopes p ≡ sorted p.permissions
      → subset (step_scopes (permission_decision p granted)) ss ≡ true
      → step_scopes (permission_decision p (granted ++ ss)) ≡ []
  permission_decision-settles granted e h = elim (Bool-cases (subset p.permissions granted)) [
    | inl met ↦ step_scopes_met p (granted ++ ss) (subset-append p.permissions granted ss met)
    | inr missing ↦ elim (Bool-cases (no_items (required_scopes p))) [
      | inl nothing ↦ step_scopes_roles p (granted ++ ss) (no_items→nil _ nothing)
      | inr something ↦
          let asked : subset (sorted p.permissions) ss ≡ true =
            rw (← e, ← step_scopes_missing p granted missing something) h in
          step_scopes_met p (granted ++ ss) (
            subset-append_right p.permissions granted ss (
              subset_complete p.permissions ss (λ a m.
                subset_sound (sorted p.permissions) ss a asked
                  (contains-sorted a p.permissions ∙ m))))
    ]
  ]

  required_scopes_of_kind :
      (kind : ToolPolicyKind)
      → p.kind ≡ kind
      → required_scopes p ≡ scopes_of_kind kind p.permissions
  unfolding required_scopes
  required_scopes_of_kind kind e = rw e refl

  decide_kind-settles :
      (kind : ToolPolicyKind) (who : PrincipalKind) (u : Principal)
      → p.kind ≡ kind
      → subset (step_scopes (decide_kind kind who p u)) ss ≡ true
      → step_scopes (decide_kind kind who p (with_scopes u ss)) ≡ []
  unfolding decide_kind
  decide_kind-settles authenticated who u e h = refl
  decide_kind-settles delegated_scopes delegated u e h =
      permission_decision-settles u.scopes (required_scopes_of_kind delegated_scopes e) h
  decide_kind-settles delegated_scopes application u e h = refl
  decide_kind-settles delegated_scopes unknown u e h = refl
  decide_kind-settles application_roles application u e h =
      step_scopes_roles p u.roles (required_scopes_of_kind application_roles e)
  decide_kind-settles application_roles delegated u e h = refl
  decide_kind-settles application_roles unknown u e h = refl
  decide_kind-settles oauth_scopes who u e h =
      permission_decision-settles u.scopes (required_scopes_of_kind oauth_scopes e) h

authorize-settles :
    (service : ToolAuthorizationService) (tool : String) (u : Principal) (ss : List String)
    → subset (step_scopes (authorize service tool (some u))) ss ≡ true
    → step_scopes (authorize service tool (some (with_scopes u ss))) ≡ []
unfolding authorize decide
authorize-settles service tool u ss h = elim (Option-cases (lookup tool service.policies)) [
  | inl missing ↦ rw (missing, decide) refl
  | inr (p, found) ↦
      rw (found, decide) (decide_kind-settles p ss p.kind u.kind u refl (rw (found, decide) at h))
]

-- The token as the authorization server would issue it again, with more scopes.
abbrev pub with_more : AccessToken → List String → AccessToken
with_more t ss = record t { scopes = t.scopes ++ ss }

module _ (print_value : Value → String) (v : Verifier) (t : AccessToken) (ss : List String) where
  global_step-settles :
      subset (global_step print_value v t) ss ≡ true
      → global_step print_value v (with_more t ss) ≡ []
  unfolding global_step
  global_step-settles h = elim (Bool-cases (subset v.global_required_scopes t.scopes)) [
    | inl met ↦ rw (subset-append v.global_required_scopes t.scopes ss met) refl
    | inr missing ↦
        rw (subset-append_right v.global_required_scopes t.scopes ss (rw missing at h)) refl
  ]

  target_step-settles :
      (target : Option McpRequestTarget)
      → subset (target_step print_value v t target) ss ≡ true
      → target_step print_value v (with_more t ss) target ≡ []
  unfolding principal_from_access_token
  target_step-settles none h = refl
  target_step-settles (some target) h =
      authorize-settles v.authorizer target.name
        (principal_from_access_token print_value t v.auth_provider) ss h

  challenge_scopes-settles :
      (target : Option McpRequestTarget)
      → subset (challenge_scopes print_value v t target) ss ≡ true
      → challenge_scopes print_value v (with_more t ss) target ≡ []
  unfolding challenge_scopes
  challenge_scopes-settles target h =
      rw
        (
          global_step-settles (
              subset_complete _ ss (λ a m. subset_sound _ ss a h (
                ground (
                  arith,
                  contains-append a (global_step print_value v t)
                      (target_step print_value v t target),
                )))),
          target_step-settles target (
              subset_complete _ ss (λ a m. subset_sound _ ss a h (
                ground (
                  arith,
                  contains-append a (global_step print_value v t)
                      (target_step print_value v t target),
                )))),
        )
        refl

sorted_set-ne-nil : (xs : List String) → no_items xs ≡ false → sorted_set xs ≢ []
unfolding contains
sorted_set-ne-nil [] h e = cc
sorted_set-ne-nil (x ∷ xs) h e =
    ground (arith, contains-sorted_set x (x ∷ xs), eq_iff x x, ap (contains x) e)

-- When the verifier refuses a token that its delegate accepted, it does so on an MCP request, and
-- the scopes that it puts in the context are not empty and suffice: the same token with these
-- scopes added is let through for the same request, unchanged.
pub challenge_suffices :
    (print_value : Value → String) (v : Verifier) (t : AccessToken)
    (ctx : ProgressiveAuthorizationContext)
    → (verify_token print_value v (some t) (some ctx)).token ≡ none
    → (ss : List String) × (ctx.is_mcp_request ≡ true)
      × (ss ≢ [])
      × ((verify_token print_value v (some t) (some ctx)).context
          ≡ some (record ctx { required_scopes = ss }))
      × ((verify_token print_value v (some (with_more t ss)) (some ctx)).token
          ≡ some (with_more t ss))
unfolding verify_token
challenge_suffices print_value v t ctx refused =
    let cs = challenge_scopes print_value v t ctx.target in
    let mcp : ctx.is_mcp_request ≡ true = ground arith in
    let lacking : no_items cs ≡ false = ground arith in
    let settled =
      challenge_scopes-settles print_value v t (sorted_set cs) ctx.target
        (subset_complete cs (sorted_set cs) (λ a m. contains-sorted_set a cs ∙ m)) in
    (
      sorted_set cs,
      mcp,
      sorted_set-ne-nil cs lacking,
      rw (mcp, lacking) refl,
      rw (mcp, settled) refl,
    )

no_items-append : (xs ys : List String) → no_items (xs ++ ys) ≡ true → (xs ≡ []) × (ys ≡ [])
no_items-append [] ys h = (refl, no_items→nil ys h)
no_items-append (x ∷ xs) ys h = cc

global_step_met :
    (print_value : Value → String) (v : Verifier) (t : AccessToken)
    → global_step print_value v t ≡ []
    → subset v.global_required_scopes t.scopes ≡ true
unfolding global_step subset
global_step_met print_value v t h = elim (Bool-cases (subset v.global_required_scopes t.scopes)) [
  | inl met ↦ met
  | inr missing ↦
      let nothing : v.global_required_scopes ≡ [] = rw missing at h in
      cc (ap (λ xs. subset xs t.scopes) nothing)
]

-- A decision that asks for no scopes.
abbrev pub AsksNothing : AuthorizationDecision → Type 0
AsksNothing d = (d.is_allowed ≡ true) ⊎ ((d.reason ≢ missing_permission) ⊎ (d.required_scopes ≡ []))

step_scopes-nil : (d : AuthorizationDecision) → step_scopes d ≡ [] → AsksNothing d
step_scopes-nil d h = ground arith

-- A token that the verifier lets through is the delegate's. On an MCP request it has all the
-- globally required scopes, and if the request names a tool, the decision on it allows the call, or
-- denies it for another reason than missing permissions, or names no scopes to ask for.
pub verify_token_sound :
    (print_value : Value → String) (v : Verifier) (found : Option AccessToken)
    (ctx : ProgressiveAuthorizationContext) (t : AccessToken)
    → (verify_token print_value v found (some ctx)).token ≡ some t
    → (found ≡ some t)
      × (ctx.is_mcp_request ≡ true
          → (subset v.global_required_scopes t.scopes ≡ true)
            × ((target : McpRequestTarget)
                → ctx.target ≡ some target
                → AsksNothing (
                    authorize v.authorizer target.name
                      (some (principal_from_access_token print_value t v.auth_provider)))))
unfolding verify_token challenge_scopes
verify_token_sound print_value v none ctx t h = cc
verify_token_sound print_value v (some s) ctx t h = elim (Bool-cases ctx.is_mcp_request) [
  | inl mcp ↦
      let same : s ≡ t = ground arith in
      let (global, target) =
        no_items-append (global_step print_value v t) (target_step print_value v t ctx.target) (
          subst
            (λ x.
              no_items (global_step print_value v x ++ target_step print_value v x ctx.target)
              ≡ true)
            same (ground arith)) in
      (
        ap some same,
        λ _. (
          global_step_met print_value v t global,
          λ tg named.
              step_scopes-nil _ (subst (λ o. target_step print_value v t o ≡ []) named target),
        ),
      )
  | inr other ↦ (ground arith, λ mcp. cc (mcp, other))
]
