-- ===== src/ToolAuthorization/Policies.antt =====
-- Which policies can be built.
use mcp_server_auth_template.Base.{
  false, sym, ap, String, Bool, true, not, List, [], ◌∷◌, ◌≡◌, ◌≢◌, inl, inr, refl, arith, ◌&&◌,
  Bool-cases, eq_iff, ◌∙◌, keep, ◌==◌,
}
use mcp_server_auth_template.Base.Text.{is_empty}
use mcp_server_auth_template.Base.Sets.{no_items, contains, unique}
use mcp_server_auth_template.Base.Sets.Laws.{contains-sorted, contains-unique}
use mcp_server_auth_template.Base.Result.{ok, ◌>>=◌, >>=-eq-ok}
use mcp_server_auth_template.ToolAuthorization.{
  scopes_of_kind, ToolPolicyKind, authenticated, delegated_scopes, application_roles, oauth_scopes,
  ToolPolicy, tool_policy, is_valid_oauth_scope_token, permissions_of, check_scopes,
  scope_permissions, delegated_scopes_policy, oauth_scopes_policy, required_scopes,
}

-- The values that `_permissions` keeps.
abbrev pub is_given : List String → String → Bool
is_given values a = contains a values && not (is_empty a)

contains-keep :
    (values : List String) (a : String)
    → contains a (keep (λ v. not (is_empty v)) values) ≡ is_given values a
unfolding contains keep
contains-keep [] a = refl
contains-keep (v ∷ values) a = elim (Bool-cases (v == a)) [
  | inl same ↦
      let e : v ≡ a = (eq_iff v a).0 same in
      rw e (ground (arith, contains-keep values a, eq_iff a a))
  | inr other ↦ ground (arith, contains-keep values a)
]

contains-permissions_of :
    (values permissions : List String)
    → permissions_of values ≡ ok permissions
    → (a : String) → contains a permissions ≡ is_given values a
unfolding permissions_of
contains-permissions_of values permissions h a =
    let kept = unique (keep (λ v. not (is_empty v)) values) in
    let same : kept ≡ permissions = ground arith in
    rw (← same) (contains-unique a (keep (λ v. not (is_empty v)) values) ∙ contains-keep values a)

permissions_of-ne-nil :
    (values permissions : List String) → permissions_of values ≡ ok permissions → permissions ≢ []
unfolding permissions_of
permissions_of-ne-nil values permissions h = ground arith

check_scopes_sound :
    (scopes : List String) (a : String)
    → check_scopes scopes ≡ ok tt
    → contains a scopes ≡ true
    → is_valid_oauth_scope_token a ≡ true
unfolding check_scopes contains
check_scopes_sound [] a h m = ground arith
check_scopes_sound (s ∷ scopes) a h m = elim (Bool-cases (s == a)) [
  | inl same ↦ let e : s ≡ a = (eq_iff s a).0 same in rw (← e) (ground arith)
  | inr other ↦ check_scopes_sound scopes a (ground arith) (ground arith)
]

check_scopes_complete :
    (scopes : List String)
    → ((a : String) → contains a scopes ≡ true → is_valid_oauth_scope_token a ≡ true)
    → check_scopes scopes ≡ ok tt
unfolding check_scopes contains
check_scopes_complete [] h = refl
check_scopes_complete (s ∷ scopes) h =
    ground (arith, h s, eq_iff s s, check_scopes_complete scopes (λ a m. h a (ground arith)))

-- A policy of a kind whose permissions are the non-empty values among the given ones.
pub record IsBuilt (k : ToolPolicyKind) (values : List String) (p : ToolPolicy) : Type 0 where
  pub kind : p.kind ≡ k
  pub permissions : (a : String) → contains a p.permissions ≡ is_given values a
  pub some_permission : p.permissions ≢ []

-- Each permission is a scope-token of RFC 6749, so it can stand in a quoted header value.
abbrev pub IsSafe : ToolPolicy → Type 0
IsSafe p = (a : String) → contains a p.permissions ≡ true → is_valid_oauth_scope_token a ≡ true

tool_policy_fields :
    (k : ToolPolicyKind) (permissions : List String) (p : ToolPolicy)
    → tool_policy k permissions ≡ ok p
    → k ≢ authenticated
    → (p.kind ≡ k) × (p.permissions ≡ permissions) × (permissions ≢ [])
unfolding tool_policy
tool_policy_fields authenticated permissions p h n = absurd (n refl)
tool_policy_fields delegated_scopes [] p h n = cc
tool_policy_fields delegated_scopes (q ∷ qs) p h n = ground arith
tool_policy_fields application_roles [] p h n = cc
tool_policy_fields application_roles (q ∷ qs) p h n = ground arith
tool_policy_fields oauth_scopes [] p h n = cc
tool_policy_fields oauth_scopes (q ∷ qs) p h n = ground arith

tool_policy-eq-ok :
    (k : ToolPolicyKind) (permissions : List String)
    → k ≢ authenticated
    → permissions ≢ []
    → tool_policy k permissions ≡ ok (record { kind = k; permissions = permissions })
unfolding tool_policy
tool_policy-eq-ok authenticated permissions n m = absurd (n refl)
tool_policy-eq-ok k [] n m = absurd (m refl)
tool_policy-eq-ok delegated_scopes (q ∷ qs) n m = refl
tool_policy-eq-ok application_roles (q ∷ qs) n m = refl
tool_policy-eq-ok oauth_scopes (q ∷ qs) n m = refl

tool_policy-IsBuilt :
    (k : ToolPolicyKind) (values permissions : List String) (p : ToolPolicy)
    → k ≢ authenticated
    → permissions_of values ≡ ok permissions
    → tool_policy k permissions ≡ ok p
    → IsBuilt k values p
tool_policy-IsBuilt k values permissions p n h built =
    let (kind, same, some_permission) = tool_policy_fields k permissions p built n in
    record {
      kind = kind;
      permissions = λ a. rw same (contains-permissions_of values permissions h a);
      some_permission = rw same some_permission;
    }

-- `delegated_scopes` and `oauth_scopes` differ in the kind alone.
module _ (k : ToolPolicyKind) (n : k ≢ authenticated) (values : List String) where
  scope_policy-IsBuilt :
      (p : ToolPolicy)
      → (scope_permissions values >>= tool_policy k) ≡ ok p
      → IsBuilt k values p × IsSafe p
  unfolding scope_permissions
  scope_policy-IsBuilt p h =
      let (permissions, scoped, built) = >>=-eq-ok (scope_permissions values) (tool_policy k) h in
      let (found, kept, checked) =
        >>=-eq-ok (permissions_of values) (λ ps. check_scopes ps >>= λ _. ok ps) scoped in
      let (unit, passed, same) = >>=-eq-ok (check_scopes found) (λ _. ok found) checked in
      let same_permissions : found ≡ permissions = ground arith in
      let (kind, fields, _) = tool_policy_fields k permissions p built n in
      (
        tool_policy-IsBuilt k values permissions p n (rw (← same_permissions) kept) built,
        λ a m. check_scopes_sound found a passed (rw (same_permissions, ← fields) m),
      )

-- A scope policy that can be built has the kind asked for, at least one permission, as permissions
-- exactly the non-empty values given, and each of them is a scope-token of RFC 6749.
pub scope_policies-IsBuilt :
    (scopes : List String) (p : ToolPolicy)
    → (delegated_scopes_policy scopes ≡ ok p → IsBuilt delegated_scopes scopes p × IsSafe p)
      × (oauth_scopes_policy scopes ≡ ok p → IsBuilt oauth_scopes scopes p × IsSafe p)
unfolding delegated_scopes_policy oauth_scopes_policy
scope_policies-IsBuilt scopes p = (
  scope_policy-IsBuilt delegated_scopes (λ e. cc) scopes p,
  scope_policy-IsBuilt oauth_scopes (λ e. cc) scopes p,
)

no_items_of_contains : (ps : List String) (a : String) → contains a ps ≡ true → no_items ps ≡ false
unfolding contains
no_items_of_contains [] a m = cc
no_items_of_contains (p ∷ ps) a m = refl

-- the values that `_permissions` returns when there are any
abbrev given : List String → List String
given values = unique (keep (λ v. not (is_empty v)) values)

contains-given : (values : List String) (a : String) → contains a (given values) ≡ is_given values a
contains-given values a =
    contains-unique a (keep (λ v. not (is_empty v)) values) ∙ contains-keep values a

module _ (k : ToolPolicyKind) (n : k ≢ authenticated) (values : List String) (a : String)
    (h : is_given values a ≡ true)
    (valid : (b : String) → is_given values b ≡ true → is_valid_oauth_scope_token b ≡ true) where
  some_given : no_items (given values) ≡ false
  some_given = no_items_of_contains (given values) a (contains-given values a ∙ h)

  scope_permissions-given : scope_permissions values ≡ ok (given values)
  unfolding scope_permissions permissions_of
  scope_permissions-given =
      let checked =
        check_scopes_complete (given values) (λ b m. valid b (sym (contains-given values b) ∙ m)) in
      rw (some_given, checked)

  scope_policy-built :
      (scope_permissions values >>= tool_policy k)
      ≡ ok (record { kind = k; permissions = given values })
  scope_policy-built =
      rw scope_permissions-given
        (tool_policy-eq-ok k (given values) n (λ e. cc (ap no_items e, some_given)))

-- Conversely a scope policy can be built from values of which at least one is non-empty, when every
-- non-empty one is a scope-token.
pub scope_policies_exist :
    (scopes : List String) (a : String)
    → is_given scopes a ≡ true
    → ((b : String) → is_given scopes b ≡ true → is_valid_oauth_scope_token b ≡ true)
    → ((p : ToolPolicy) × (delegated_scopes_policy scopes ≡ ok p))
      × ((p : ToolPolicy) × (oauth_scopes_policy scopes ≡ ok p))
unfolding delegated_scopes_policy oauth_scopes_policy
scope_policies_exist scopes a h valid = (
  (_, scope_policy-built delegated_scopes (λ e. cc) scopes a h valid),
  (_, scope_policy-built oauth_scopes (λ e. cc) scopes a h valid),
)

safe_scopes_of_kind :
    (p : ToolPolicy) (k : ToolPolicyKind) (a : String)
    → IsSafe p
    → contains a (scopes_of_kind k p.permissions) ≡ true
    → is_valid_oauth_scope_token a ≡ true
unfolding contains
safe_scopes_of_kind p authenticated a safe m = cc
safe_scopes_of_kind p application_roles a safe m = cc
safe_scopes_of_kind p delegated_scopes a safe m = safe a (sym (contains-sorted a p.permissions) ∙ m)
safe_scopes_of_kind p oauth_scopes a safe m = safe a (sym (contains-sorted a p.permissions) ∙ m)

-- The scopes that a policy with safe permissions requires are safe too.
pub required_scopes-IsSafe :
    (p : ToolPolicy) (a : String)
    → IsSafe p
    → contains a (required_scopes p) ≡ true
    → is_valid_oauth_scope_token a ≡ true
unfolding required_scopes
required_scopes-IsSafe p a safe m = safe_scopes_of_kind p p.kind a safe m
