-- ===== src/SecurityAudit/Laws.antt =====
-- What an audit event can hold.
use Prim.Native.String
use text.Mathlib.TextLemmas.{cons-append, nil-append}
use native.Mathlib.Nat.{le_trans}
use mcp_server_auth_template.Base.{
  ℕ, ◌+◌, ◌≤◌, String, Option, none, some, List, [], ◌∷◌, ◌++◌, ◌≡◌, refl, true, arith, All,
}
use mcp_server_auth_template.Base.Text.{length, take, length-take-le}
use mcp_server_auth_template.Base.Sets.{contains}
use mcp_server_auth_template.Base.Value.{Value, str, int, Dict}
use mcp_server_auth_template.Principal.{Principal, PrincipalKind, kind_value}
use mcp_server_auth_template.SecurityAudit.{
  SecurityAuditAction, SecurityAuditOutcome, action_value, outcome_value, bounded_text,
  AuditDetails, principal_fields, bounded_field, text_field, count_field, emit_security_audit,
}

length-append : (s t : String) → length (String.◌++◌ s t) ≡ length s + length t
length-append String.[] t = rw nil-append (omega arith)
length-append (String.◌∷◌ c s) t = rw cons-append (omega (arith, length-append s t))

length-bounded_text-le :
    (value : String) (limit : ℕ) → length (bounded_text value limit) ≤ limit + 3
unfolding bounded_text
length-bounded_text-le value limit =
    ground (arith, length-append (take limit value) "...", length-take-le limit value)

abbrev pub audit_keys : List String
audit_keys =
    "schema_version" ∷ "action" ∷ "outcome" ∷ "reason" ∷ "principal_kind" ∷ "client_id"
    ∷ "tool_name" ∷ "status_code" ∷ "required_scope_count" ∷ "target_kind" ∷ []

-- A text of at most `n` characters, or a number.
abbrev pub IsBounded : ℕ → Value → Type 0
IsBounded n (str s) = length s ≤ n
IsBounded n (int z) = Unit
IsBounded n _ = ⊥

abbrev pub IsAllowed : String × Value → Type 0
IsAllowed (k, v) = (contains k audit_keys ≡ true) × IsBounded 259 v

All-append : (xs ys : Dict Value) → All IsAllowed xs → All IsAllowed ys → All IsAllowed (xs ++ ys)
All-append [] ys h k = k
All-append (x ∷ xs) ys (p, h) k = (p, All-append xs ys h k)

short : (value : String) → length (bounded_text value 256) ≤ 259
short value = length-bounded_text-le value 256

abbrev pub IsShort : Option String → Type 0
IsShort none = Unit
IsShort (some s) = length s ≤ 259

action_value-length : (a : SecurityAuditAction) → length (action_value a) ≤ 259
action_value-length SecurityAuditAction.authentication_rejected = omega arith
action_value-length _ = omega arith

outcome_value-length : (o : SecurityAuditOutcome) → length (outcome_value o) ≤ 259
outcome_value-length SecurityAuditOutcome.denied = omega arith
outcome_value-length _ = omega arith

kind_value-length : (k : PrincipalKind) → length (kind_value k) ≤ 259
kind_value-length PrincipalKind.delegated = omega arith
kind_value-length _ = omega arith

reason_short : (value : String) → length (bounded_text value 128) ≤ 259
reason_short value = le_trans (length-bounded_text-le value 128) (omega arith)

module _ (d : AuditDetails) where
  principal_fields-All : (who : Option Principal) → All IsAllowed (principal_fields who)
  unfolding contains
  principal_fields-All none = tt
  principal_fields-All (some u) =
      ((refl, kind_value-length u.kind), ((refl, short u.client_id), tt))

  tool_name-All : (name : Option String) → All IsAllowed (bounded_field "tool_name" 256 name)
  unfolding contains
  tool_name-All none = tt
  tool_name-All (some name) = ((refl, short name), tt)

  status_code-All : (n : Option ℕ) → All IsAllowed (count_field "status_code" n)
  unfolding contains
  status_code-All none = tt
  status_code-All (some n) = ((refl, tt), tt)

  count-All : (n : Option ℕ) → All IsAllowed (count_field "required_scope_count" n)
  unfolding contains
  count-All none = tt
  count-All (some n) = ((refl, tt), tt)

  target_kind-All : (k : Option String) → IsShort k → All IsAllowed (text_field "target_kind" k)
  unfolding contains
  target_kind-All none h = tt
  target_kind-All (some k) h = ((refl, h), tt)

-- Every field of an audit event has one of ten names and holds a number or a text of at most 259
-- characters, whatever the reason, the caller and the tool name, if the target kind (which the code
-- passes as a constant) is no longer than that; and of the caller the event shows only the kind and
-- the client id: two callers that agree on these give the same event.
pub emit_security_audit-IsAllowed :
    (action : SecurityAuditAction) (outcome : SecurityAuditOutcome) (d : AuditDetails)
    (u v : Principal)
    → IsShort d.target_kind
    → u.kind ≡ v.kind
    → u.client_id ≡ v.client_id
    → All IsAllowed (emit_security_audit action outcome d)
      × (emit_security_audit action outcome (record d { principal = some u })
          ≡ emit_security_audit action outcome (record d { principal = some v }))
unfolding emit_security_audit contains
emit_security_audit-IsAllowed action outcome d u v short_kind kinds clients = (
  (
    (refl, tt),
    (
      (refl, action_value-length action),
      (
        (refl, outcome_value-length outcome),
        (
          (refl, reason_short d.reason),
          All-append _ _ (principal_fields-All d d.principal) (
              All-append _ _ (tool_name-All d d.tool_name) (
                All-append _ _ (status_code-All d d.status_code) (
                  All-append _ _ (count-All d d.required_scope_count)
                    (target_kind-All d d.target_kind short_kind)))),
        ),
      ),
    ),
  ),
  rw (kinds, clients) refl,
)
