-- ===== src/SecurityAudit.antt =====
-- src/mcp_server_auth_template/adapters/security_audit.py: the fields of an audit event. The logger
-- is not in the repository: an event is the dict that it is handed.
pub mod Laws
mod Tests
use Prim.Native.String
use mcp_server_auth_template.Base.{
  ℕ, String, Option, none, some, List, [], ◌∷◌, ◌++◌, leb, if◌then◌else◌,
}
use mcp_server_auth_template.Base.Text.{length, take}
use mcp_server_auth_template.Base.Value.{Value, str, int, pos, Dict}
use mcp_server_auth_template.Principal.{Principal, kind_value}

pub data SecurityAuditAction : Type 0 where
  authentication_rejected authorization_denied oauth_scope_step_up transport_rejected :
      SecurityAuditAction
  outbound_credential_blocked : SecurityAuditAction

pub data SecurityAuditOutcome : Type 0 where
  denied challenged : SecurityAuditOutcome

-- `action.value`
abbrev pub action_value : SecurityAuditAction → String
action_value authentication_rejected = "authentication_rejected"
action_value authorization_denied = "authorization_denied"
action_value oauth_scope_step_up = "oauth_scope_step_up"
action_value transport_rejected = "transport_rejected"
action_value outbound_credential_blocked = "outbound_credential_blocked"

-- `outcome.value`
abbrev pub outcome_value : SecurityAuditOutcome → String
outcome_value denied = "denied"
outcome_value challenged = "challenged"

-- `_bounded_text`
unfoldable pub bounded_text : String → ℕ → String
bounded_text value limit =
    if leb (length value) limit then value else String.◌++◌ (take limit value) "..."

-- The keyword arguments of `emit_security_audit`.
pub record AuditDetails : Type 0 where
  pub reason : String
  pub principal : Option Principal
  pub tool_name : Option String
  pub status_code : Option ℕ
  pub required_scope_count : Option ℕ
  pub target_kind : Option String

abbrev pub details : String → AuditDetails
details reason = record {
  reason = reason;
  principal = none;
  tool_name = none;
  status_code = none;
  required_scope_count = none;
  target_kind = none;
}

abbrev pub principal_fields : Option Principal → Dict Value
principal_fields none = []
principal_fields (some u) =
    ("principal_kind", str (kind_value u.kind))
    ∷ ("client_id", str (bounded_text u.client_id 256))
    ∷ []

abbrev pub bounded_field : String → ℕ → Option String → Dict Value
bounded_field key limit none = []
bounded_field key limit (some value) = (key, str (bounded_text value limit)) ∷ []

abbrev pub text_field : String → Option String → Dict Value
text_field key none = []
text_field key (some value) = (key, str value) ∷ []

abbrev pub count_field : String → Option ℕ → Dict Value
count_field key none = []
count_field key (some n) = (key, int (pos n)) ∷ []

-- The fields of the event that `emit_security_audit` logs.
unfoldable pub emit_security_audit :
    SecurityAuditAction → SecurityAuditOutcome → AuditDetails → Dict Value
unfolding bounded_text
emit_security_audit action outcome d =
    ("schema_version", int (pos 1))
    ∷ ("action", str (action_value action))
    ∷ ("outcome", str (outcome_value outcome))
    ∷ ("reason", str (bounded_text d.reason 128))
    ∷ (principal_fields d.principal
        ++ (bounded_field "tool_name" 256 d.tool_name
            ++ (count_field "status_code" d.status_code
                ++ (count_field "required_scope_count" d.required_scope_count
                    ++ text_field "target_kind" d.target_kind))))
