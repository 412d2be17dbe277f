-- ===== src/Redaction.antt =====
-- src/mcp_server_auth_template/entrypoints/logging.py: the redaction of secrets before a log event is
-- rendered. `lower_str` is Python's `str.lower`, and `mask` the two substitutions by Python's `re`.
use mcp_server_auth_template.Base.{Bool, List, String, [], eqb, if◌then◌else◌, not, ◌++◌, ◌∷◌}
use mcp_server_auth_template.Base.Sets.{contains}
use mcp_server_auth_template.Base.Value.{
  Dict, Fields, Items, Value, arr, cons, end, field, nil, obj, str,
}
pub mod Laws
mod Tests
use Prim.Native.String
use Prim.Native.Char.{code}

abbrev pub sensitive_log_fields : List String
sensitive_log_fields =
    "access_token" ∷ "authorization" ∷ "bearer_token" ∷ "client_secret" ∷ "code_verifier"
    ∷ "id_token" ∷ "password" ∷ "proxy_authorization" ∷ "refresh_token" ∷ "token" ∷ []

-- `s.replace("-", "_")`
unfoldable pub dash_to_underscore : String → String
dash_to_underscore String.[] = String.[]
dash_to_underscore (String.◌∷◌ c s) =
    if eqb (code c) b'-'
    then String.◌++◌ "_" (dash_to_underscore s)
    else String.◌∷◌ c (dash_to_underscore s)

abbrev pub redacted : Value
redacted = str "[REDACTED]"

module _ (lower_str mask : String → String) where
  unfoldable pub is_sensitive : String → Bool
  unfolding contains dash_to_underscore
  is_sensitive key = contains (dash_to_underscore (lower_str key)) sensitive_log_fields

  -- `_redact_log_value`: by the shape of the value, for a key that is not sensitive; the key is
  -- tested where an entry is at hand, and an element of a list has the key "".
  unfoldable mutual
    pub redact_value : Value → Value
    redact_value (obj fs) = obj (redact_fields fs)
    redact_value (arr vs) = arr (redact_items vs)
    redact_value (str s) = str (mask s)
    redact_value v = v

    pub redact_items : Items → Items
    redact_items nil = nil
    redact_items (cons v vs) =
        let v' = redact_value v in cons (if is_sensitive "" then redacted else v') (redact_items vs)

    pub redact_fields : Fields → Fields
    redact_fields end = end
    redact_fields (field k v fs) =
        let v' = redact_value v in
        field k (if is_sensitive k then redacted else v') (redact_fields fs)

  -- redact_security_secrets
  unfoldable pub redact_security_secrets : Dict Value → Dict Value
  redact_security_secrets [] = []
  redact_security_secrets ((k, v) ∷ event) =
      (k, if is_sensitive k then redacted else redact_value v) ∷ redact_security_secrets event
