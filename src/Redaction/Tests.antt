-- ===== src/Redaction/Tests.antt =====
-- An event with a secret at the top and one inside.
use mcp_server_auth_template.Base.{All, String, [], refl, ◌∷◌, ◌≡◌}
use mcp_server_auth_template.Base.Value.{Dict, Value, end, field, obj, str}
use mcp_server_auth_template.Redaction.{
  is_sensitive, redact_security_secrets, redact_value, redacted,
}
use mcp_server_auth_template.Redaction.Laws.{IsRenderable, redact_security_secrets-IsRenderable}

abbrev same_text : String → String
same_text s = s

abbrev event : Dict Value
event =
    ("access-token", str "secret")
    ∷ ("request", obj (field "password" (str "p") (field "path" (str "/mcp") end)))
    ∷ []

secrets_are_masked :
    redact_security_secrets same_text same_text event
    ≡ ("access-token", redacted)
      ∷ ("request", obj (field "password" redacted (field "path" (str "/mcp") end)))
      ∷ []
unfolding redact_security_secrets is_sensitive redact_value
secrets_are_masked = refl

redact_security_secrets-IsRenderable_example :
    All (IsRenderable same_text same_text) (redact_security_secrets same_text same_text event)
redact_security_secrets-IsRenderable_example =
    redact_security_secrets-IsRenderable same_text same_text event
