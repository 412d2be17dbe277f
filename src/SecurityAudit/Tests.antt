-- ===== src/SecurityAudit/Tests.antt =====
-- An event with every optional field.
use mcp_server_auth_template.Base.{All, [], arith, none, refl, some, ◌∷◌, ◌≡◌}
use mcp_server_auth_template.Principal.{Principal, delegated}
use mcp_server_auth_template.SecurityAudit.{
  AuditDetails, authorization_denied, bounded_text, denied, emit_security_audit,
}
use mcp_server_auth_template.SecurityAudit.Laws.{IsAllowed, emit_security_audit-IsAllowed}

abbrev caller : Principal
caller = record {
  client_id = "cli";
  subject = some "s";
  issuer = none;
  kind = delegated;
  scopes = "a" ∷ [];
  roles = [];
}

abbrev other_caller : Principal
other_caller = record {
  client_id = "cli";
  subject = none;
  issuer = some "i";
  kind = delegated;
  scopes = [];
  roles = "r" ∷ [];
}

abbrev everything : AuditDetails
everything = record {
  reason = "missing_permission";
  principal = some caller;
  tool_name = some "health";
  status_code = some 403;
  required_scope_count = some 2;
  target_kind = some "tool";
}

bounded_text_short : bounded_text "abcdef" 3 ≡ "abc..."
unfolding bounded_text
bounded_text_short = refl

emit_security_audit-IsAllowed_example :
    All IsAllowed (emit_security_audit authorization_denied denied everything)
    × (emit_security_audit authorization_denied denied
          (record everything { principal = some caller })
        ≡ emit_security_audit authorization_denied denied
            (record everything { principal = some other_caller }))
emit_security_audit-IsAllowed_example =
    emit_security_audit-IsAllowed authorization_denied denied everything caller other_caller
      (omega arith) refl refl
