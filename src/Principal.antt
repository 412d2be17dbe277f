-- ===== src/Principal.antt =====
-- src/mcp_server_auth_template/domain/principal.py. A frozenset is a list of which only the
-- elements matter.
use mcp_server_auth_template.Base.{String, Option, List}

pub data PrincipalKind : Type 0 where
  delegated application unknown : PrincipalKind

pub record Principal : Type 0 where
  pub client_id : String
  pub subject : Option String
  pub issuer : Option String
  pub kind : PrincipalKind
  pub scopes : List String
  pub roles : List String

-- `kind.value`
abbrev pub kind_value : PrincipalKind → String
kind_value PrincipalKind.delegated = "delegated"
kind_value PrincipalKind.application = "application"
kind_value PrincipalKind.unknown = "unknown"
