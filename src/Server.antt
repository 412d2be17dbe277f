-- ===== src/Server.antt =====
-- src/mcp_server_auth_template/entrypoints/mcp_server.py: what the server is built from.
use mcp_server_auth_template.Base.{List, Option, String, [], false, none, some, true, ◌∷◌}
use mcp_server_auth_template.Base.Value.{Dict, Items, Value, arr, bool, cons, nil, null, str}
use mcp_server_auth_template.McpPrincipal.{AccessToken}
use mcp_server_auth_template.OidcNetwork.{NetworkError}
use mcp_server_auth_template.ToolAuthorization.{PolicyError}
pub mod Registry
pub mod Assembly
pub mod Security
pub mod Surface
pub mod Lifespan
pub mod Preflight
mod Tests

-- The exceptions that leave the builders: their own RuntimeErrors, and those of what they build.
pub data ServerError : Type 0 where
  no_host malformed_public_url bad_public_port : ServerError
  entra_incomplete generic_incomplete no_issuer : ServerError
  network : NetworkError → ServerError
  policy : PolicyError → ServerError

abbrev pub text_or_null : Option String → Value
text_or_null none = null
text_or_null (some text) = str text

abbrev pub text_items : List String → Items
text_items [] = nil
text_items (text ∷ texts) = cons (str text) (text_items texts)

-- `_whoami`, on `get_access_token()`
unfoldable pub whoami : Option AccessToken → Dict Value
whoami none = ("authenticated", bool false) ∷ []
whoami (some t) =
    ("authenticated", bool true)
    ∷ ("client_id", str t.client_id)
    ∷ ("subject", text_or_null t.subject)
    ∷ ("scopes", arr (text_items t.scopes))
    ∷ []

-- `_health`
unfoldable pub health : Dict Value
health = ("status", str "ok") ∷ []
