-- ===== src/McpPrincipal.antt =====
-- src/mcp_server_auth_template/adapters/mcp_principal.py: the principal of a request. AccessToken and
-- AuthenticatedUser are classes of the MCP SDK, of which the records here have the fields that are
-- read.
pub mod Laws
mod Tests
use mcp_server_auth_template.Base.{
  ℕ, String, Bool, true, false, not, ◌&&◌, Option, none, some, List, [], ◌∷◌, if◌then◌else◌,
}
use mcp_server_auth_template.Base.Sets.{no_items}
use mcp_server_auth_template.Base.Value.{Value, null, str, Dict, get, equals_str, is_null}
use mcp_server_auth_template.Principal.{Principal, PrincipalKind, delegated, application, unknown}
use mcp_server_auth_template.ScopeClaims.{claim_words, roles_from_claims}

pub data AuthProvider : Type 0 where
  entra generic : AuthProvider

-- An absent `claims` is `none`.
pub record AccessToken : Type 0 where
  pub token : String
  pub client_id : String
  pub scopes : List String
  pub expires_at : ℕ
  pub resource : String
  pub subject : Option String
  pub claims : Option (Dict Value)

-- `request.user`: Starlette raises where no authentication middleware ran, and the user may be of
-- another class than AuthenticatedUser.
pub data RequestUser : Type 0 where
  unset other : RequestUser
  authenticated_user : AccessToken → RequestUser

-- `access_token.claims or {}`
abbrev pub claims_or_empty : Option (Dict Value) → Dict Value
claims_or_empty none = []
claims_or_empty (some claims) = claims

-- Contradictory token shapes are neither delegated nor an application's.
abbrev pub classify : (has_delegated_scopes is_app : Bool) → PrincipalKind
classify true is_app = if is_app then unknown else delegated
classify false is_app = if is_app then application else unknown

-- `_entra_principal_kind`
unfoldable pub entra_principal_kind : Dict Value → PrincipalKind
unfolding claim_words get
entra_principal_kind claims =
    classify (not (no_items (claim_words (get "scp" claims))))
      (equals_str (get "idtyp" claims) "app")

abbrev pub kind_for : AuthProvider → Dict Value → PrincipalKind
kind_for entra claims = entra_principal_kind claims
kind_for generic claims = unknown

abbrev pub roles_for : AuthProvider → Dict Value → List String
roles_for entra claims = roles_from_claims claims
roles_for generic claims = []

-- `_access_token_from_request`
unfoldable pub access_token_from_request : Option RequestUser → Option AccessToken
access_token_from_request none = none
access_token_from_request (some unset) = none
access_token_from_request (some other) = none
access_token_from_request (some (authenticated_user t)) = some t

-- `print_value` is what Python's `str` returns for a value that is no text.
module _ (print_value : Value → String) where
  -- `str(value)`
  abbrev pub text_of : Value → String
  text_of (str s) = s
  text_of v = print_value v

  abbrev pub issuer_of : Value → Option String
  issuer_of null = none
  issuer_of v = some (text_of v)

  unfoldable pub principal_from_access_token : AccessToken → AuthProvider → Principal
  unfolding entra_principal_kind roles_from_claims get
  principal_from_access_token t provider =
      let claims = claims_or_empty t.claims in
      record {
        client_id = t.client_id;
        subject = t.subject;
        issuer = issuer_of (get "iss" claims);
        kind = kind_for provider claims;
        scopes = t.scopes;
        roles = roles_for provider claims;
      }

  abbrev pub principal_of : Option AccessToken → AuthProvider → Option Principal
  principal_of none provider = none
  principal_of (some t) provider = some (principal_from_access_token t provider)

  unfoldable pub principal_from_request : Option RequestUser → AuthProvider → Option Principal
  unfolding access_token_from_request principal_from_access_token
  principal_from_request request provider =
      principal_of (access_token_from_request request) provider
