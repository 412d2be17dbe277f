-- ===== src/ScopeClaims/Tests.antt =====
-- The claims of scope_claims.py at concrete tokens.
use mcp_server_auth_template.Base.{String, [], ◌∷◌, ◌≡◌, refl}
use mcp_server_auth_template.Base.Value.{Value, str, arr, nil, cons, null, Dict}
use mcp_server_auth_template.ScopeClaims.{scopes_from_claims, roles_from_claims, qualify_scopes}

abbrev token_claims : Dict Value
token_claims =
    ("scope", str "read  write")
    ∷ ("scp", str "mail read\n")
    ∷ ("roles", arr (cons (str "Admin") (cons null (cons (str "") nil))))
    ∷ []

scopes_of_token : scopes_from_claims token_claims ≡ "mail" ∷ "read" ∷ "write" ∷ []
unfolding scopes_from_claims
scopes_of_token = refl

roles_of_token : roles_from_claims token_claims ≡ "Admin" ∷ []
unfolding roles_from_claims
roles_of_token = refl

abbrev api_uri : String
api_uri = "api://app/"

qualified_scopes :
    qualify_scopes ("read" ∷ "" ∷ "api://other/read" ∷ []) api_uri
    ≡ "api://app/read" ∷ "api://other/read" ∷ []
unfolding qualify_scopes
qualified_scopes = refl
