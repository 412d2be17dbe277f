-- ===== src/Server/Security.antt =====
-- src/mcp_server_auth_template/entrypoints/mcp_server.py: the allowlists of Host and Origin.
use mcp_server_auth_template.Base.{
  List, Option, String, [], eqb, if◌then◌else◌, keep, none, not, some, ℕ, ◌++◌, ◌==◌, ◌∷◌,
}
use mcp_server_auth_template.Base.Result.{Result, err, ok, ◌>>=◌}
use mcp_server_auth_template.Base.Text.{decimal, has_infix}
use mcp_server_auth_template.Server.{ServerError, bad_public_port, malformed_public_url, no_host}
use mcp_server_auth_template.Settings.{Python, Settings, UrlParts}
use Prim.Native.String
pub mod Laws

-- `list(dict.fromkeys(values))`: the first copy of each value, in order.
unfoldable pub deduplicate : List String → List String
unfolding keep
deduplicate [] = []
deduplicate (x ∷ xs) = x ∷ keep (λ y. not (y == x)) (deduplicate xs)

-- The Host and Origin values that stand for the public URL.
pub record Authority : Type 0 where
  pub hosts : List String
  pub origins : List String

abbrev pub join_colon : String → String → String
join_colon a b = String.◌++◌ a (String.◌++◌ ":" b)

abbrev pub with_scheme : String → String → String
with_scheme scheme host = String.◌++◌ scheme (String.◌++◌ "://" host)

abbrev pub wire_host : String → String
wire_host host = if has_infix ":" host then String.◌++◌ "[" (String.◌++◌ host "]") else host

abbrev pub default_port_of : String → ℕ
default_port_of scheme = if scheme == "https" then 443 else 80

-- the three branches on the port
unfoldable pub authority_for : String → String → Option ℕ → Authority
unfolding decimal
authority_for scheme host none = record {
  hosts = host ∷ join_colon host (decimal (default_port_of scheme)) ∷ [];
  origins = with_scheme scheme host ∷ [];
}
authority_for scheme host (some port) =
    if eqb port (default_port_of scheme)
    then record {
      hosts = host ∷ join_colon host (decimal port) ∷ [];
      origins = with_scheme scheme host ∷ with_scheme scheme (join_colon host (decimal port)) ∷ [];
    }
    else record {
      hosts = join_colon host (decimal port) ∷ [];
      origins = with_scheme scheme (join_colon host (decimal port)) ∷ [];
    }

abbrev pub authority_at : String → String → Option (Option ℕ) → Result ServerError Authority
authority_at scheme host none = err bad_public_port
authority_at scheme host (some port) = ok (authority_for scheme (wire_host host) port)

abbrev pub authority_of : Option UrlParts → Result ServerError Authority
authority_of none = err malformed_public_url
authority_of (some u) = elim u.hostname [
  | none ↦ err no_host
  | some host ↦ authority_at u.scheme host u.port
]

-- What TransportSecuritySettings is built from; its protection is on.
pub record TransportSecurity : Type 0 where
  pub allowed_hosts : List String
  pub allowed_origins : List String

module _ {Address : Type 0} (py : Python Address) where
  -- `_transport_authority`
  unfoldable pub transport_authority : Settings → Result ServerError Authority
  unfolding authority_for has_infix
  transport_authority s = authority_of (py.urlsplit s.resource_server_url)

  -- `_build_transport_security`
  unfoldable pub build_transport_security : Settings → Result ServerError TransportSecurity
  unfolding transport_authority deduplicate
  build_transport_security s = do
    authority ← transport_authority s
    ok (record {
      allowed_hosts = deduplicate (authority.hosts ++ s.transport_allowed_hosts);
      allowed_origins = deduplicate (authority.origins ++ s.transport_allowed_origins);
    })
