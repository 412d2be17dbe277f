-- ===== src/ScopeClaims.antt =====
-- src/mcp_server_auth_template/domain/scope_claims.py: scopes and roles from the claims of a token,
-- and scopes qualified with the URI of the resource.
pub mod Laws
pub mod Qualified
mod Tests
use Prim.Native.String
use mcp_server_auth_template.Base.{
  ℕ, String, Bool, List, [], ◌∷◌, ◌++◌, map, not, eqb, keep, if◌then◌else◌,
}
use mcp_server_auth_template.Base.Text.{is_empty, split, has_infix, rstrip}
use mcp_server_auth_template.Base.Sets.{sorted_set}
use mcp_server_auth_template.Base.Value.{Value, str, arr, Items, nil, cons, items, Dict, get}

-- `claim.split()` of a claim that is a text; any other claim adds no scope.
unfoldable pub claim_words : Value → List String
unfolding split
claim_words (str s) = split s
claim_words _ = []

unfoldable pub scopes_from_claims : Dict Value → List String
unfolding claim_words get sorted_set
scopes_from_claims claims =
    sorted_set (claim_words (get "scope" claims) ++ claim_words (get "scp" claims))

-- The elements of a list of roles that are non-empty texts.
unfoldable pub role_texts : List Value → List String
role_texts [] = []
role_texts (str s ∷ vs) = let rest = role_texts vs in if is_empty s then rest else s ∷ rest
role_texts (_ ∷ vs) = role_texts vs

unfoldable pub role_values : Value → List String
unfolding role_texts sorted_set
role_values (arr vs) = sorted_set (role_texts (items vs))
role_values _ = []

unfoldable pub roles_from_claims : Dict Value → List String
unfolding role_values get
roles_from_claims claims = role_values (get "roles" claims)

-- `f"{resource_uri.rstrip('/')}/"`
unfoldable pub resource_prefix : String → String
unfolding rstrip
resource_prefix uri = String.◌++◌ (rstrip (λ c. eqb c b'/') uri) "/"

unfoldable pub qualify : String → String → String
unfolding has_infix
qualify prefix scope = if has_infix "://" scope then scope else String.◌++◌ prefix scope

unfoldable pub qualify_scopes : List String → String → List String
unfolding resource_prefix qualify sorted_set keep
qualify_scopes scopes uri =
    sorted_set (map (qualify (resource_prefix uri)) (keep (λ s. not (is_empty s)) scopes))
