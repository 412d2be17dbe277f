-- ===== src/ReleaseArtifacts/Names.antt =====
-- The names of an archive's members, against those that a loop has seen.
-- None of the names is one of those seen.
use mcp_server_auth_template.Base.{All, List, String, [], arith, eq_iff, false, refl, ◌∷◌, ◌≡◌}
use mcp_server_auth_template.Base.Sets.{contains}

abbrev pub Unseen : List String → List String → Type 0
Unseen seen names = All (λ n. contains n seen ≡ false) names

pub Unseen-head :
    (name : String) (seen names : List String)
    → Unseen (name ∷ seen) names
    → (contains name names ≡ false) × Unseen seen names
unfolding contains
Unseen-head name seen [] h = (refl, tt)
Unseen-head name seen (n ∷ names) (first, rest) =
    let (later, others) = Unseen-head name seen names rest in
    (ground (arith, first, later, eq_iff name n, eq_iff n name), (ground (arith, first), others))
