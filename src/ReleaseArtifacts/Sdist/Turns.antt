-- ===== src/ReleaseArtifacts/Sdist/Turns.antt =====
-- What one turn of the loop over the members of a source archive has checked, and what it leaves.
use mcp_server_auth_template.Base.{
  Bool-cases, List, String, [], ap, arith, eq_iff, inl, inr, refl, true, ◌&&◌, ◌==◌, ◌||◌, ◌∷◌, ◌≡◌,
  ◌⊎◌,
}
use mcp_server_auth_template.Base.Result.{Result, err, ok}
use mcp_server_auth_template.Base.Sets.{contains}
use mcp_server_auth_template.ReleaseArtifacts.{ProjectIdentity, ReleaseArtifactError, safe_parts}
use mcp_server_auth_template.ReleaseArtifacts.Sdist.{
  SdistScan, TarMember, allowed_sdist_root_files, place,
}
use mcp_server_auth_template.ReleaseArtifacts.Wheel.{release_name}
use mathlib.Core.Path.{subst}

-- The member stands at these parts below the root of the release.
abbrev pub IsAt : ProjectIdentity → TarMember → List String → Type 0
IsAt identity member relative = safe_parts member.name ≡ ok (release_name identity ∷ relative)

-- The root, one of its allowed files, or a path below the package's source.
abbrev pub IsAllowed : ProjectIdentity → List String → Type 0
IsAllowed identity [] = Unit
IsAllowed identity (file ∷ []) = contains file allowed_sdist_root_files ≡ true
IsAllowed identity (first ∷ second ∷ parts) = (first ≡ "src") × (second ≡ identity.module_name)

-- What `place` has checked, and what it leaves.
pub record Placed (identity : ProjectIdentity) (scan after : SdistScan) (member : TarMember)
    (relative : List String) : Type 0 where
  pub allowed : IsAllowed identity relative
  pub same_seen : after.seen ≡ scan.seen
  pub same_metadata : after.metadata ≡ scan.metadata
  pub root_origin :
      (file : String)
      → contains file after.root_files ≡ true
      → (contains file scan.root_files ≡ true) ⊎ (relative ≡ file ∷ [])
  pub source_origin :
      after.source_seen ≡ true
      → (scan.source_seen ≡ true)
        ⊎ ((parts : List String) × (relative ≡ "src" ∷ identity.module_name ∷ parts)
            × (member.is_file ≡ true))

pub scan_path :
    {a b : SdistScan} (r : Result ReleaseArtifactError SdistScan) → r ≡ ok a → r ≡ ok b → a ≡ b
scan_path (err e) h k = cc
scan_path (ok c) h k = ground arith

root_file-Placed :
    (identity : ProjectIdentity) (scan : SdistScan) (member : TarMember) (file : String)
    → contains file allowed_sdist_root_files ≡ true
    → Placed identity scan (record scan { root_files = file ∷ scan.root_files }) member (file ∷ [])
unfolding contains
root_file-Placed identity scan member file h = record {
  allowed = h;
  same_seen = refl;
  same_metadata = refl;
  root_origin = λ other e. elim (Bool-cases (file == other)) [
    | inl same ↦ inr (ap (λ f. f ∷ []) ((eq_iff file other).0 same))
    | inr different ↦ inl (rw different at e)
  ];
  source_origin = λ e. inl e;
}

source-Placed :
    (identity : ProjectIdentity) (scan : SdistScan) (member : TarMember) (first second : String)
    (parts : List String)
    → first ≡ "src"
    → second ≡ identity.module_name
    → Placed identity scan
        (record scan { source_seen = scan.source_seen || member.is_file })
        member
        (first ∷ second ∷ parts)
source-Placed identity scan member first second parts src module_dir = record {
  allowed = (src, module_dir);
  same_seen = refl;
  same_metadata = refl;
  root_origin = λ file e. inl e;
  source_origin = λ e. elim (Bool-cases scan.source_seen) [
    | inl before ↦ inl before
    | inr fresh ↦ inr (parts, rw (src, module_dir) refl, rw fresh at e)
  ];
}

pub place-Placed :
    (identity : ProjectIdentity) (scan after : SdistScan) (member : TarMember)
    (relative : List String)
    → place identity scan member relative ≡ ok after
    → Placed identity scan after member relative
unfolding place
place-Placed identity scan after member [] h =
    subst (λ s. Placed identity scan s member []) (scan_path (ok scan) refl h)
      (record {
        allowed = tt;
        same_seen = refl;
        same_metadata = refl;
        root_origin = λ file e. inl e;
        source_origin = λ e. inl e;
      })
place-Placed identity scan after member (file ∷ []) h =
    elim (Bool-cases (contains file allowed_sdist_root_files)) [
      | inl listed ↦
          subst (λ s. Placed identity scan s member (file ∷ []))
            (scan_path (ok _) refl (rw listed at h))
            (root_file-Placed identity scan member file listed)
      | inr other ↦ cc (rw other at h)
    ]
place-Placed identity scan after member (first ∷ second ∷ parts) h =
    elim (Bool-cases (first == "src" && second == identity.module_name)) [
      | inl inside ↦
          subst (λ s. Placed identity scan s member (first ∷ second ∷ parts))
            (scan_path (ok _) refl (rw inside at h))
            (source-Placed identity scan member first second parts
              ((eq_iff first "src").0 (ground arith))
              ((eq_iff second identity.module_name).0 (ground arith)))
      | inr other ↦ cc (rw other at h)
    ]
