-- ===== src/ReleaseArtifacts/Sdist/Turn.antt =====
-- What a whole turn of the loop over a source archive has checked, and what it leaves.
use mcp_server_auth_template.Base.{
  not, sym, ◌==◌, All, Bool-cases, List, String, [], ap, arith, eq_iff, false, inl, inr, ltb, refl,
  some, true, ◌||◌, ◌∙◌, ◌∷◌, ◌≡◌, ◌≤◌, ◌⊎◌,
}
use mcp_server_auth_template.ReleaseArtifacts.{
  duplicate_member, not_regular, unexpected_root, ProjectIdentity, is_unsafe, max_metadata_bytes,
  metadata_too_large, safe_parts, slash_join, split_slash, without_slash,
}
use mcp_server_auth_template.ReleaseArtifacts.Safety.{safe_parts_sound}
use mcp_server_auth_template.ReleaseArtifacts.Sdist.{
  place, relative_parts, sdist_member, Extracted, SdistScan, TarMember, absent, gives,
  is_package_info, package_info, raises, read_package_info,
}
use mcp_server_auth_template.ReleaseArtifacts.Sdist.Turns.{place-Placed, IsAllowed, IsAt, scan_path}
use mcp_server_auth_template.ReleaseArtifacts.Wheel.{first_part, release_name}
use mcp_server_auth_template.Base.Result.{>>=-eq-ok, ok, refuse_if-eq-ok}
use mcp_server_auth_template.Base.Sets.{contains}
use mcp_server_auth_template.Http.{Bytes}
use mcp_server_auth_template.ReleaseArtifacts.Paths.{IsSafePart}
use mathlib.Core.Path.{subst}

unfoldable pub normalized_name : TarMember → String
unfolding without_slash
normalized_name member = without_slash member.name

pub record IsCleanMember (identity : ProjectIdentity) (member : TarMember) : Type 0 where
  pub relative : List String
  pub standing : IsAt identity member relative
  pub joined : slash_join (release_name identity ∷ relative) ≡ normalized_name member
  pub safe : All IsSafePart (release_name identity ∷ relative)
  pub allowed : IsAllowed identity relative
  pub regular : (member.is_link ≡ false) × ((member.is_file || member.is_dir) ≡ true)

-- A file of the package's source.
pub record IsSource (identity : ProjectIdentity) (member : TarMember) : Type 0 where
  pub parts : List String
  pub standing : IsAt identity member ("src" ∷ identity.module_name ∷ parts)
  pub is_regular : member.is_file ≡ true

-- The metadata of the package, within the limit, which extracting gives as `raw`.
pub record IsPackageInfo (identity : ProjectIdentity) (raw : Bytes) (member : TarMember)
    : Type 0 where
  pub standing : IsAt identity member ("PKG-INFO" ∷ [])
  pub small : member.size ≤ max_metadata_bytes
  pub held : member.extracted ≡ gives raw

pub record Turn (identity : ProjectIdentity) (scan after : SdistScan) (member : TarMember)
    : Type 0 where
  pub clean : IsCleanMember identity member
  pub fresh : contains (normalized_name member) scan.seen ≡ false
  pub remembered : after.seen ≡ normalized_name member ∷ scan.seen
  pub root_origin :
      (file : String)
      → contains file after.root_files ≡ true
      → (contains file scan.root_files ≡ true) ⊎ IsAt identity member (file ∷ [])
  pub source_origin :
      after.source_seen ≡ true → (scan.source_seen ≡ true) ⊎ IsSource identity member
  pub origin :
      (raw : Bytes)
      → after.metadata ≡ some raw
      → (scan.metadata ≡ some raw) ⊎ IsPackageInfo identity raw member

-- What reading the metadata changes.
record Read (scan after : SdistScan) (member : TarMember) (relative : List String) : Type 0 where
  pub same_seen : after.seen ≡ scan.seen
  pub same_files : after.root_files ≡ scan.root_files
  pub same_source : after.source_seen ≡ scan.source_seen
  pub origin :
      (raw : Bytes)
      → after.metadata ≡ some raw
      → (scan.metadata ≡ some raw)
        ⊎ ((relative ≡ "PKG-INFO" ∷ [])
            × (member.size ≤ max_metadata_bytes)
            × (member.extracted ≡ gives raw))

package_info_is :
    (relative : List String) → is_package_info relative ≡ true → relative ≡ "PKG-INFO" ∷ []
package_info_is [] h = cc
package_info_is (file ∷ []) h = ap (λ f. f ∷ []) ((eq_iff file "PKG-INFO").0 h)
package_info_is (first ∷ second ∷ parts) h = cc

package_info-gives : (e : Extracted) (bytes : Bytes) → package_info e ≡ ok bytes → e ≡ gives bytes
package_info-gives raises bytes h = cc
package_info-gives absent bytes h = cc
package_info-gives (gives other) bytes h = cc

read_package_info-Read :
    (scan after : SdistScan) (member : TarMember) (relative : List String)
    → read_package_info scan member relative ≡ ok after
    → Read scan after member relative
unfolding read_package_info
read_package_info-Read scan after member relative h = elim (Bool-cases (is_package_info relative)) [
  | inl is_info ↦
      let (small, h1) =
        refuse_if-eq-ok (ltb max_metadata_bytes member.size) metadata_too_large _
          (rw is_info at h) in
      let (bytes, given, h2) = >>=-eq-ok (package_info member.extracted) _ h1 in
      subst (λ s. Read scan s member relative) (scan_path (ok _) refl h2)
        (record {
          same_seen = refl;
          same_files = refl;
          same_source = refl;
          origin = λ raw e. inr (
            package_info_is relative is_info,
            ground (arith, small),
            package_info-gives member.extracted bytes given ∙ ap gives (cc e),
          );
        })
  | inr other ↦
      subst (λ s. Read scan s member relative) (scan_path (ok scan) refl (rw other at h))
        (record {
          same_seen = refl;
          same_files = refl;
          same_source = refl;
          origin = λ raw e. inl e;
        })
]

safe_parts-nonempty : (name : String) → safe_parts name ≡ ok [] → ⊥
unfolding safe_parts split_slash
safe_parts-nonempty name h =
    elim (Bool-cases (is_unsafe (without_slash name) (split_slash (without_slash name)))) [
      | inl e ↦ cc (rw e at h)
      | inr e ↦ cc (rw e at h)
    ]

starts_at_root :
    (root name : String) (parts : List String)
    → safe_parts name ≡ ok parts
    → (first_part parts == root) ≡ true
    → parts ≡ root ∷ relative_parts parts
starts_at_root root name [] accepted h = elim (safe_parts-nonempty name accepted) [ ]
starts_at_root root name (part ∷ parts) accepted h = ap (λ p. p ∷ parts) ((eq_iff part root).0 h)

pub sdist_member-Turn :
    (identity : ProjectIdentity) (scan after : SdistScan) (member : TarMember)
    → sdist_member identity scan member ≡ ok after
    → Turn identity scan after member
unfolding sdist_member normalized_name
sdist_member-Turn identity scan after member h =
    let (parts, accepted, h1) = >>=-eq-ok (safe_parts member.name) _ h in
    let (joined, safe) = safe_parts_sound member.name parts accepted in
    let (fresh, h2) =
      refuse_if-eq-ok (contains (slash_join parts) scan.seen) duplicate_member _ h1 in
    let (regular, h3) =
      refuse_if-eq-ok (member.is_link || not (member.is_file || member.is_dir)) not_regular _ h2 in
    let (rooted, h4) =
      refuse_if-eq-ok (not (first_part parts == release_name identity)) unexpected_root _ h3 in
    let (middle, put, h5) = >>=-eq-ok (place identity _ member (relative_parts parts)) _ h4 in
    let placed = place-Placed identity _ middle member (relative_parts parts) put in
    let read = read_package_info-Read middle after member (relative_parts parts) h5 in
    let whole =
      starts_at_root (release_name identity) member.name parts accepted (ground (arith, rooted)) in
    let standing : IsAt identity member (relative_parts parts) = accepted ∙ ap ok whole in
    let at : (relative : List String)
        → relative_parts parts ≡ relative
        → IsAt identity member relative =
      λ relative e. subst (IsAt identity member) e standing in
    record {
      clean = record {
        relative = relative_parts parts;
        standing = standing;
        joined = ap slash_join (sym whole) ∙ joined;
        safe = subst (All IsSafePart) whole safe;
        allowed = placed.allowed;
        regular = (ground (arith, regular), ground (arith, regular));
      };
      fresh = ap (λ n. contains n scan.seen) (sym joined) ∙ fresh;
      remembered = read.same_seen ∙ placed.same_seen ∙ ap (λ n. n ∷ scan.seen) joined;
      root_origin = λ file e.
          elim (placed.root_origin file (ap (contains file) (sym read.same_files) ∙ e)) [
            | inl old ↦ inl old
            | inr here ↦ inr (at (file ∷ []) here)
          ];
      source_origin = λ e. elim (placed.source_origin (sym read.same_source ∙ e)) [
        | inl old ↦ inl old
        | inr (rest, here, plain) ↦ inr (record {
          parts = rest;
          standing = at ("src" ∷ identity.module_name ∷ rest) here;
          is_regular = plain;
        })
      ];
      origin = λ raw e. elim (read.origin raw e) [
        | inl old ↦ inl (sym placed.same_metadata ∙ old)
        | inr (here, small, held) ↦
            inr (record { standing = at ("PKG-INFO" ∷ []) here; small = small; held = held })
      ];
    }
