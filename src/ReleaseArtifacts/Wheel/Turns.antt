-- ===== src/ReleaseArtifacts/Wheel/Turns.antt =====
-- What one turn of the loop over the members of a wheel has checked, and what it leaves.
use mcp_server_auth_template.Base.{
  refl, ap, sym, ◌∙◌, All, Bool-cases, List, Option, String, [], arith, eq_iff, false, inl, inr,
  ltb, none, not, some, true, ◌==◌, ◌∷◌, ◌≡◌, ◌≤◌, ◌⊎◌,
}
use mcp_server_auth_template.Base.Result.{err, Result, >>=-eq-ok, ok, refuse_if-eq-ok}
use mcp_server_auth_template.ReleaseArtifacts.{
  ReleaseArtifactError, slash_join, ProjectIdentity, duplicate_member, link_not_allowed,
  max_metadata_bytes, metadata_too_large, safe_parts, unexpected_content, without_slash,
}
use mathlib.Core.Path.{subst}
use mcp_server_auth_template.Base.Sets.{contains}
use mcp_server_auth_template.Http.{Bytes}
use mcp_server_auth_template.ReleaseArtifacts.Paths.{IsSafePart}
use mcp_server_auth_template.ReleaseArtifacts.Safety.{safe_parts_sound}
use mcp_server_auth_template.ReleaseArtifacts.Wheel.{
  WheelScan, ZipMember, archive_read, dist_info, first_part, is_link, metadata_after, metadata_name,
  wheel_member,
}

abbrev pub normalized_name : ZipMember → String
unfolding without_slash
normalized_name member = without_slash member.filename

-- A member inside the package or its metadata, with no way out of the archive.
pub record IsCleanMember (identity : ProjectIdentity) (member : ZipMember) : Type 0 where
  pub parts : List String
  pub joined : slash_join parts ≡ normalized_name member
  pub safe : All IsSafePart parts
  pub rooted : contains (first_part parts) (identity.module_name ∷ dist_info identity ∷ []) ≡ true
  pub regular : is_link member ≡ false

-- The member is the metadata, within the limit, and reading it gives `raw`.
pub record IsMetadataOf (identity : ProjectIdentity) (raw : Bytes) (member : ZipMember)
    : Type 0 where
  pub called : normalized_name member ≡ metadata_name identity
  pub small : member.file_size ≤ max_metadata_bytes
  pub held : member.content ≡ some raw

pub record Turn (identity : ProjectIdentity) (scan after : WheelScan) (member : ZipMember)
    : Type 0 where
  pub clean : IsCleanMember identity member
  pub fresh : contains (normalized_name member) scan.seen ≡ false
  pub remembered : after.seen ≡ normalized_name member ∷ scan.seen
  pub origin :
      (raw : Bytes)
      → after.metadata ≡ some raw
      → (scan.metadata ≡ some raw) ⊎ IsMetadataOf identity raw member

pub ok_path :
    {a b : WheelScan} (r : Result ReleaseArtifactError WheelScan) → r ≡ ok a → r ≡ ok b → a ≡ b
ok_path (err e) h k = cc
ok_path (ok c) h k = ground arith

archive_read-gives :
    (content : Option Bytes) (result : Option Bytes) (raw : Bytes)
    → archive_read content ≡ ok result
    → result ≡ some raw
    → content ≡ some raw
archive_read-gives none result raw h e = cc
archive_read-gives (some bytes) result raw h e = cc

metadata_after-origin :
    (identity : ProjectIdentity) (member : ZipMember) (before result : Option Bytes) (raw : Bytes)
    → metadata_after identity (normalized_name member) member before ≡ ok result
    → result ≡ some raw
    → (before ≡ some raw) ⊎ IsMetadataOf identity raw member
unfolding metadata_after
metadata_after-origin identity member before result raw h e =
    elim (Bool-cases (normalized_name member == metadata_name identity)) [
      | inl same ↦
          let (small, read) =
            refuse_if-eq-ok (ltb max_metadata_bytes member.file_size) metadata_too_large
              (archive_read member.content) (rw same at h) in
          inr (record {
            called = (eq_iff (normalized_name member) (metadata_name identity)).0 same;
            small = ground (arith, small);
            held = archive_read-gives member.content result raw read e;
          })
      | inr other ↦ inl (cc (rw other at h, e))
    ]

pub wheel_member-Turn :
    (identity : ProjectIdentity) (scan after : WheelScan) (member : ZipMember)
    → wheel_member identity scan member ≡ ok after
    → Turn identity scan after member
unfolding wheel_member
wheel_member-Turn identity scan after member h =
    let (parts, accepted, h1) = >>=-eq-ok (safe_parts member.filename) _ h in
    let (joined, safe) = safe_parts_sound member.filename parts accepted in
    let (fresh, h2) =
      refuse_if-eq-ok (contains (slash_join parts) scan.seen) duplicate_member _ h1 in
    let (regular, h3) = refuse_if-eq-ok (is_link member) link_not_allowed _ h2 in
    let (rooted, h4) =
      refuse_if-eq-ok
        (not (contains (first_part parts) (identity.module_name ∷ dist_info identity ∷ [])))
        unexpected_content _ h3 in
    let (metadata, read, h5) =
      >>=-eq-ok (metadata_after identity (slash_join parts) member scan.metadata) _ h4 in
    let left = ok_path (ok _) refl h5 in
    record {
      clean = record {
        parts = parts;
        joined = joined;
        safe = safe;
        rooted = ground (arith, rooted);
        regular = regular;
      };
      fresh = ap (λ n. contains n scan.seen) (sym joined) ∙ fresh;
      remembered = sym (ap (λ s. s.seen) left) ∙ ap (λ n. n ∷ scan.seen) joined;
      origin = λ raw e.
          metadata_after-origin identity member scan.metadata metadata raw
            (subst (λ n. metadata_after identity n member scan.metadata ≡ ok metadata) joined read)
            (ap (λ s. s.metadata) left ∙ e);
    }
