-- ===== src/ReleaseArtifacts/Wheel.antt =====
-- scripts/prepare_release_artifacts.py: validate_wheel. The members of an archive are those that
-- zipfile lists, with what reading them gives (none where it raises OSError or BadZipFile).
use mcp_server_auth_template.Base.{
  if◌then◌else◌, ◌++◌, length, Bool, List, Option, String, [], any, eqb, ltb, none, not, some, ℕ,
  ◌%◌, ◌/◌, ◌==◌, ◌∷◌,
}
use mcp_server_auth_template.ReleaseArtifacts.{
  slash_join, ProjectIdentity, ReleaseArtifactError, content_missing, duplicate_member,
  invalid_archive, link_not_allowed, max_archive_members, max_metadata_bytes, metadata_missing,
  metadata_too_large, safe_parts, too_many_members, unexpected_content, validate_metadata,
  wrong_filename,
}
use Prim.Native.String
use mcp_server_auth_template.Base.Result.{Result, err, ok, refuse_if, ◌>>=◌}
use mcp_server_auth_template.Base.Sets.{contains}
use mcp_server_auth_template.Base.Text.{starts_with}
use mcp_server_auth_template.Http.{Bytes}
pub mod Turns
pub mod Laws

pub record ZipMember : Type 0 where
  pub filename : String
  pub external_attr : ℕ
  pub file_size : ℕ
  pub content : Option Bytes

-- `(external_attr >> 16) & 0o170000 == stat.S_IFLNK`
abbrev pub is_link : ZipMember → Bool
is_link member = eqb (member.external_attr / 268435456 % 16) 10

-- the names seen, and the metadata once they are read
pub record WheelScan : Type 0 where
  pub seen : List String
  pub metadata : Option Bytes

abbrev pub first_part : List String → String
first_part [] = ""
first_part (part ∷ parts) = part

abbrev pub release_name : ProjectIdentity → String
release_name identity = String.◌++◌ identity.module_name (String.◌++◌ "-" identity.version)

abbrev pub dist_info : ProjectIdentity → String
dist_info identity = String.◌++◌ (release_name identity) ".dist-info"

abbrev pub metadata_name : ProjectIdentity → String
metadata_name identity = String.◌++◌ (dist_info identity) "/METADATA"

abbrev pub archive_read : Option Bytes → Result ReleaseArtifactError (Option Bytes)
archive_read none = err invalid_archive
archive_read (some bytes) = ok (some bytes)

-- What the scan holds as metadata behind a member.
unfoldable pub metadata_after :
    ProjectIdentity → String → ZipMember → Option Bytes → Result ReleaseArtifactError (Option Bytes)
metadata_after identity normalized member metadata =
    if normalized == metadata_name identity
    then (refuse_if (ltb max_metadata_bytes member.file_size) metadata_too_large >>= λ done.
        archive_read member.content)
    else ok metadata

-- One turn of the loop.
unfoldable pub wheel_member :
    ProjectIdentity → WheelScan → ZipMember → Result ReleaseArtifactError WheelScan
unfolding safe_parts slash_join contains metadata_after
wheel_member identity scan member = safe_parts member.filename >>= λ parts.
    let normalized = slash_join parts in
    refuse_if (contains normalized scan.seen) duplicate_member >>= λ fresh.
    refuse_if (is_link member) link_not_allowed >>= λ regular.
    refuse_if (not (contains (first_part parts) (identity.module_name ∷ dist_info identity ∷ [])))
      unexpected_content
    >>= λ rooted. metadata_after identity normalized member scan.metadata >>= λ metadata.
        ok (record { seen = normalized ∷ scan.seen; metadata = metadata })

unfoldable pub wheel_members :
    ProjectIdentity → WheelScan → List ZipMember → Result ReleaseArtifactError WheelScan
unfolding wheel_member
wheel_members identity scan [] = ok scan
wheel_members identity scan (member ∷ members) =
    wheel_member identity scan member >>= λ after. wheel_members identity after members

abbrev pub found_metadata : Option Bytes → Result ReleaseArtifactError Bytes
found_metadata none = err metadata_missing
found_metadata (some bytes) = ok bytes

abbrev pub opened : Option (List ZipMember) → Result ReleaseArtifactError (List ZipMember)
opened none = err invalid_archive
opened (some members) = ok members

unfoldable pub in_module : ProjectIdentity → String → Bool
unfolding starts_with
in_module identity name = starts_with name (String.◌++◌ identity.module_name "/")

-- validate_wheel of a file name and of the members, which are none where the archive does not open
unfoldable pub validate_wheel :
    (String → String)
    → (Bytes → Option String × Option String)
    → String
    → Option (List ZipMember)
    → ProjectIdentity
    → Result ReleaseArtifactError (Unit {0})
unfolding wheel_members validate_metadata in_module
validate_wheel lower_str parse filename archive identity =
    refuse_if (not (filename == String.◌++◌ (release_name identity) "-py3-none-any.whl"))
      wrong_filename
    >>= λ named. opened archive >>= λ members.
        refuse_if (ltb max_archive_members (length members)) too_many_members >>= λ bounded.
        wheel_members identity (record { seen = []; metadata = none }) members >>= λ scan.
        found_metadata scan.metadata >>= λ bytes.
        refuse_if (not (any (in_module identity) scan.seen)) content_missing >>= λ present.
        validate_metadata lower_str parse bytes identity
