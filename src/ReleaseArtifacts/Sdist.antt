-- ===== src/ReleaseArtifacts/Sdist.antt =====
-- scripts/prepare_release_artifacts.py: validate_sdist. The members of an archive are those that
-- tarfile lists, with what extracting them gives.
use mcp_server_auth_template.Base.{
  length, Bool, List, Option, String, [], false, if◌then◌else◌, ltb, none, not, some, ℕ, ◌&&◌, ◌++◌,
  ◌==◌, ◌||◌, ◌∷◌,
}
use mcp_server_auth_template.Base.Result.{Result, err, ok, refuse_if, ◌>>=◌}
use mcp_server_auth_template.Base.Sets.{contains, subset}
use mcp_server_auth_template.Http.{Bytes}
use mcp_server_auth_template.ReleaseArtifacts.{
  ProjectIdentity, ReleaseArtifactError, duplicate_member, invalid_archive, max_archive_members,
  max_metadata_bytes, metadata_too_large, metadata_unreadable, not_regular, root_files_missing,
  safe_parts, slash_join, source_missing, too_many_members, unexpected_content, unexpected_root,
  validate_metadata, wrong_filename,
}
use mcp_server_auth_template.ReleaseArtifacts.Wheel.{first_part, found_metadata, release_name}
use Prim.Native.String
pub mod Turns
pub mod Laws
pub mod Turn

-- `archive.extractfile(member)` and its `read()`: they raise, give nothing, or give the bytes.
pub data Extracted : Type 0 where
  raises absent : Extracted
  gives : Bytes → Extracted

pub record TarMember : Type 0 where
  pub name : String
  pub is_link : Bool
  pub is_file : Bool
  pub is_dir : Bool
  pub size : ℕ
  pub extracted : Extracted

pub record SdistScan : Type 0 where
  pub seen : List String
  pub root_files : List String
  pub source_seen : Bool
  pub metadata : Option Bytes

abbrev pub allowed_sdist_root_files : List String
allowed_sdist_root_files =
    ".gitignore" ∷ "CHANGELOG.md" ∷ "LICENSE" ∷ "PKG-INFO" ∷ "README.md" ∷ "README.pt-BR.md"
    ∷ "pyproject.toml" ∷ []

-- `parts[1:]`
abbrev pub relative_parts : List String → List String
relative_parts [] = []
relative_parts (part ∷ parts) = parts

-- Where a member may stand below the root.
unfoldable pub place :
    ProjectIdentity → SdistScan → TarMember → List String → Result ReleaseArtifactError SdistScan
unfolding contains
place identity scan member [] = ok scan
place identity scan member (file ∷ []) =
    if contains file allowed_sdist_root_files
    then ok (record scan { root_files = file ∷ scan.root_files })
    else err unexpected_content
place identity scan member (first ∷ second ∷ parts) =
    if first == "src" && second == identity.module_name
    then ok (record scan { source_seen = scan.source_seen || member.is_file })
    else err unexpected_content

abbrev pub package_info : Extracted → Result ReleaseArtifactError Bytes
package_info raises = err invalid_archive
package_info absent = err metadata_unreadable
package_info (gives bytes) = ok bytes

-- `relative == ("PKG-INFO",)`
abbrev pub is_package_info : List String → Bool
is_package_info (file ∷ []) = file == "PKG-INFO"
is_package_info _ = false

unfoldable pub read_package_info :
    SdistScan → TarMember → List String → Result ReleaseArtifactError SdistScan
read_package_info scan member relative =
    if is_package_info relative
    then (refuse_if (ltb max_metadata_bytes member.size) metadata_too_large >>= λ small.
        package_info member.extracted >>= λ bytes. ok (record scan { metadata = some bytes }))
    else ok scan

-- One turn of the loop.
unfoldable pub sdist_member :
    ProjectIdentity → SdistScan → TarMember → Result ReleaseArtifactError SdistScan
unfolding safe_parts slash_join contains place read_package_info
sdist_member identity scan member = safe_parts member.name >>= λ parts.
    let normalized = slash_join parts in
    refuse_if (contains normalized scan.seen) duplicate_member >>= λ fresh.
    refuse_if (member.is_link || not (member.is_file || member.is_dir)) not_regular >>= λ regular.
    refuse_if (not (first_part parts == release_name identity)) unexpected_root >>= λ rooted.
    place identity (record scan { seen = normalized ∷ scan.seen }) member (relative_parts parts)
    >>= λ placed. read_package_info placed member (relative_parts parts)

unfoldable pub sdist_members :
    ProjectIdentity → SdistScan → List TarMember → Result ReleaseArtifactError SdistScan
unfolding sdist_member
sdist_members identity scan [] = ok scan
sdist_members identity scan (member ∷ members) =
    sdist_member identity scan member >>= λ after. sdist_members identity after members

abbrev pub opened_sdist : Option (List TarMember) → Result ReleaseArtifactError (List TarMember)
opened_sdist none = err invalid_archive
opened_sdist (some members) = ok members

-- validate_sdist of a file name and of the members, which are none where the archive does not open
unfoldable pub validate_sdist :
    (String → String)
    → (Bytes → Option String × Option String)
    → String
    → Option (List TarMember)
    → ProjectIdentity
    → Result ReleaseArtifactError (Unit {0})
unfolding sdist_members validate_metadata subset
validate_sdist lower_str parse filename archive identity =
    refuse_if (not (filename == String.◌++◌ (release_name identity) ".tar.gz")) wrong_filename
    >>= λ named. opened_sdist archive >>= λ members.
        refuse_if (ltb max_archive_members (length members)) too_many_members >>= λ bounded.
        sdist_members identity
          (record { seen = []; root_files = []; source_seen = false; metadata = none }) members
        >>= λ scan.
            refuse_if (not (subset allowed_sdist_root_files scan.root_files)) root_files_missing
            >>= λ complete. refuse_if (not scan.source_seen) source_missing >>= λ present.
                found_metadata scan.metadata >>= λ bytes.
                validate_metadata lower_str parse bytes identity
