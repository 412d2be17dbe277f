-- ===== src/ReleaseArtifacts.antt =====
-- scripts/prepare_release_artifacts.py: the paths inside an archive (_safe_parts), the metadata of a
-- package, and the identity that both are compared with.
use mcp_server_auth_template.Base.{
  if◌then◌else◌, Bool, List, Option, String, [], any, eqb, false, none, not, some, true, ℕ, ◌*◌,
  ◌-◌, ◌==◌, ◌||◌, ◌∷◌,
}
use mcp_server_auth_template.Settings.{test}
use Prim.Native.Char.{Char, code}
use Prim.Native.String
use mcp_server_auth_template.Base.Text
use mcp_server_auth_template.Base.Result.{Result, err, ok, refuse_if, ◌>>=◌}
use mcp_server_auth_template.Base.Sets.{contains}
use mcp_server_auth_template.Base.Text.{join, ends_with, has_infix, is_empty, starts_with, take}
use mcp_server_auth_template.Http.{Bytes}
pub mod Paths
pub mod Names
pub mod Identity
pub mod Metadata
pub mod Wheel
pub mod Sdist
pub mod Safety
mod Tests

pub data ReleaseArtifactError : Type 0 where
  unsafe_path wrong_filename too_many_members duplicate_member link_not_allowed :
      ReleaseArtifactError
  unexpected_content metadata_too_large invalid_archive metadata_missing : ReleaseArtifactError
  invalid_project project_required not_a_string unsafe_module_path : ReleaseArtifactError
  not_regular unexpected_root metadata_unreadable root_files_missing source_missing :
      ReleaseArtifactError
  content_missing name_mismatch version_mismatch : ReleaseArtifactError

pub record ProjectIdentity : Type 0 where
  pub name : String
  pub module_name : String
  pub version : String

abbrev pub max_archive_members : ℕ
max_archive_members = 10000

abbrev pub max_metadata_bytes : ℕ
max_metadata_bytes = 1024 * 1024

abbrev pub is_slash : Char → Bool
is_slash c = eqb (code c) b'/'

-- The text before the first slash, and the texts between and after the slashes behind it.
unfoldable pub segments : String → String × List String
segments String.[] = (String.[], [])
segments (String.◌∷◌ c s) =
    let (first, others) = segments s in
    if is_slash c then (String.[], first ∷ others) else (String.◌∷◌ c first, others)

-- `s.split("/")`
unfoldable pub split_slash : String → List String
unfolding segments
split_slash s = let (first, others) = segments s in first ∷ others

-- `name[:-1] if name.endswith("/") else name`
unfoldable pub without_slash : String → String
unfolding ends_with
without_slash name = if ends_with name "/" then take (Text.length name - 1) name else name

-- `"/".join(parts)`
unfoldable pub slash_join : List String → String
unfolding join
slash_join parts = join "/" parts

unfoldable pub is_bad_part : String → Bool
unfolding contains
is_bad_part part = contains part ("" ∷ "." ∷ ".." ∷ [])

unfoldable pub is_unsafe : String → List String → Bool
unfolding starts_with has_infix is_bad_part
is_unsafe clean parts =
    is_empty clean || starts_with clean "/" || has_infix "\\" clean || any is_bad_part parts

-- _safe_parts
unfoldable pub safe_parts : String → Result ReleaseArtifactError (List String)
unfolding without_slash split_slash is_unsafe
safe_parts name =
    let clean = without_slash name in
    let parts = split_slash clean in if is_unsafe clean parts then err unsafe_path else ok parts

abbrev pub is_separator : Char → Bool
is_separator c = eqb (code c) b'-' || eqb (code c) b'_' || eqb (code c) b'.'

-- `re.sub(r"[...]+", by, value)` for a set of characters, behind one of them or not
unfoldable pub replace_runs : (Char → Bool) → Char → Bool → String → String
replace_runs accepts by after String.[] = String.[]
replace_runs accepts by after (String.◌∷◌ c s) =
    let inside = replace_runs accepts by true s in
    let outside = replace_runs accepts by false s in
    if accepts c then (if after then inside else String.◌∷◌ by inside) else String.◌∷◌ c outside

module _ (lower_str : String → String) where
  unfoldable pub canonical_name : String → String
  unfolding replace_runs
  canonical_name value = lower_str (replace_runs is_separator "-" false value)

  unfoldable pub matches_name : ProjectIdentity → Option String → Bool
  unfolding canonical_name
  matches_name identity none = false
  matches_name identity (some name) = canonical_name name == canonical_name identity.name

  abbrev pub matches_version : ProjectIdentity → Option String → Bool
  matches_version identity none = false
  matches_version identity (some version) = version == identity.version

  -- _validate_metadata, for the parser of a header that gives the Name and the Version
  unfoldable pub validate_metadata :
      (Bytes → Option String × Option String)
      → Bytes
      → ProjectIdentity
      → Result ReleaseArtifactError (Unit {0})
  unfolding matches_name
  validate_metadata parse raw identity =
      let (name, version) = parse raw in
      refuse_if (not (matches_name identity name)) name_mismatch >>= λ done.
      refuse_if (not (matches_version identity version)) version_mismatch
