-- ===== src/ReleaseArtifacts/Tests.antt =====
-- A wheel of two files, and a path with a directory.
use mcp_server_auth_template.Base.{
  if◌then◌else◌, false, map, true, All, List, Option, String, [], none, refl, some, ◌==◌, ◌∷◌, ◌≡◌,
}
use mcp_server_auth_template.Base.Value.{Dict, Value, end, field, obj, str}
use mcp_server_auth_template.ReleaseArtifacts.{
  unsafe_module_path, source_missing, ProjectIdentity, is_bad_part, safe_parts, slash_join,
  unsafe_path,
}
use mcp_server_auth_template.ReleaseArtifacts.Identity.{load_project_identity}
use Prim.Native.String
use mcp_server_auth_template.ReleaseArtifacts.Sdist.{
  TarMember, absent, allowed_sdist_root_files, gives, validate_sdist,
}
use mcp_server_auth_template.ReleaseArtifacts.Sdist.Laws.{IsCleanSdist, validate_sdist-IsCleanSdist}
use mcp_server_auth_template.Base.Result.{err, ok}
use mcp_server_auth_template.Base.Text.{has_infix}
use mcp_server_auth_template.Http.{Bytes}
use mcp_server_auth_template.ReleaseArtifacts.Paths.{IsSafePart}
use mcp_server_auth_template.ReleaseArtifacts.Safety.{safe_parts-slash_join}
use mcp_server_auth_template.ReleaseArtifacts.Wheel.{ZipMember, validate_wheel}
use mcp_server_auth_template.ReleaseArtifacts.Wheel.Laws.{IsCleanWheel, validate_wheel-IsCleanWheel}

abbrev identity : ProjectIdentity
identity = record { name = "my-pkg"; module_name = "my_pkg"; version = "1.0" }

abbrev parse_one : Bytes → Option String × Option String
parse_one raw = (some "My.Pkg", some "1.0")

-- `str.lower` on the one name of the test
abbrev lower_one : String → String
lower_one s = if s == "My-Pkg" then "my-pkg" else s

abbrev members : List ZipMember
members =
    record { filename = "my_pkg/"; external_attr = 0; file_size = 0; content = none }
    ∷ record {
      filename = "my_pkg/main.py";
      external_attr = 0;
      file_size = 5;
      content = some "x = 1";
    }
    ∷ record {
      filename = "my_pkg-1.0.dist-info/METADATA";
      external_attr = 0;
      file_size = 4;
      content = some "meta";
    }
    ∷ []

abbrev wheel_name : String
wheel_name = "my_pkg-1.0-py3-none-any.whl"

accepts_wheel : validate_wheel lower_one parse_one wheel_name (some members) identity ≡ ok tt
unfolding validate_wheel
accepts_wheel = refl

refuses_climbing : safe_parts "my_pkg/../x" ≡ err unsafe_path
unfolding safe_parts
refuses_climbing = refl

refuses_root : safe_parts "/etc/passwd" ≡ err unsafe_path
unfolding safe_parts
refuses_root = refl

two_safe : All IsSafePart ("my_pkg" ∷ "main.py" ∷ [])
unfolding is_bad_part has_infix
two_safe = (
  record { named = refl; no_backslash = refl; no_slash = refl },
  (record { named = refl; no_backslash = refl; no_slash = refl }, tt),
)

safe_parts-slash_join_example :
    safe_parts (slash_join ("my_pkg" ∷ "main.py" ∷ [])) ≡ ok ("my_pkg" ∷ "main.py" ∷ [])
safe_parts-slash_join_example = safe_parts-slash_join "my_pkg" ("main.py" ∷ []) two_safe

validate_wheel-IsCleanWheel_example :
    (found : List ZipMember) × (some members ≡ some found)
    × IsCleanWheel lower_one parse_one wheel_name identity found
validate_wheel-IsCleanWheel_example =
    validate_wheel-IsCleanWheel lower_one parse_one wheel_name (some members) identity accepts_wheel

abbrev root_file : String → TarMember
root_file file = record {
  name = String.◌++◌ "my_pkg-1.0/" file;
  is_link = false;
  is_file = true;
  is_dir = false;
  size = 4;
  extracted = gives "meta";
}

abbrev sources : List TarMember
sources =
    record (root_file "") { is_file = false; is_dir = true; extracted = absent }
    ∷ root_file "src/my_pkg/main.py"
    ∷ map root_file allowed_sdist_root_files

abbrev sdist_name : String
sdist_name = "my_pkg-1.0.tar.gz"

accepts_sdist : validate_sdist lower_one parse_one sdist_name (some sources) identity ≡ ok tt
unfolding validate_sdist
accepts_sdist = refl

refuses_no_source :
    validate_sdist lower_one parse_one sdist_name
      (some (map root_file allowed_sdist_root_files))
      identity
    ≡ err source_missing
unfolding validate_sdist
refuses_no_source = refl

validate_sdist-IsCleanSdist_example :
    (found : List TarMember) × (some sources ≡ some found)
    × IsCleanSdist lower_one parse_one sdist_name identity found
validate_sdist-IsCleanSdist_example =
    validate_sdist-IsCleanSdist lower_one parse_one sdist_name (some sources) identity accepts_sdist

abbrev pyproject : String → Dict Value
pyproject name = ("project", obj (field "name" (str name) (field "version" (str " 1.0") end))) ∷ []

loads_identity : load_project_identity lower_one (some (pyproject "my-pkg")) ≡ ok identity
unfolding load_project_identity
loads_identity = refl

refuses_slash_in_name :
    load_project_identity lower_one (some (pyproject "my/pkg")) ≡ err unsafe_module_path
unfolding load_project_identity
refuses_slash_in_name = refl
