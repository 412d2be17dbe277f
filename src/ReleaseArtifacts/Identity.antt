-- ===== src/ReleaseArtifacts/Identity.antt =====
-- scripts/prepare_release_artifacts.py: load_project_identity, from the document that tomllib decodes.
use mcp_server_auth_template.Base.{
  if◌then◌else◌, Bool, Option, String, eqb, false, in_range, none, not, some, ℕ, ◌&&◌, ◌||◌,
}
use mcp_server_auth_template.Base.Result.{Result, err, ok, refuse_if, ◌>>=◌}
use mcp_server_auth_template.Base.Text.{all_codes, is_empty, strip}
use mcp_server_auth_template.Base.Value.{Dict, Value, fields, get, obj, str}
use mcp_server_auth_template.ReleaseArtifacts.{
  ProjectIdentity, ReleaseArtifactError, invalid_project, not_a_string, project_required,
  replace_runs, unsafe_module_path,
}
use Prim.Native.Char.{Char, code}

-- the text without blanks around it, unless nothing is left
unfoldable pub trimmed : String → Result ReleaseArtifactError String
unfolding strip
trimmed text = let clean = strip text in if is_empty clean then err not_a_string else ok clean

-- _required_string
unfoldable pub stripped_string : Value → Result ReleaseArtifactError String
unfolding trimmed
stripped_string (str text) = trimmed text
stripped_string _ = err not_a_string

abbrev pub project_table : Value → Result ReleaseArtifactError (Dict Value)
project_table (obj table) = ok (fields table)
project_table _ = err project_required

abbrev pub is_module_separator : Char → Bool
is_module_separator c = eqb (code c) b'-' || eqb (code c) b'.'

abbrev pub is_module_character : ℕ → Bool
is_module_character c = in_range b'a' b'z' c || in_range b'0' b'9' c || eqb c b'_'

-- `re.fullmatch(r"[a-z][a-z0-9_]*", module)`
unfoldable pub is_module_path : String → Bool
is_module_path String.[] = false
is_module_path (String.◌∷◌ c s) = in_range b'a' b'z' (code c) && all_codes is_module_character s

-- The document is none where the file cannot be read or decoded.
unfoldable pub load_project_identity :
    (String → String) → Option (Dict Value) → Result ReleaseArtifactError ProjectIdentity
unfolding get stripped_string replace_runs is_module_path
load_project_identity lower_str none = err invalid_project
load_project_identity lower_str (some document) =
    project_table (get "project" document) >>= λ project.
    stripped_string (get "name" project) >>= λ name.
    stripped_string (get "version" project) >>= λ version.
    let module_path = lower_str (replace_runs is_module_separator "_" false name) in
    refuse_if (not (is_module_path module_path)) unsafe_module_path >>= λ safe.
    ok (record { name = name; module_name = module_path; version = version })
