-- ===== src/VulnerabilityPolicy.antt =====
-- scripts/enforce_vulnerability_policy.py: the policy for vulnerabilities of the image, on the decoded
-- documents. A date is its ordinal number; reading files is left out.
use mcp_server_auth_template.Base.{
  Bool, List, String, [], any, false, if◌then◌else◌, not, ◌&&◌, ◌++◌, ◌==◌, ◌||◌, ◌∷◌,
}
use mcp_server_auth_template.Base.Result.{Result, err, ok, ◌>>=◌}
use mcp_server_auth_template.Base.Sets.{contains}
use mcp_server_auth_template.Base.Text.{is_empty, strip}
use mcp_server_auth_template.Base.Value.{Dict, Value, arr, fields, get, items, null, obj, str}
pub mod Exceptions
pub mod Evaluation
pub mod Laws
mod Tests

-- The messages of VulnerabilityPolicyError.
pub data Violation : Type 0 where
  not_an_object matches_not_array finding_not_object vulnerability_not_object : Violation
  finding_incomplete : Violation
  no_text : String → Violation
  bad_schema_version exceptions_not_array exception_not_object : Violation
  bad_fields : List String → List String → Violation
  thin_review : Violation
  bad_date : String → Violation
  reviewed_in_future expired bad_window duplicate_exception : Violation

-- FindingKey
pub record FindingKey : Type 0 where
  pub vulnerability_id : String
  pub namespace : String
  pub package_name : String
  pub package_type : String
  pub installed_version : String

-- `a == b`, for two keys
unfoldable pub same_key : FindingKey → FindingKey → Bool
same_key a b =
    a.vulnerability_id == b.vulnerability_id
    && a.namespace == b.namespace
    && a.package_name == b.package_name
    && a.package_type == b.package_type
    && a.installed_version == b.installed_version

-- `key in keys`
unfoldable pub has_key : FindingKey → List FindingKey → Bool
unfolding same_key
has_key k [] = false
has_key k (j ∷ js) = same_key j k || has_key k js

-- A new key of a dict or a set of keys goes behind the others.
unfoldable pub add_key : FindingKey → List FindingKey → List FindingKey
unfolding has_key
add_key k ks = if has_key k ks then ks else ks ++ k ∷ []

abbrev pub as_object : Violation → Value → Result Violation (Dict Value)
as_object raised (obj fs) = ok (fields fs)
as_object raised _ = err raised

abbrev pub as_array : Violation → Value → Result Violation (List Value)
as_array raised (arr vs) = ok (items vs)
as_array raised _ = err raised

abbrev pub non_blank : String → Value → Result Violation String
non_blank name (str text) = if is_empty (strip text) then err (no_text name) else ok (strip text)
non_blank name _ = err (no_text name)

-- `_required_string`
unfoldable pub required_string : Dict Value → String → Result Violation String
unfolding get strip
required_string document name = non_blank name (get name document)

-- `_finding_key`
unfoldable pub finding_key : Dict Value → Result Violation FindingKey
unfolding required_string
finding_key match = do
  vulnerability ← as_object finding_incomplete (get "vulnerability" match)
  artifact ← as_object finding_incomplete (get "artifact" match)
  id ← required_string vulnerability "id"
  namespace ← required_string vulnerability "namespace"
  name ← required_string artifact "name"
  type ← required_string artifact "type"
  version ← required_string artifact "version"
  ok (record {
    vulnerability_id = id;
    namespace = namespace;
    package_name = name;
    package_type = type;
    installed_version = version;
  })

-- The keys of `actionable`, and `unfixed`.
pub record Findings : Type 0 where
  pub actionable : List FindingKey
  pub unfixed : List FindingKey

abbrev pub is_version : Value → Bool
is_version (str version) = not (is_empty (strip version))
is_version _ = false

abbrev pub versions_fixed : Value → Bool
versions_fixed (arr versions) = any is_version (items versions)
versions_fixed _ = false

abbrev pub fix_versions : Value → Value
fix_versions (obj fix) = get "versions" (fields fix)
fix_versions _ = null

-- `has_fix`
unfoldable pub has_fix : Dict Value → Bool
unfolding get strip
has_fix vulnerability = versions_fixed (fix_versions (get "fix" vulnerability))

-- `lower` is Python's `str.lower`.
module _ (lower : String → String) where
  abbrev pub is_blocking_severity : Value → Bool
  is_blocking_severity (str severity) = contains (lower severity) ("critical" ∷ "high" ∷ [])
  is_blocking_severity _ = false

  unfoldable pub is_blocking : Dict Value → Bool
  unfolding get contains
  is_blocking vulnerability = is_blocking_severity (get "severity" vulnerability)

  abbrev pub record_finding : Bool → FindingKey → Findings → Findings
  record_finding fixed key found =
      if fixed
      then record found { actionable = add_key key found.actionable }
      else record found { unfixed = add_key key found.unfixed }

  abbrev pub blocking_finding : Dict Value → Dict Value → Findings → Result Violation Findings
  blocking_finding match vulnerability found = do
    key ← finding_key match
    ok (record_finding (has_fix vulnerability) key found)

  -- one turn of the loop over `matches`
  unfoldable pub add_finding : Findings → Value → Result Violation Findings
  unfolding add_key finding_key is_blocking has_fix
  add_finding found raw = do
    match ← as_object finding_not_object raw
    vulnerability ← as_object vulnerability_not_object (get "vulnerability" match)
    if not (is_blocking vulnerability) then ok found else blocking_finding match vulnerability found

  unfoldable pub findings_from : Findings → List Value → Result Violation Findings
  unfolding add_finding
  findings_from found [] = ok found
  findings_from found (raw ∷ raws) = add_finding found raw >>= λ found'. findings_from found' raws

  -- `_actionable_findings`
  unfoldable pub actionable_findings : Value → Result Violation Findings
  unfolding findings_from
  actionable_findings document = do
    report ← as_object not_an_object document
    matches ← as_array matches_not_array (get "matches" report)
    findings_from (record { actionable = []; unfixed = [] }) matches
