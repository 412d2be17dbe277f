-- ===== src/VulnerabilityPolicy/Exceptions.antt =====
-- scripts/enforce_vulnerability_policy.py: the exceptions to the policy.
use mcp_server_auth_template.Base.{
  List, Option, String, [], if◌then◌else◌, keep, leb, ltb, map, none, not, some, ℕ, ◌&&◌, ◌++◌, ◌-◌,
  ◌||◌, ◌∷◌,
}
use mcp_server_auth_template.Base.Result.{Result, err, ok, refuse_if, ◌>>=◌}
use mcp_server_auth_template.Base.Sets.{contains, sorted, subset}
use mcp_server_auth_template.Base.Value.{Dict, Value, equals_str, get}
use mcp_server_auth_template.VulnerabilityPolicy.{
  FindingKey, Violation, as_array, as_object, bad_date, bad_fields, bad_schema_version, bad_window,
  duplicate_exception, exception_not_object, exceptions_not_array, expired, has_key, not_an_object,
  required_string, reviewed_in_future, thin_review,
}
use mcp_server_auth_template.Base.Text

-- ExceptionRecord
pub record ExceptionRecord : Type 0 where
  pub key : FindingKey
  pub expires_on : ℕ

abbrev pub required_fields : List String
required_fields =
    "expires_on" ∷ "installed_version" ∷ "namespace" ∷ "owner" ∷ "package" ∷ "package_type"
    ∷ "reason" ∷ "removal_plan" ∷ "reviewed_on" ∷ "vulnerability_id" ∷ []

-- `xs - ys`, for sets
abbrev pub minus : List String → List String → List String
minus xs ys = keep (λ x. not (contains x ys)) xs

abbrev pub field_names : Dict Value → List String
field_names document = map (λ f. f.0) document

-- `actual_fields != REQUIRED_EXCEPTION_FIELDS`, with its error
unfoldable pub check_fields : Dict Value → Result Violation (Unit {0})
unfolding subset sorted keep
check_fields document =
    if subset (field_names document) required_fields
      && subset required_fields (field_names document)
    then ok tt
    else err (
        bad_fields (sorted (minus required_fields (field_names document)))
          (sorted (minus (field_names document) required_fields)))

unfoldable pub exception_key : Dict Value → Result Violation FindingKey
unfolding required_string
exception_key document = do
  id ← required_string document "vulnerability_id"
  namespace ← required_string document "namespace"
  package_name ← required_string document "package"
  package_type ← required_string document "package_type"
  version ← required_string document "installed_version"
  ok (record {
    vulnerability_id = id;
    namespace = namespace;
    package_name = package_name;
    package_type = package_type;
    installed_version = version;
  })

abbrev pub record_keys : List ExceptionRecord → List FindingKey
record_keys records = map (λ (r : ExceptionRecord). r.key) records

-- `fromisoformat` is `date.fromisoformat` with `toordinal`, `none` where it raises.
module _ (fromisoformat : String → Option ℕ) (today : ℕ) where
  abbrev pub date_or_error : String → Option ℕ → Result Violation ℕ
  date_or_error name none = err (bad_date name)
  date_or_error name (some day) = ok day

  -- `_parse_policy_date` of a required field
  unfoldable pub policy_date : Dict Value → String → Result Violation ℕ
  unfolding required_string
  policy_date document name =
      required_string document name >>= λ text. date_or_error name (fromisoformat text)

  -- the tests on the dates, in their order
  unfoldable pub check_dates : ℕ → ℕ → Result Violation (Unit {0})
  check_dates reviewed_on expires_on = do
    _ ← refuse_if (ltb today reviewed_on) reviewed_in_future
    _ ← refuse_if (ltb expires_on today) expired
    refuse_if (leb expires_on reviewed_on || ltb 90 (expires_on - reviewed_on)) bad_window

  unfoldable pub check_review : Dict Value → Result Violation (Unit {0})
  unfolding required_string
  check_review document = do
    _ ← required_string document "owner"
    reason ← required_string document "reason"
    removal_plan ← required_string document "removal_plan"
    refuse_if (ltb (Text.length reason) 40 || ltb (Text.length removal_plan) 40) thin_review

  -- one turn of the loop over `exceptions`, up to the test for a duplicate
  unfoldable pub exception_record : Value → Result Violation ExceptionRecord
  unfolding check_fields exception_key check_review policy_date check_dates
  exception_record raw = do
    document ← as_object exception_not_object raw
    _ ← check_fields document
    key ← exception_key document
    _ ← check_review document
    reviewed_on ← policy_date document "reviewed_on"
    expires_on ← policy_date document "expires_on"
    _ ← check_dates reviewed_on expires_on
    ok (record { key = key; expires_on = expires_on })

  unfoldable pub records_from :
      List ExceptionRecord → List Value → Result Violation (List ExceptionRecord)
  unfolding exception_record has_key
  records_from records [] = ok records
  records_from records (raw ∷ raws) = exception_record raw >>= λ r.
      refuse_if (has_key r.key (record_keys records)) duplicate_exception >>= λ _.
      records_from (records ++ r ∷ []) raws

  -- `_exception_records`
  unfoldable pub exception_records : Value → Result Violation (List ExceptionRecord)
  unfolding records_from get
  exception_records document = do
    policy ← as_object not_an_object document
    _ ← refuse_if (not (equals_str (get "schema_version" policy) "1.0")) bad_schema_version
    raw ← as_array exceptions_not_array (get "exceptions" policy)
    records_from [] raw
