-- ===== src/VulnerabilityPolicy/Tests.antt =====
-- A report with one actionable finding, and a policy with an exception for it. Dates are numbers of
-- days in one or two digits.
use mcp_server_auth_template.Base.{
  Option, String, [], if◌then◌else◌, none, refl, some, ℕ, ◌==◌, ◌∷◌, ◌≡◌,
}
use mcp_server_auth_template.Base.Result.{err, ok}
use mcp_server_auth_template.Base.Value.{Fields, Items, Value, arr, cons, end, field, nil, obj, str}
use mcp_server_auth_template.Http.{lower}
use mcp_server_auth_template.VulnerabilityPolicy.{FindingKey, bad_window, expired}
use mcp_server_auth_template.VulnerabilityPolicy.Evaluation.{
  Passed, evaluate_vulnerability_policy, mismatch, violation,
}
use mcp_server_auth_template.VulnerabilityPolicy.Laws.Verdict.{
  IsApproved, evaluate_vulnerability_policy-IsApproved,
}

abbrev text_field : String → String → Fields → Fields
text_field name text rest = field name (str text) rest

abbrev finding : String → Value
finding severity = obj (
    field "vulnerability"
      (obj (
        text_field "id" "CVE-1" (
          text_field "namespace" "debian" (
            text_field "severity" severity
              (field "fix" (obj (field "versions" (arr (cons (str "2") nil)) end)) end)))))
      (field "artifact"
        (obj (text_field "name" "zlib" (text_field "type" "deb" (text_field "version" "1" end))))
        end))

abbrev report : Value
report = obj (field "matches" (arr (cons (finding "HIGH") (cons (finding "low") nil))) end)

abbrev long : String
long = "a review that documents its whole context"

abbrev exception : String → Value
exception expiry = obj (
    text_field "vulnerability_id" "CVE-1" (
      text_field "namespace" "debian" (
        text_field "package" "zlib" (
          text_field "package_type" "deb" (
            text_field "installed_version" " 1 " (
              text_field "owner" "o" (
                text_field "reason" long (
                  text_field "removal_plan" long
                    (text_field "reviewed_on" "5" (text_field "expires_on" expiry end))))))))))

abbrev policy : Items → Value
policy exceptions =
    obj (text_field "schema_version" "1.0" (field "exceptions" (arr exceptions) end))

abbrev day_of : String → Option ℕ
day_of text =
    if text == "5"
    then some 5
    else if text == "95"
    then some 95
    else if text == "96"
    then some 96
    else none

abbrev fold_case : String → String
fold_case text = lower text

abbrev key : FindingKey
key = record {
  vulnerability_id = "CVE-1";
  namespace = "debian";
  package_name = "zlib";
  package_type = "deb";
  installed_version = "1";
}

abbrev passed : Passed
passed = record { approved = key ∷ []; actionable_count = 1; unfixed_count = 0 }

passes :
    evaluate_vulnerability_policy fold_case day_of 10 report (policy (cons (exception "95") nil))
    ≡ ok passed
unfolding evaluate_vulnerability_policy lower
passes = refl

long_window_is_refused :
    evaluate_vulnerability_policy fold_case day_of 10 report (policy (cons (exception "96") nil))
    ≡ err (violation bad_window)
unfolding evaluate_vulnerability_policy lower
long_window_is_refused = refl

missing_exception_is_named :
    evaluate_vulnerability_policy fold_case day_of 10 report (policy nil)
    ≡ err (mismatch (key ∷ []) [])
unfolding evaluate_vulnerability_policy lower
missing_exception_is_named = refl

expired_exception_is_refused :
    evaluate_vulnerability_policy fold_case day_of 96 report (policy (cons (exception "95") nil))
    ≡ err (violation expired)
unfolding evaluate_vulnerability_policy lower
expired_exception_is_refused = refl

evaluate_vulnerability_policy-IsApproved_example :
    IsApproved fold_case day_of 10 report (policy (cons (exception "95") nil))
evaluate_vulnerability_policy-IsApproved_example =
    evaluate_vulnerability_policy-IsApproved fold_case day_of 10 report
      (policy (cons (exception "95") nil)) passed passes
