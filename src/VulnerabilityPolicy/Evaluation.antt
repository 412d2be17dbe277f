-- ===== src/VulnerabilityPolicy/Evaluation.antt =====
-- scripts/enforce_vulnerability_policy.py: evaluate_vulnerability_policy.
use mcp_server_auth_template.Base.{
  length, Bool, List, Option, String, [], if◌then◌else◌, keep, not, ℕ, ◌&&◌, ◌==◌, ◌||◌, ◌∷◌,
}
use mcp_server_auth_template.Base.Result.{Result, err, ok, ◌>>=◌}
use mcp_server_auth_template.Base.Sets.{no_items}
use mcp_server_auth_template.Base.Order.{str_lt}
use mcp_server_auth_template.Base.Value.{Value}
use mcp_server_auth_template.VulnerabilityPolicy.{
  FindingKey, Findings, Violation, actionable_findings, has_key,
}
use mcp_server_auth_template.VulnerabilityPolicy.Exceptions.{
  ExceptionRecord, exception_records, record_keys,
}

-- `a < b` of two texts, or else the order of what follows
abbrev pub lt_then : String → String → Bool → Bool
lt_then a b rest = str_lt a b || a == b && rest

-- The order of the dataclass.
unfoldable pub key_lt : FindingKey → FindingKey → Bool
unfolding str_lt
key_lt a b = lt_then a.vulnerability_id b.vulnerability_id (
    lt_then a.namespace b.namespace (
      lt_then a.package_name b.package_name
        (lt_then a.package_type b.package_type (str_lt a.installed_version b.installed_version))))

unfoldable pub insert_key : FindingKey → List FindingKey → List FindingKey
unfolding key_lt
insert_key k [] = k ∷ []
insert_key k (j ∷ js) = if key_lt j k then j ∷ insert_key k js else k ∷ j ∷ js

-- `sorted(keys)`
unfoldable pub sorted_keys : List FindingKey → List FindingKey
unfolding insert_key
sorted_keys [] = []
sorted_keys (k ∷ ks) = insert_key k (sorted_keys ks)

-- `set(xs) - set(ys)`
unfoldable pub keys_minus : List FindingKey → List FindingKey → List FindingKey
unfolding has_key keep
keys_minus xs ys = keep (λ x. not (has_key x ys)) xs

-- What is raised: a violation in a document, or the keys of the two kinds of mismatch.
pub data PolicyFailure : Type 0 where
  violation : Violation → PolicyFailure
  mismatch : List FindingKey → List FindingKey → PolicyFailure

-- The result, of which the texts are left out; it stands for the status "passed".
pub record Passed : Type 0 where
  pub approved : List FindingKey
  pub actionable_count : ℕ
  pub unfixed_count : ℕ

abbrev pub lift_violation {ℓ} : {A : Type ℓ} → Result Violation A → Result PolicyFailure A
lift_violation (err v) = err (violation v)
lift_violation (ok a) = ok a

module _ (lower : String → String) (fromisoformat : String → Option ℕ) (today : ℕ) where
  -- the comparison of the two sets of keys
  unfoldable pub compare_keys : Findings → List ExceptionRecord → Result PolicyFailure Passed
  unfolding keys_minus sorted_keys
  compare_keys findings exceptions =
      let keys = record_keys exceptions in
      let unapproved = sorted_keys (keys_minus findings.actionable keys) in
      let stale = sorted_keys (keys_minus keys findings.actionable) in
      if not (no_items unapproved && no_items stale)
      then err (mismatch unapproved stale)
      else ok (record {
        approved = sorted_keys findings.actionable;
        actionable_count = length findings.actionable;
        unfixed_count = length findings.unfixed;
      })

  -- evaluate_vulnerability_policy, with `today` as the effective date
  unfoldable pub evaluate_vulnerability_policy : Value → Value → Result PolicyFailure Passed
  unfolding actionable_findings exception_records compare_keys
  evaluate_vulnerability_policy report policy = do
    findings ← lift_violation (actionable_findings lower report)
    exceptions ← lift_violation (exception_records fromisoformat today policy)
    compare_keys findings exceptions
