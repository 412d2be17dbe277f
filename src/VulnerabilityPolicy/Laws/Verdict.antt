-- ===== src/VulnerabilityPolicy/Laws/Verdict.antt =====
-- What a passed evaluation means.
use mcp_server_auth_template.Base.{
  All, Bool-cases, Exists, List, Option, String, [], arith, inl, inr, not, true, ℕ, ◌&&◌, ◌∷◌, ◌≡◌,
  ◌⊎◌,
}
use mcp_server_auth_template.Base.Result.{>>=-eq-ok, Result, err, ok}
use mcp_server_auth_template.Base.Sets.{no_items}
use mcp_server_auth_template.Base.Value.{Dict, Value, get}
use mcp_server_auth_template.VulnerabilityPolicy.{
  FindingKey, Findings, Violation, actionable_findings, as_array, as_object, exceptions_not_array,
  has_key, matches_not_array, not_an_object,
}
use mcp_server_auth_template.VulnerabilityPolicy.Evaluation.{
  Passed, compare_keys, evaluate_vulnerability_policy, keys_minus, lift_violation, sorted_keys,
}
use mcp_server_auth_template.VulnerabilityPolicy.Exceptions.{
  ExceptionRecord, exception_records, record_keys,
}
use mcp_server_auth_template.VulnerabilityPolicy.Laws.{none_left}
use mcp_server_auth_template.VulnerabilityPolicy.Laws.Findings.{
  IsActionable, actionable_findings_lem,
}
use mcp_server_auth_template.VulnerabilityPolicy.Laws.Records.{
  IsInForce, exception_records-IsLoaded,
}

-- Each exception of the policy is in force and for an actionable finding of the report, and each
-- actionable finding has an exception.
pub record IsApproved (lower : String → String) (fromisoformat : String → Option ℕ) (today : ℕ)
    (report policy : Value) : Type 0 where
  pub evidence : Dict Value
  pub matches : List Value
  pub opened : as_object not_an_object report ≡ ok evidence
  pub listed : as_array matches_not_array (get "matches" evidence) ≡ ok matches
  pub rules : Dict Value
  pub exceptions : List Value
  pub policy_opened : as_object not_an_object policy ≡ ok rules
  pub policy_listed : as_array exceptions_not_array (get "exceptions" rules) ≡ ok exceptions
  pub in_force :
      All
        (λ raw.
          (key : FindingKey) × IsInForce fromisoformat today raw key
          × Exists (λ m. IsActionable lower m key) matches)
        exceptions
  pub covered :
      (key : FindingKey)
      → Exists (λ m. IsActionable lower m key) matches
      → Exists (λ raw. IsInForce fromisoformat today raw key) exceptions

lift_violation-eq-ok {ℓ} :
    {A : Type ℓ} (r : Result Violation A) (a : A) → lift_violation r ≡ ok a → r ≡ ok a
lift_violation-eq-ok (err v) a h = cc
lift_violation-eq-ok (ok b) a h = ground (arith, h)

module _ (lower : String → String) (fromisoformat : String → Option ℕ) (today : ℕ) where
  compare_keys-passes :
      (findings : Findings) (records : List ExceptionRecord) (passed : Passed)
      → compare_keys lower fromisoformat today findings records ≡ ok passed
      → ((k : FindingKey)
          → has_key k findings.actionable ≡ true
          → has_key k (record_keys records) ≡ true)
        × ((k : FindingKey)
            → has_key k (record_keys records) ≡ true
            → has_key k findings.actionable ≡ true)
  unfolding compare_keys
  compare_keys-passes findings records passed h =
      let keys = record_keys records in
      let unapproved = sorted_keys (keys_minus findings.actionable keys) in
      let stale = sorted_keys (keys_minus keys findings.actionable) in
      elim (Bool-cases (not (no_items unapproved && no_items stale))) [
        | inl different ↦ cc (rw different at h)
        | inr equal ↦ (
          none_left findings.actionable keys (ground arith),
          none_left keys findings.actionable (ground arith),
        )
      ]

  from_none :
      (k : FindingKey) (raws : List Value)
      → (has_key k [] ≡ true) ⊎ Exists (λ raw. IsInForce fromisoformat today raw k) raws
      → Exists (λ raw. IsInForce fromisoformat today raw k) raws
  unfolding has_key
  from_none k raws (inl none_yet) = cc
  from_none k raws (inr found) = found

  each_matched :
      (matches : List Value) (after : List FindingKey) (raws : List Value)
      → ((k : FindingKey) → has_key k after ≡ true → Exists (λ m. IsActionable lower m k) matches)
      → All
          (λ raw.
            (key : FindingKey) × IsInForce fromisoformat today raw key × (has_key key after ≡ true))
          raws
      → All
          (λ raw.
            (key : FindingKey) × IsInForce fromisoformat today raw key
            × Exists (λ m. IsActionable lower m key) matches)
          raws
  each_matched matches after [] f h = tt
  each_matched matches after (raw ∷ raws) f ((key, force, known), h) =
      ((key, force, f key known), each_matched matches after raws f h)

  -- The policy passes a report only if every exception has the fields asked for and a documented
  -- review, is in force today within a window of 1 to 90 days, and is for an actionable finding of
  -- the report (high or critical, with a fixed version), and every actionable finding has such an
  -- exception.
  pub evaluate_vulnerability_policy-IsApproved :
      (report policy : Value) (passed : Passed)
      → evaluate_vulnerability_policy lower fromisoformat today report policy ≡ ok passed
      → IsApproved lower fromisoformat today report policy
  unfolding evaluate_vulnerability_policy
  evaluate_vulnerability_policy-IsApproved report policy passed h =
      let (findings, found, h1) =
        >>=-eq-ok (lift_violation (actionable_findings lower report)) _ h in
      let (records, loaded, compared) =
        >>=-eq-ok (lift_violation (exception_records fromisoformat today policy)) _ h1 in
      let (evidence, matches, opened, listed, meaning) =
        actionable_findings_lem lower report findings
          (lift_violation-eq-ok (actionable_findings lower report) findings found) in
      let (rules, raws, policy_opened, policy_listed, load) =
        exception_records-IsLoaded fromisoformat today policy records
          (lift_violation-eq-ok (exception_records fromisoformat today policy) records loaded) in
      let (approved, current) = compare_keys-passes findings records passed compared in
      record {
        evidence = evidence;
        matches = matches;
        opened = opened;
        listed = listed;
        rules = rules;
        exceptions = raws;
        policy_opened = policy_opened;
        policy_listed = policy_listed;
        in_force =
            each_matched matches (record_keys records) raws (λ k m. (meaning k).0 (current k m))
              load.in_force;
        covered =
            λ key act. from_none key raws (load.found key (approved key ((meaning key).1 act)));
      }
