-- ===== src/Transport/Pipeline.antt =====
-- Which requests reach the application.
use mcp_server_auth_template.Base.{
  ℕ, ◌<◌, Bool, true, false, not, ◌&&◌, Option, none, ◌==◌, ◌≡◌, ◌⊎◌, arith, eq_iff, Bool-cases,
  Option-cases, inl, inr,
}
use mcp_server_auth_template.Base.Sets.{contains}
use mcp_server_auth_template.Http.{Scope, http, Response}
use mcp_server_auth_template.Transport.{
  Limits, Admission, refused, admit, try_admit, validate_envelope, after_envelope, after_host_check,
  admit_slot,
}
use mcp_server_auth_template.Transport.Envelope.{IsSoundEnvelope, validate_envelope_iff}

-- What holds of an HTTP request that is not refused.
abbrev pub IsAdmissible : Limits → (Scope → Bool → Option Response) → Scope → ℕ → Type 0
IsAdmissible limits sdk_check scope in_flight =
    (sdk_check scope (scope.method == "POST") ≡ none)
    × (scope.path ≡ limits.mcp_path → scope.method ≡ "POST")
    × (in_flight < limits.max_concurrent_requests)

abbrev pub is_refusal : Admission → Bool
is_refusal (refused r es) = true
is_refusal _ = false

module _ (limits : Limits) (sdk_check : Scope → Bool → Option Response) (scope : Scope)
    (n : ℕ) where
  admit_slot-room :
      is_refusal (admit_slot limits sdk_check n).0 ≡ false → n < limits.max_concurrent_requests
  unfolding try_admit
  admit_slot-room h = ground arith

  after_host_check-IsAdmissible :
      is_refusal
          (after_host_check limits sdk_check scope (sdk_check scope (scope.method == "POST")) n).0
        ≡ false
      → IsAdmissible limits sdk_check scope n
  after_host_check-IsAdmissible h = elim (Option-cases (sdk_check scope (scope.method == "POST"))) [
    | inr (r, e) ↦ cc (rw e at h)
    | inl e ↦ elim (Bool-cases (scope.path == limits.mcp_path && not (scope.method == "POST"))) [
      | inl bad ↦ cc (rw (e, bad) at h)
      | inr good ↦ (
        e,
        λ p. ground (arith, eq_iff scope.path limits.mcp_path, eq_iff scope.method "POST", good),
        admit_slot-room (rw (e, good) at h),
      )
    ]
  ]

-- An HTTP request that is not refused has a sound envelope; and unless its path is one of the
-- operational ones, the SDK's Host and Origin check accepts it, it is a POST if it is for the MCP
-- path, and a slot was free.
pub admit-IsAdmissible :
    (limits : Limits) (sdk_check : Scope → Bool → Option Response) (scope : Scope) (in_flight : ℕ)
    → scope.type ≡ http
    → is_refusal (admit limits sdk_check scope in_flight).0 ≡ false
    → IsSoundEnvelope limits scope.headers
      × ((contains scope.path limits.operational_paths ≡ true)
          ⊎ IsAdmissible limits sdk_check scope in_flight)
unfolding admit
admit-IsAdmissible limits sdk_check scope in_flight typed h =
    let h' : is_refusal
          (after_envelope limits sdk_check scope (validate_envelope limits scope.headers)
            in_flight).0
        ≡ false =
      rw (typed, admit) at h in
    elim (Option-cases (validate_envelope limits scope.headers)) [
      | inr (r, e) ↦ cc (rw e at h')
      | inl e ↦ (
        (validate_envelope_iff limits scope.headers).0 e,
        elim (Bool-cases (contains scope.path limits.operational_paths)) [
          | inl probe ↦ inl probe
          | inr other ↦
              inr (
                after_host_check-IsAdmissible limits sdk_check scope in_flight
                  (rw (e, other) at h'))
        ],
      )
    ]
