-- ===== src/Server/Surface/Guard.antt =====
-- Which requests reach the application through the stack, and how probes are answered.
use mcp_server_auth_template.Base.{
  Option-cases, Bool, Bool-cases, Option, String, arith, eq_iff, false, inl, inr, none, not, refl,
  some, suc, true, ℕ, ◌<◌, ◌==◌, ◌||◌, ◌≡◌,
}
use mcp_server_auth_template.Transport.{after_envelope, validate_envelope, Limits, admit}
use mcp_server_auth_template.Base.Sets.{contains}
use mcp_server_auth_template.Http.{http, Response, Scope}
use mcp_server_auth_template.Runtime.{RuntimeStatus, probe}
use mcp_server_auth_template.Server.Surface.{Served, dispatched, limits_of, probe_paths}
use mcp_server_auth_template.Settings.{Settings}
use mcp_server_auth_template.Transport.Envelope.{IsSoundEnvelope}

-- What holds of an HTTP request that reaches the application of a server with a status.
pub record IsGuarded (sdk_check : Scope → Bool → Option Response) (limits : Limits) (scope : Scope)
    (in_flight in_flight' : ℕ) : Type 0 where
  pub envelope : IsSoundEnvelope limits scope.headers
  pub host_checked : sdk_check scope (scope.method == "POST") ≡ none
  pub posted : scope.path ≡ "/mcp" → scope.method ≡ "POST"
  pub no_probe : contains scope.path probe_paths ≡ false
  pub slot_free : in_flight < limits.max_concurrent_requests
  pub slot_taken : in_flight' ≡ suc in_flight

pub probe_path :
    (scope : Scope)
    → contains scope.path probe_paths ≡ true
    → (scope.path == "/livez" || scope.path == "/readyz") ≡ true
unfolding contains
probe_path scope path = ground (
  arith,
  eq_iff scope.path "/livez",
  eq_iff "/livez" scope.path,
  eq_iff scope.path "/readyz",
  eq_iff "/readyz" scope.path,
)

pub probe-answers :
    (status : RuntimeStatus) (scope : Scope)
    → scope.type ≡ http
    → contains scope.path probe_paths ≡ true
    → (response : Response) × (probe status scope ≡ some response)
unfolding probe contains
probe-answers status scope typed path =
    let known = probe_path scope path in
    elim (Option-cases (probe status scope)) [
      | inr answered ↦ answered
      | inl silent ↦ elim (Bool-cases (not (scope.method == "GET"))) [
        | inl other ↦ cc (rw (typed, known, other) at silent)
        | inr asked ↦ elim (Bool-cases (scope.path == "/livez")) [
          | inl live ↦ cc (rw (typed, known, asked, live) at silent)
          | inr ready ↦ elim (Bool-cases status.ready) [
            | inl up ↦ cc (rw (typed, known, asked, ready, up) at silent)
            | inr down ↦ cc (rw (typed, known, asked, ready, down) at silent)
          ]
        ]
      ]
    ]

abbrev is_dispatched : Served → Bool
is_dispatched (dispatched ctx) = true
is_dispatched _ = false

module _ (limits : Limits) (sdk_check : Scope → Bool → Option Response) (scope : Scope)
    (in_flight : ℕ) where
  pub admit-http :
      scope.type ≡ http
      → admit limits sdk_check scope in_flight
        ≡ after_envelope limits sdk_check scope (validate_envelope limits scope.headers) in_flight
  unfolding admit
  admit-http typed = rw typed refl

module _ (b64_utf8 : String → Option String) (sdk_check : Scope → Bool → Option Response)
    (s : Settings) (status : RuntimeStatus) (scope : Scope) (in_flight : ℕ)
    (typed : scope.type ≡ http) where
  abbrev limits : Limits
  limits = limits_of s (some status)

  pub limits_of_lem : (limits.operational_paths ≡ probe_paths) × (limits.mcp_path ≡ "/mcp")
  unfolding limits_of
  limits_of_lem = (refl, refl)
