-- ===== src/Server/Surface/Probes.antt =====
-- How the stack answers probes.
use mcp_server_auth_template.Base.{
  Bool, Option, String, if◌then◌else◌, refl, ◌∙◌, Bool-cases, arith, inl, inr, not, some, true, ℕ,
  ◌==◌, ◌||◌, ◌≡◌,
}
use mcp_server_auth_template.Base.Value.{get}
use mcp_server_auth_template.Server.Lifespan.{
  Agrees, Phase, Process, Reach, Reach-Agrees, serving, starting, stopped,
}
use mcp_server_auth_template.Server.Surface.{limits_of, probed, serve_request, probe_paths}
use mcp_server_auth_template.Server.Surface.Guard.{
  admit-http, limits_of_lem, probe-answers, probe_path,
}
use mcp_server_auth_template.Settings.{Settings}
use mcp_server_auth_template.Transport.{admit, bypass}
use mcp_server_auth_template.Transport.Envelope.{IsSoundEnvelope, validate_envelope_iff}
use mcp_server_auth_template.Base.Sets.{contains}
use mcp_server_auth_template.Http.{http, Response, Scope}
use mcp_server_auth_template.Runtime.{RuntimeStatus, is_ready, probe}

-- The status of the response to a probe.
abbrev pub probe_status : RuntimeStatus → Scope → ℕ
probe_status status scope =
    if not (scope.method == "GET")
    then 405
    else if scope.path == "/livez" || is_ready status
    then 200
    else 503

probe_lem :
    (status : RuntimeStatus) (scope : Scope)
    → scope.type ≡ http
    → contains scope.path probe_paths ≡ true
    → (response : Response) × (probe status scope ≡ some response)
      × (response.status ≡ probe_status status scope)
unfolding probe
probe_lem status scope typed path =
    let (response, answered) = probe-answers status scope typed path in
    (response, answered, status_ok response answered)
  where
    known : (scope.path == "/livez" || scope.path == "/readyz") ≡ true
    known = probe_path scope path

    status_of :
        {r : Response} (response : Response) → some r ≡ some response → response.status ≡ r.status
    status_of response e = ground arith

    status_ok :
        (response : Response)
        → probe status scope ≡ some response
        → response.status ≡ probe_status status scope
    status_ok response answered = elim (Bool-cases (not (scope.method == "GET"))) [
      | inl other ↦ rw other (status_of response (rw (typed, known, other) at answered))
      | inr asked ↦ elim (Bool-cases (scope.path == "/livez")) [
        | inl live ↦
            rw (asked, live) (status_of response (rw (typed, known, asked, live) at answered))
        | inr ready ↦ elim (Bool-cases status.ready) [
          | inl up ↦
              rw (asked, ready, up)
                (status_of response (rw (typed, known, asked, ready, up) at answered))
          | inr down ↦
              rw (asked, ready, down)
                (status_of response (rw (typed, known, asked, ready, down) at answered))
        ]
      ]
    ]

module _ (b64_utf8 : String → Option String) (sdk_check : Scope → Bool → Option Response)
    (s : Settings) (status : RuntimeStatus) (scope : Scope) (in_flight : ℕ)
    (typed : scope.type ≡ http) (path : contains scope.path probe_paths ≡ true) where
  admit-probe :
      IsSoundEnvelope (limits_of s (some status)) scope.headers
      → admit (limits_of s (some status)) sdk_check scope in_flight ≡ (bypass, in_flight)
  admit-probe sound =
      let limits = limits_of s (some status) in
      let (paths, mcp) = limits_of_lem b64_utf8 sdk_check s status scope in_flight typed in
      let envelope = (validate_envelope_iff limits scope.headers).1 sound in
      let listed : contains scope.path limits.operational_paths ≡ true = rw paths path in
      admit-http limits sdk_check scope in_flight typed ∙ (rw (envelope, listed) refl)

  -- A probe with a sound envelope is answered, whatever the load, and takes no slot.
  serve_request-probed :
      IsSoundEnvelope (limits_of s (some status)) scope.headers
      → (response : Response) × (serve_request b64_utf8 sdk_check s (some status) scope in_flight
          ≡ (probed response, in_flight))
        × (response.status ≡ probe_status status scope)
  unfolding serve_request
  serve_request-probed sound =
      let (response, answered, code) = probe_lem status scope typed path in
      let admits = admit-probe sound in (response, rw (admits, answered) refl, code)

-- The status of /readyz in each phase of the process.
abbrev pub ready_code : Phase → ℕ
ready_code serving = 200
ready_code _ = 503

probe_status-Agrees :
    (observed : Bool) (phase : Phase) (p : Process) (scope : Scope)
    → Agrees observed phase p
    → scope.method ≡ "GET"
    → scope.path ≡ "/readyz"
    → probe_status p.status scope ≡ ready_code phase
probe_status-Agrees observed starting p scope (ready, _, _) get path = rw (get, path, ready) refl
probe_status-Agrees observed serving p scope (ready, _, _) get path = rw (get, path, ready) refl
probe_status-Agrees observed stopped p scope (ready, _, _) get path = rw (get, path, ready) refl

-- A GET of /readyz with a sound envelope is answered by the stack at any load and takes no slot: by
-- 200 while the process serves, by 503 before the lifespan is entered and after it is left.
pub serve_request-readyz :
    (b64_utf8 : String → Option String) (sdk_check : Scope → Bool → Option Response) (s : Settings)
    (observed : Bool) (p : Process) (scope : Scope) (in_flight : ℕ)
    → Reach observed p
    → scope.type ≡ http
    → scope.method ≡ "GET"
    → scope.path ≡ "/readyz"
    → IsSoundEnvelope (limits_of s (some p.status)) scope.headers
    → (response : Response) × (serve_request b64_utf8 sdk_check s (some p.status) scope in_flight
        ≡ (probed response, in_flight))
      × (response.status ≡ ready_code p.phase)
unfolding contains
serve_request-readyz b64_utf8 sdk_check s observed p scope in_flight r typed get path sound =
    let listed : contains scope.path probe_paths ≡ true = rw path refl in
    let (response, served, code) =
      serve_request-probed b64_utf8 sdk_check s p.status scope in_flight typed listed sound in
    (
      response,
      served,
      code ∙ probe_status-Agrees observed p.phase p scope (Reach-Agrees observed p r) get path,
    )
