-- ===== src/Server/Preflight/Laws.antt =====
-- The start from settings that were validated before.
use mcp_server_auth_template.Base.{String, arith, in_range, refl, some, true, ℕ, ◌≡◌, ◌≤◌}
use mcp_server_auth_template.Base.Result.{ok}
use mcp_server_auth_template.Server.Preflight.{RunConfig, serve, validate_preflight_settings}
use mcp_server_auth_template.Settings.{Python, Settings, fields_in_bounds}
use mcp_server_auth_template.Settings.Laws.Again.{settings_of_idem}
use mcp_server_auth_template.Settings.Laws.Passed.{settings_of-IsServable}
use mcp_server_auth_template.Settings.Validation.{settings_of}

-- The numbers that uvicorn gets are those of the settings, in their bounds.
pub record IsStart (s : Settings) (config : RunConfig) : Type 0 where
  pub host : config.host ≡ s.runtime_host
  pub port : (config.port ≡ s.runtime_port) × (1 ≤ config.port) × (config.port ≤ 65535)
  pub workers : (config.workers ≡ s.runtime_workers) × (1 ≤ config.workers) × (config.workers ≤ 32)
  pub backlog :
      (config.backlog ≡ s.runtime_backlog) × (1 ≤ config.backlog) × (config.backlog ≤ 65535)
  pub keep_alive :
      (config.timeout_keep_alive ≡ s.runtime_keep_alive_seconds)
      × (1 ≤ config.timeout_keep_alive)
      × (config.timeout_keep_alive ≤ 120)
  pub shutdown :
      (config.timeout_graceful_shutdown ≡ s.runtime_graceful_shutdown_seconds)
      × (1 ≤ config.timeout_graceful_shutdown)
      × (config.timeout_graceful_shutdown ≤ 300)

fields_in_bounds-numbers :
    (s : Settings)
    → fields_in_bounds s ≡ true
    → (in_range 1 65535 s.runtime_port ≡ true)
      × (in_range 1 32 s.runtime_workers ≡ true)
      × (in_range 1 65535 s.runtime_backlog ≡ true)
      × (in_range 1 120 s.runtime_keep_alive_seconds ≡ true)
      × (in_range 1 300 s.runtime_graceful_shutdown_seconds ≡ true)
unfolding fields_in_bounds
fields_in_bounds-numbers s h =
    (ground arith, ground arith, ground arith, ground arith, ground arith)

in_range-bounds : (lo hi n : ℕ) → in_range lo hi n ≡ true → (lo ≤ n) × (n ≤ hi)
in_range-bounds lo hi n h = (ground arith, ground arith)

abbrev config_of : Settings → RunConfig
config_of v = record {
  host = v.runtime_host;
  port = v.runtime_port;
  workers = v.runtime_workers;
  backlog = v.runtime_backlog;
  timeout_keep_alive = v.runtime_keep_alive_seconds;
  timeout_graceful_shutdown = v.runtime_graceful_shutdown_seconds;
}

config_of-IsStart : (v : Settings) → fields_in_bounds v ≡ true → IsStart v (config_of v)
config_of-IsStart v h =
    let (port, workers, backlog, keep_alive, shutdown) = fields_in_bounds-numbers v h in
    let (port_lo, port_hi) = in_range-bounds 1 65535 v.runtime_port port in
    let (workers_lo, workers_hi) = in_range-bounds 1 32 v.runtime_workers workers in
    let (shutdown_lo, shutdown_hi) =
      in_range-bounds 1 300 v.runtime_graceful_shutdown_seconds shutdown in
    let (backlog_lo, backlog_hi) = in_range-bounds 1 65535 v.runtime_backlog backlog in
    let (keep_lo, keep_hi) = in_range-bounds 1 120 v.runtime_keep_alive_seconds keep_alive in
    record {
      host = refl;
      port = (refl, port_lo, port_hi);
      workers = (refl, workers_lo, workers_hi);
      backlog = (refl, backlog_lo, backlog_hi);
      keep_alive = (refl, keep_lo, keep_hi);
      shutdown = (refl, shutdown_lo, shutdown_hi);
    }

serve-valid :
    {Address : Type 0} (py : Python Address) (v : Settings)
    → settings_of py v ≡ ok v
    → serve py v ≡ ok (config_of v)
unfolding serve
serve-valid py v h = rw h refl

-- Settings that the validator has returned pass the check before the start unchanged, and the server
-- is run with their host and numbers, which lie in the bounds of the fields, if the text of a UUID
-- reads as that UUID.
pub serve_starts :
    {Address : Type 0} (py : Python Address)
    (uuid_stable : (t u : String) → py.uuid t ≡ some u → py.uuid u ≡ some u) (s v : Settings)
    → settings_of py s ≡ ok v
    → (validate_preflight_settings py v ≡ ok v)
      × ((config : RunConfig) × (serve py v ≡ ok config) × IsStart v config)
unfolding validate_preflight_settings
serve_starts py uuid_stable s v h =
    let again = settings_of_idem py uuid_stable s v h in
    (
      again,
      (
        config_of v,
        serve-valid py v again,
        config_of-IsStart v (settings_of-IsServable py s v h).in_bounds,
      ),
    )
