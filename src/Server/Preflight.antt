-- ===== src/Server/Preflight.antt =====
-- src/mcp_server_auth_template/entrypoints/preflight.py and
-- src/mcp_server_auth_template/entrypoints/serve.py: the check before the start, and the start.
use mcp_server_auth_template.Base.{String, ℕ}
use mcp_server_auth_template.Base.Result.{Result, ok, ◌>>=◌}
use mcp_server_auth_template.McpPrincipal.{AuthProvider}
use mcp_server_auth_template.Settings.{AppEnv, Python, Settings, SettingsError}
use mcp_server_auth_template.Settings.Validation.{settings_of}
pub mod Laws

-- The arguments of `uvicorn.run` that come from the settings.
pub record RunConfig : Type 0 where
  pub host : String
  pub port : ℕ
  pub workers : ℕ
  pub backlog : ℕ
  pub timeout_keep_alive : ℕ
  pub timeout_graceful_shutdown : ℕ

-- The numbers and names that the report of the preflight shows.
pub record PreflightReport : Type 0 where
  pub environment : AppEnv
  pub auth_provider : AuthProvider
  pub port : ℕ
  pub workers : ℕ
  pub graceful_shutdown_seconds : ℕ
  pub max_request_body_bytes : ℕ
  pub max_header_count : ℕ
  pub max_header_bytes : ℕ
  pub max_concurrent_requests : ℕ

module _ {Address : Type 0} (py : Python Address) where
  -- validate_preflight_settings, on the fields that `model_dump` gives back
  unfoldable pub validate_preflight_settings : Settings → Result SettingsError Settings
  unfolding settings_of
  validate_preflight_settings s = settings_of py s

  -- serve, up to the call of uvicorn
  unfoldable pub serve : Settings → Result SettingsError RunConfig
  unfolding validate_preflight_settings
  serve s = do
    v ← validate_preflight_settings s
    ok (record {
      host = v.runtime_host;
      port = v.runtime_port;
      workers = v.runtime_workers;
      backlog = v.runtime_backlog;
      timeout_keep_alive = v.runtime_keep_alive_seconds;
      timeout_graceful_shutdown = v.runtime_graceful_shutdown_seconds;
    })

  -- build_preflight_report
  unfoldable pub build_preflight_report : Settings → Result SettingsError PreflightReport
  unfolding validate_preflight_settings
  build_preflight_report s = do
    v ← validate_preflight_settings s
    ok (record {
      environment = v.app_env;
      auth_provider = v.auth_provider;
      port = v.runtime_port;
      workers = v.runtime_workers;
      graceful_shutdown_seconds = v.runtime_graceful_shutdown_seconds;
      max_request_body_bytes = v.transport_max_request_body_bytes;
      max_header_count = v.transport_max_header_count;
      max_header_bytes = v.transport_max_header_bytes;
      max_concurrent_requests = v.transport_max_concurrent_requests;
    })
