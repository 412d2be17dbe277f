-- ===== src/ProgressiveHttp/Laws.antt =====
-- What the client sees of a request that lacks scopes, and of one that does not.
use mcp_server_auth_template.Base.{
  length, Bool, some, String, false, Option, List, [], ◌∷◌, map, ltb, ◌≡◌, refl,
}
use mcp_server_auth_template.Base.Text.{decimal, join, all_codes}
use mcp_server_auth_template.Base.Value.{Value, str, int, lookup, pos, Dict}
use Prim.Native.String
use mcp_server_auth_template.Base.Text
use mcp_server_auth_template.Http.{Bytes}
use mcp_server_auth_template.ProgressiveHttp.{
  Sent, McpRequestTarget, Message, response_start, response_body, other_message, AppEvent, sends,
  run_app,
}

abbrev pub bodies : List Bytes → List AppEvent
bodies = map (λ b. sends (response_body b))

abbrev pub is_ascii : String → Bool
is_ascii s = all_codes (λ c. ltb c 128) s

-- The value of the challenge: the error, the scopes with blanks between them, and the URL of the
-- metadata.
abbrev pub spelled_challenge : List String → String → String
unfolding join
spelled_challenge scopes url =
    String.◌++◌ "Bearer error=\"insufficient_scope\", scope=\"" (
      String.◌++◌ (join " " scopes) (String.◌++◌ "\", resource_metadata=\"" (String.◌++◌ url "\"")))

-- What the client gets and what is logged: one response of status 403, with a body of the length that
-- it states, JSON that no cache stores, and the challenge; and one audit event.
pub record IsChallenged (url : String) (target : Option McpRequestTarget) (scopes : List String)
    (sent : Sent) : Type 0 where
  pub headers : Dict Bytes
  pub body : Bytes
  pub response : sent.messages ≡ response_start 403 headers ∷ response_body body ∷ []
  pub explained :
      body
      ≡ "{\"error\":\"insufficient_scope\",\"error_description\":\"Additional authorization is required for this operation.\"}"
  pub challenge : lookup "www-authenticate" headers ≡ some (spelled_challenge scopes url)
  pub json : lookup "content-type" headers ≡ some "application/json"
  pub uncached : lookup "cache-control" headers ≡ some "no-store"
  pub measured : lookup "content-length" headers ≡ some (decimal (Text.length body))
  pub event : Dict Value
  pub logged : sent.events ≡ event ∷ []
  pub action : lookup "action" event ≡ some (str "oauth_scope_step_up")
  pub outcome : lookup "outcome" event ≡ some (str "challenged")
  pub status : lookup "status_code" event ≡ some (int (pos 403))
  pub counted : lookup "required_scope_count" event ≡ some (int (pos (length scopes)))
  pub kept_running : sent.raised ≡ false

-- A request for which no scope is asked is answered by the application's messages as they are, with
-- no audit event.
pub run_app_passes :
    (url : String) (target : Option McpRequestTarget) (ms : List Message)
    → run_app url target [] false (map sends ms)
      ≡ record { messages = ms; events = []; raised = false }
unfolding run_app
run_app_passes url target [] = refl
run_app_passes url target (response_start status headers ∷ ms) =
    rw (run_app_passes url target ms) refl
run_app_passes url target (response_body b ∷ ms) = rw (run_app_passes url target ms) refl
run_app_passes url target (other_message ∷ ms) = rw (run_app_passes url target ms) refl
