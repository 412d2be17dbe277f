-- ===== src/ToolMiddleware.antt =====
-- src/mcp_server_auth_template/adapters/mcp_tool_authorization.py: the middleware around `tools/list`
-- and `tools/call`. `call_next` stands for the rest of the MCP server: it takes the server's state
-- and returns its result with the new state.
pub mod Laws
mod Tests
use mcp_server_auth_template.Base.{
  ℕ, String, Bool, true, false, not, ◌&&◌, Option, none, some, List, [], ◌∷◌, ◌==◌, keep,
  if◌then◌else◌,
}
use mcp_server_auth_template.Base.Text.{is_empty}
use mcp_server_auth_template.Base.Value.{
  Value, str, arr, obj, Items, nil, cons, Dict, get, store, fields,
}
use mcp_server_auth_template.Principal.{Principal}
use mcp_server_auth_template.ToolAuthorization.{
  ToolAuthorizationService, AuthorizationDecision, authorize, is_visible, reason_value,
}
use mcp_server_auth_template.McpPrincipal.{AuthProvider, RequestUser, principal_from_request}
use mcp_server_auth_template.SecurityAudit.{
  authorization_denied, denied, details, emit_security_audit,
}

-- mcp_types.Tool, as far as the middleware reads it.
pub record Tool : Type 0 where
  pub name : String
  pub rest : Dict Value

-- A result of the SDK's chain: the model that a handler may return, the mapping that the runner
-- serialises to, the error result of this file, or anything else.
pub data HandlerResult : Type 0 where
  list_tools : List Tool → HandlerResult
  mapping : Dict Value → HandlerResult
  tool_error : String → HandlerResult
  other_result : HandlerResult

pub record Context : Type 0 where
  pub method : String
  pub params : Option (Dict Value)
  pub request : Option RequestUser

-- `params.get("name") if params is not None else None`, if it is a non-empty text
abbrev pub text_name : Value → Option String
text_name (str s) = if is_empty s then none else some s
text_name _ = none

abbrev pub tool_name_of : Option (Dict Value) → Option String
tool_name_of none = none
tool_name_of (some params) = text_name (get "name" params)

-- The outcome of a request: what the caller gets, the server's state and the audit events.
pub record Outcome (W : Type 0) : Type 0 where
  pub result : HandlerResult
  pub world : W
  pub events : List (Dict Value)

module _ (authorizer : ToolAuthorizationService) where
  -- the test of the comprehension over `tools`
  abbrev pub named_visible : Option Principal → Value → Bool
  named_visible who (str name) = is_visible authorizer name who
  named_visible who _ = false

  abbrev pub entry_visible : Option Principal → Value → Bool
  entry_visible who (obj fs) = named_visible who (get "name" (fields fs))
  entry_visible who _ = false

  unfoldable pub visible_items : Option Principal → Items → Items
  visible_items who nil = nil
  visible_items who (cons v vs) =
      let rest = visible_items who vs in if entry_visible who v then cons v rest else rest

  -- `{**result, "tools": visible}` where `tools` is a list
  abbrev pub filter_mapping : Option Principal → Dict Value → Value → HandlerResult
  filter_mapping who result (arr tools) =
      mapping (store "tools" (arr (visible_items who tools)) result)
  filter_mapping who result _ = list_tools []

unfoldable pub denial_event : Option Principal → String → AuthorizationDecision → Dict Value
denial_event who name decision =
    emit_security_audit authorization_denied denied
      (record (details (reason_value decision.reason)) { principal = who; tool_name = some name })

module _ (authorizer : ToolAuthorizationService) (provider : AuthProvider)
    (print_value : Value → String) where
  abbrev pub caller : Context → Option Principal
  caller ctx = principal_from_request print_value ctx.request provider

  -- `_filter_tool_list`
  unfoldable pub filter_tool_list : HandlerResult → Context → HandlerResult
  filter_tool_list (list_tools tools) ctx =
      list_tools (keep (λ t. is_visible authorizer t.name (caller ctx)) tools)
  filter_tool_list (mapping result) ctx =
      filter_mapping authorizer (caller ctx) result (get "tools" result)
  filter_tool_list _ ctx = list_tools []

  module _ {W : Type 0} (call_next : Context → W → HandlerResult × W) where
    abbrev pub pass_on : Context → W → Outcome W
    pass_on ctx w = let (r, w') = call_next ctx w in record { result = r; world = w'; events = [] }

    abbrev pub list_filtered : Context → W → Outcome W
    list_filtered ctx w =
        let (r, w') = call_next ctx w in
        record { result = filter_tool_list r ctx; world = w'; events = [] }

    unfoldable pub guarded_call : String → Context → W → Outcome W
    guarded_call name ctx w =
        let decision = authorize authorizer name (caller ctx) in
        if decision.is_allowed then pass_on ctx w else record {
          result = tool_error "Authorization denied for this tool.";
          world = w;
          events = denial_event (caller ctx) name decision ∷ [];
        }

    abbrev pub call_named : Option String → Context → W → Outcome W
    call_named none ctx w = pass_on ctx w
    call_named (some name) ctx w = guarded_call name ctx w

    -- ToolAuthorizationMiddleware.__call__
    unfoldable pub handle : Context → W → Outcome W
    handle ctx w =
        if ctx.method == "tools/list"
        then list_filtered ctx w
        else if ctx.method == "tools/call"
        then call_named (tool_name_of ctx.params) ctx w
        else pass_on ctx w
