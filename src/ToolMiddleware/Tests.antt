-- ===== src/ToolMiddleware/Tests.antt =====
-- The middleware in front of a server that counts the calls that reach it.
use mcp_server_auth_template.Base.{ℕ, suc, String, [], ◌∷◌, none, some, ◌≡◌, ◌≢◌, ◌↔◌, ◌⊎◌, refl}
use mcp_server_auth_template.Base.Value.{
  Value, str, arr, obj, Items, nil, cons, items, end, field, Dict, get, store,
}
use mcp_server_auth_template.ToolAuthorization.{
  ToolAuthorizationService, authenticated, oauth_scopes, authorize,
}
use mcp_server_auth_template.ToolAuthorization.Decisions.{IsPermitted}
use mcp_server_auth_template.McpPrincipal.{
  principal_from_request, generic, AccessToken, authenticated_user,
}
use mcp_server_auth_template.ToolMiddleware.{
  guarded_call, HandlerResult, mapping, tool_error, Context, caller, denial_event, pass_on, handle,
}
use mcp_server_auth_template.ToolMiddleware.Laws.{In, IsCallable, handle_call, handle_list}

abbrev registry : ToolAuthorizationService
registry = record {
  policies =
      ("whoami", record { kind = authenticated; permissions = [] })
      ∷ ("health", record { kind = oauth_scopes; permissions = "mcp:tools:health" ∷ [] })
      ∷ [];
}

abbrev reader : AccessToken
reader = record {
  token = "t";
  client_id = "cli";
  scopes = "read" ∷ [];
  expires_at = 100;
  resource = "api";
  subject = some "sub";
  claims = none;
}

abbrev print_other : Value → String
print_other v = "?"

abbrev catalog : Items
catalog =
    cons (obj (field "name" (str "whoami") end))
      (cons (obj (field "name" (str "health") end)) (cons (str "junk") nil))

abbrev catalog_result : Dict Value
catalog_result = ("tools", arr catalog) ∷ ("ttl", str "x") ∷ []

-- Every request that arrives is counted.
abbrev counting_server : Context → ℕ → HandlerResult × ℕ
counting_server ctx n = (mapping catalog_result, suc n)

abbrev calls : String → Context
calls name = record {
  method = "tools/call";
  params = some (("name", str name) ∷ []);
  request = some (authenticated_user reader);
}

abbrev lists : Context
lists = record { method = "tools/list"; params = none; request = some (authenticated_user reader) }

denied_call_does_not_arrive :
    (handle registry generic print_other counting_server (calls "health") 7).world ≡ 7
unfolding handle guarded_call authorize principal_from_request
denied_call_does_not_arrive = refl

handle_call_example :
    (IsPermitted registry "health" (caller registry generic print_other (calls "health"))
      × (handle registry generic print_other counting_server (calls "health") 7
          ≡ pass_on registry generic print_other counting_server (calls "health") 7))
    ⊎ ((¬ IsPermitted registry "health" (caller registry generic print_other (calls "health")))
        × ((handle registry generic print_other counting_server (calls "health") 7).world ≡ 7)
        × ((handle registry generic print_other counting_server (calls "health") 7).result
            ≡ tool_error "Authorization denied for this tool.")
        × ((handle registry generic print_other counting_server (calls "health") 7).events
            ≡ denial_event
                (caller registry generic print_other (calls "health"))
                "health"
                (authorize registry "health" (caller registry generic print_other (calls "health")))
              ∷ []))
unfolding get
handle_call_example =
    handle_call registry generic print_other counting_server (calls "health") 7 "health" refl refl

handle_list_example :
    (shown : Items) × (handle registry generic print_other counting_server lists 7 ≡ record {
      result = mapping (store "tools" (arr shown) catalog_result);
      world = 8;
      events = [];
    })
    × ((v : Value)
        → In v (items shown) ↔ (
            In v (items catalog)
            × IsCallable registry (caller registry generic print_other lists) v))
    × ((k : String)
        → k ≢ "tools"
        → get k (store "tools" (arr shown) catalog_result) ≡ get k catalog_result)
unfolding get
handle_list_example =
    handle_list registry generic print_other counting_server lists 7 refl catalog_result 8 catalog
      refl refl
