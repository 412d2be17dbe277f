-- ===== src/ToolMiddleware/Laws.antt =====
-- What runs and what is listed behind the tool authorization middleware.
use mathlib.Core.Path.{sym, subst}
use mcp_server_auth_template.Base.{
  String, true, false, List, [], ◌∷◌, Option, some, ◌≡◌, ◌≢◌, ◌↔◌, ◌⊎◌, inl, inr, refl, ◌∙◌, ap,
  Bool-cases, ◌==◌,
}
use mcp_server_auth_template.Base.Value.{
  get-store, Fields, Value, str, arr, obj, Items, nil, cons, items, Dict, get, store, fields,
}
use mcp_server_auth_template.Principal.{Principal}
use mcp_server_auth_template.ToolAuthorization.{ToolAuthorizationService, authorize, is_visible}
use mcp_server_auth_template.ToolAuthorization.Decisions.{IsPermitted, authorize_iff}
use mcp_server_auth_template.McpPrincipal.{AuthProvider}
use mcp_server_auth_template.ToolMiddleware.{
  list_filtered, HandlerResult, mapping, tool_error, Context, tool_name_of, Outcome, caller,
  named_visible, entry_visible, visible_items, filter_tool_list, denial_event, pass_on,
  guarded_call, handle,
}

-- Membership, with the place.
abbrev pub In : {A : Type 0} → A → List A → Type 0
In a [] = ⊥
In a (x ∷ xs) = (x ≡ a) ⊎ In a xs

-- An entry of a catalog that names a tool that the caller may invoke.
pub record IsCallable (service : ToolAuthorizationService) (who : Option Principal) (v : Value)
    : Type 0 where
  pub dict : Fields
  pub is_dict : v ≡ obj dict
  pub name : String
  pub named : get "name" (fields dict) ≡ str name
  pub permitted : IsPermitted service name who

module _ (service : ToolAuthorizationService) (provider : AuthProvider)
    (print_value : Value → String) {W : Type 0} (call_next : Context → W → HandlerResult × W)
    (ctx : Context) (w : W) where
  abbrev run : Outcome W
  run = handle service provider print_value call_next ctx w

  abbrev who : Option Principal
  who = caller service provider print_value ctx

  handle-eq-guarded_call :
      (name : String)
      → ctx.method ≡ "tools/call"
      → tool_name_of ctx.params ≡ some name
      → run ≡ guarded_call service provider print_value call_next name ctx w
  unfolding handle
  handle-eq-guarded_call name method named =
      let listing : (ctx.method == "tools/list") ≡ false = rw method refl in
      let calling : (ctx.method == "tools/call") ≡ true = rw method refl in
      rw (listing, calling, named) refl

  -- A request for `tools/call` with a tool's name is either permitted, and then it is passed on to
  -- the server as it is, with no audit event; or it is not permitted, and then the server's state
  -- stays as it was, the caller gets the denial, and one audit event records it.
  pub handle_call :
      (name : String)
      → ctx.method ≡ "tools/call"
      → tool_name_of ctx.params ≡ some name
      → (IsPermitted service name who
          × (run ≡ pass_on service provider print_value call_next ctx w))
        ⊎ ((¬ IsPermitted service name who)
            × (run.world ≡ w)
            × (run.result ≡ tool_error "Authorization denied for this tool.")
            × (run.events ≡ denial_event who name (authorize service name who) ∷ []))
  unfolding guarded_call
  handle_call name method named =
      let same = handle-eq-guarded_call name method named in
      let permitted = (authorize_iff service name who).0 in
      elim (Bool-cases (authorize service name who).is_allowed) [
        | inl yes_allowed ↦ inl (permitted.0 yes_allowed, same ∙ (rw yes_allowed refl))
        | inr denied ↦ inr (
          λ p. cc (permitted.1 p, denied),
          ap (λ (o : Outcome W). o.world) same ∙ (rw denied refl),
          ap (λ (o : Outcome W). o.result) same ∙ (rw denied refl),
          ap (λ (o : Outcome W). o.events) same ∙ (rw denied refl),
        )
      ]

module _ (service : ToolAuthorizationService) (who : Option Principal) where
  abbrev Visible : Value → Type 0
  Visible v = entry_visible service who v ≡ true

  In-visible_items :
      (v : Value) (vs : Items)
      → In v (items (visible_items service who vs)) ↔ (In v (items vs) × Visible v)
  unfolding visible_items
  In-visible_items v nil = (λ h. absurd h, λ h. h.0)
  In-visible_items v (cons x vs) =
      let (to, from) = In-visible_items v vs in
      elim (Bool-cases (entry_visible service who x)) [
        | inl shown ↦ rw shown (
          λ h. elim h [ inl e ↦ (inl e, subst Visible e shown) | inr m ↦ (inr (to m).0, (to m).1) ],
          λ (h, visible). elim h [ inl e ↦ inl e | inr m ↦ inr (from (m, visible)) ],
        )
        | inr hidden ↦ rw hidden (
          λ m. (inr (to m).0, (to m).1),
          λ (h, visible). elim h [
            | inl e ↦ cc (hidden, subst Visible (sym e) visible)
            | inr m ↦ from (m, visible)
          ],
        )
      ]

  named-IsCallable :
      (dict : Fields) (n : Value)
      → get "name" (fields dict) ≡ n
      → named_visible service who n ≡ true
      → IsCallable service who (obj dict)
  unfolding is_visible
  named-IsCallable dict (str name) e h = record {
    dict = dict;
    is_dict = refl;
    name = name;
    named = e;
    permitted = (authorize_iff service name who).0.0 h;
  }
  named-IsCallable dict _ e h = cc

  Visible→IsCallable : (v : Value) → Visible v → IsCallable service who v
  Visible→IsCallable (obj dict) h = named-IsCallable dict (get "name" (fields dict)) refl h
  Visible→IsCallable _ h = cc

  IsCallable→Visible : (v : Value) → IsCallable service who v → Visible v
  unfolding is_visible
  IsCallable→Visible v c =
      rw (c.is_dict, c.named) ((authorize_iff service c.name who).0.1 c.permitted)

-- The entries that `tools/list` leaves in a catalog are those of the server's catalog that name a
-- tool that the caller may invoke by `tools/call`.
pub visible_items_iff :
    (service : ToolAuthorizationService) (who : Option Principal) (v : Value) (vs : Items)
    → In v (items (visible_items service who vs)) ↔ (In v (items vs) × IsCallable service who v)
visible_items_iff service who v vs =
    let (to, from) = In-visible_items service who v vs in
    (
      λ h. ((to h).0, Visible→IsCallable service who v (to h).1),
      λ (m, c). from (m, IsCallable→Visible service who v c),
    )

module _ (service : ToolAuthorizationService) (provider : AuthProvider)
    (print_value : Value → String) {W : Type 0} (call_next : Context → W → HandlerResult × W)
    (ctx : Context) (w : W) (listing : ctx.method ≡ "tools/list") where
  handle-eq-list_filtered :
      handle service provider print_value call_next ctx w
      ≡ list_filtered service provider print_value call_next ctx w
  unfolding handle
  handle-eq-list_filtered =
      let e : (ctx.method == "tools/list") ≡ true = rw listing refl in rw e refl

  -- When the server answers `tools/list` by a mapping with a list under "tools", the caller gets
  -- that mapping with the list replaced by one that holds an entry exactly if the server's list
  -- does and the entry names a tool that the caller may invoke by `tools/call`; all else under
  -- other keys stays.
  pub handle_list :
      (r : Dict Value) (w' : W) (vs : Items)
      → call_next ctx w ≡ (mapping r, w')
      → get "tools" r ≡ arr vs
      → (shown : Items) × (handle service provider print_value call_next ctx w
          ≡ record { result = mapping (store "tools" (arr shown) r); world = w'; events = [] })
        × ((v : Value)
            → In v (items shown)
              ↔ (In v (items vs) × IsCallable service (caller service provider print_value ctx) v))
        × ((k : String) → k ≢ "tools" → get k (store "tools" (arr shown) r) ≡ get k r)
  unfolding filter_tool_list
  handle_list r w' vs answered found =
      let who = caller service provider print_value ctx in
      let shown = visible_items service who vs in
      (
        shown,
        handle-eq-list_filtered ∙ (rw (answered, found) refl),
        λ v. visible_items_iff service who v vs,
        λ k other. get-store k "tools" (arr shown) r other,
      )
