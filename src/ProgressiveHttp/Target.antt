-- ===== src/ProgressiveHttp/Target.antt =====
-- Which requests have a target.
use mcp_server_auth_template.Base.{
  String, true, false, not, ◌&&◌, Option, none, some, ◌≡◌, refl, arith, ap, Bool-cases, inl, inr,
  ◌==◌, eq_iff,
}
use mcp_server_auth_template.Base.Text.{is_empty}
use mcp_server_auth_template.Http.{Scope}
use mcp_server_auth_template.ProgressiveHttp.{
  McpRequestTarget, context_for, target_from_scope, single_header, decode_header_value, is_text,
  target_named, decoded_target,
}

-- The headers of the 2026-07-28 protocol that name a tool.
pub record IsTargeted (b64_utf8 : String → Option String) (mcp_path : String) (scope : Scope)
    (target : McpRequestTarget) : Type 0 where
  pub post : scope.method ≡ "POST"
  pub path : scope.path ≡ mcp_path
  pub version : single_header scope "mcp-protocol-version" ≡ some "2026-07-28"
  pub method : single_header scope "mcp-method" ≡ some "tools/call"
  pub encoded : String
  pub header : single_header scope "mcp-name" ≡ some encoded
  pub decoded : decode_header_value b64_utf8 encoded ≡ some target.name
  pub non_empty : is_empty target.name ≡ false
  pub tools_call : target.method ≡ "tools/call"

is_text→eq : (o : Option String) (s : String) → is_text o s ≡ true → o ≡ some s
is_text→eq none s h = cc
is_text→eq (some t) s h = ap some ((eq_iff t s).0 h)

module _ (b64_utf8 : String → Option String) (target : McpRequestTarget) where
  target_named_fields :
      (o : Option String)
      → target_named b64_utf8 o ≡ some target
      → (o ≡ some target.name) × (is_empty target.name ≡ false) × (target.method ≡ "tools/call")
  target_named_fields none h = cc
  target_named_fields (some name) h = elim (Bool-cases (is_empty name)) [
    | inl e ↦ cc (rw e at h)
    | inr e ↦
        let made : ◌≡◌ {A = Option McpRequestTarget}
            (some (record { method = "tools/call"; name = name })) (some target) =
          rw e at h in
        ground arith
  ]

  decoded_target_fields :
      (o : Option String)
      → decoded_target b64_utf8 o ≡ some target
      → (encoded : String) × (o ≡ some encoded)
        × (decode_header_value b64_utf8 encoded ≡ some target.name)
        × (is_empty target.name ≡ false)
        × (target.method ≡ "tools/call")
  decoded_target_fields none h = cc
  decoded_target_fields (some encoded) h =
      let (d, e, m) = target_named_fields (decode_header_value b64_utf8 encoded) h in
      (encoded, refl, d, e, m)

  module _ (mcp_path : String) (scope : Scope) where
    from_scope :
        target_from_scope b64_utf8 scope ≡ some target
        → (single_header scope "mcp-protocol-version" ≡ some "2026-07-28")
          × (single_header scope "mcp-method" ≡ some "tools/call")
          × (decoded_target b64_utf8 (single_header scope "mcp-name") ≡ some target)
    unfolding target_from_scope
    from_scope h =
        let version = single_header scope "mcp-protocol-version" in
        let method = single_header scope "mcp-method" in
        elim (Bool-cases (not (scope.method == "POST"))) [
          | inl other ↦ cc (rw other at h)
          | inr post ↦
              elim (Bool-cases (is_text version "2026-07-28" && is_text method "tools/call")) [
                | inr other ↦ cc (rw (post, other) at h)
                | inl both ↦ (
                  is_text→eq version "2026-07-28" (ground arith),
                  is_text→eq method "tools/call" (ground arith),
                  rw (post, both) at h,
                )
              ]
        ]

    context_target :
        (context_for b64_utf8 mcp_path scope).target ≡ some target
        → (scope.method ≡ "POST")
          × (scope.path ≡ mcp_path)
          × (target_from_scope b64_utf8 scope ≡ some target)
    unfolding context_for
    context_target h = elim (Bool-cases (scope.method == "POST" && scope.path == mcp_path)) [
      | inl mcp ↦ (
        ground (arith, eq_iff scope.method "POST"),
        ground (arith, eq_iff scope.path mcp_path),
        rw mcp at h,
      )
      | inr other ↦ cc (rw other at h)
    ]

-- The verifier sees a target only for a POST to the MCP path whose headers, each given once and in
-- ASCII, say protocol version 2026-07-28, method tools/call and a name that decodes to the target's
-- name, which is not empty.
context_for-IsTargeted :
    (b64_utf8 : String → Option String) (mcp_path : String) (scope : Scope)
    (target : McpRequestTarget)
    → (context_for b64_utf8 mcp_path scope).target ≡ some target
    → IsTargeted b64_utf8 mcp_path scope target
context_for-IsTargeted b64_utf8 mcp_path scope target h =
    let (post, path, found) = context_target b64_utf8 target mcp_path scope h in
    let (version, method, named) = from_scope b64_utf8 target mcp_path scope found in
    let (encoded, header, decoded, non_empty, tools_call) =
      decoded_target_fields b64_utf8 target (single_header scope "mcp-name") named in
    record {
      post = post;
      path = path;
      version = version;
      method = method;
      encoded = encoded;
      header = header;
      decoded = decoded;
      non_empty = non_empty;
      tools_call = tools_call;
    }
