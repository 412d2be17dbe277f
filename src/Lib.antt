-- ===== src/Lib.antt =====
-- mcp-server-auth-template: an OAuth 2.1 resource server for MCP.
--
-- A request passes, from the outside to the inside: the transport admission (Transport), which
-- refuses malformed, misdirected and excess requests; the probes (Runtime); the progressive
-- authorization (ProgressiveHttp), which finds the tool that a request names and replaces the
-- response by a challenge when scopes are missing; the token verifier (ProgressiveVerifier) around a
-- delegate (TokenVerifier) that discovers the issuer's metadata (Discovery) and finds signing keys
-- in a cached JWKS document (Jwks, OidcJson), over requests that a network policy confines
-- (OidcNetwork); and the tool middleware (ToolMiddleware), which asks the authorization service
-- (ToolAuthorization) with the principal of the token (McpPrincipal, Principal, ScopeClaims).
-- Refusals are audited (SecurityAudit), and what is logged has its secrets masked (Redaction). All
-- of it is put together from validated settings (Settings) by the server's builders (Server), which
-- also check the settings before the start. Apart from the server stand the policy for
-- vulnerabilities of its image (VulnerabilityPolicy) and the checks of a wheel and a source archive
-- before their release (ReleaseArtifacts).
--
-- Where each part stands (paths below src/mcp_server_auth_template/):
--   ScopeClaims          domain/scope_claims.py: scopes_from_claims, roles_from_claims, qualify_scopes
--   Principal            domain/principal.py
--   ToolAuthorization    application/tool_authorization.py: ToolPolicy with __post_init__ (tool_policy)
--                        and its constructors (delegated_scopes_policy, ...), and
--                        ToolAuthorizationService. Decisions has the specification of `authorize`,
--                        StepUp the scopes that a denial names, Policies what can be built
--   SecurityAudit        adapters/security_audit.py; an event is the dict handed to the logger
--   McpPrincipal         adapters/mcp_principal.py
--   ToolMiddleware       adapters/mcp_tool_authorization.py: __call__ (handle), _filter_tool_list
--   Transport            adapters/http_transport_security.py: __call__ up to the application (admit),
--                        _validate_envelope, _try_admit, _release. Concurrency has the step
--                        relation of arrivals and departures
--   Runtime              application/runtime_status.py and adapters/runtime_probes.py
--   ProgressiveHttp      adapters/progressive_auth_http.py: the context of a request (context_for),
--                        and the wrapped `send` over the events of a request (run_app)
--   ProgressiveVerifier  adapters/progressive_token_verifier.py
--   OidcJson             adapters/oidc_json.py
--   Jwks                 adapters/jwks_key_resolver.py, with Resolver for its state, Index for
--                        _index_keys and Resolution for `resolve`; domain/auth_errors.py
--   OidcNetwork          adapters/oidc_http_security.py: OidcNetworkSecurityPolicy (network_policy for
--                        its constructor, `resolve`) and _BoundedAsyncByteStream (bounded_chunks);
--                        Pinned the origins that are trusted, Targets the address that a request
--                        is pinned to, Requests PinnedOidcAsyncTransport (handle_request)
--   Discovery            adapters/oidc_discovery.py and domain/oidc_metadata.py; Tasks has concurrent
--                        calls of `resolve` at the fetch lock, one step from switch to switch, with
--                        their runs, the lock and their progress
--   TokenVerifier        adapters/generic_oidc_token_verifier.py (verify_generic) and
--                        adapters/entra_token_verifier.py (verify_entra); Acceptance has what an
--                        accepted token is
--   Redaction            entrypoints/logging.py: redact_security_secrets
--   Settings             entrypoints/settings.py: the fields and effective_required_scopes; Urls has the
--                        checks of URLs and allowlists, Production the production profile, Validation
--                        _require_matching_provider_fields and the whole (settings_of)
--   Server               entrypoints/mcp_server.py: Registry has _build_tool_authorizer, Assembly the
--                        issuer, the network policy, _build_token_verifier and build_server, Security
--                        the allowlists of Host and Origin, Surface the stack of middleware that a
--                        request passes (serve_request, which composes Transport, Runtime and
--                        ProgressiveHttp), Lifespan the lifespan with its step relation and create_app,
--                        Preflight entrypoints/preflight.py and entrypoints/serve.py
--   VulnerabilityPolicy  scripts/enforce_vulnerability_policy.py, from the repository's root: the
--                        findings of a report; Exceptions the exceptions, Evaluation the comparison
--   ReleaseArtifacts     scripts/prepare_release_artifacts.py, from the repository's root: _safe_parts
--                        and _validate_metadata; Wheel has validate_wheel over the members, Sdist
--                        validate_sdist, Identity load_project_identity
--   Http                 the values of ASGI and HTTP that these share
--   Base                 numbers, texts, sets as lists, results, JSON values and dicts
--
-- How code becomes definitions. A str is a text of code points and `bytes` a text of the code
-- points 0 to 255; a frozenset is a list read through its elements; a dict is a list of entries in
-- insertion order; an exception is the error of a Result, or `none`. State that the code mutates (the
-- slots, the JWKS cache and the times of refresh, the world behind the HTTP client, the server
-- behind the middleware) is passed and returned. Audit events are returned beside the result. Times
-- are natural numbers of some unit. All recursion is structural, so nothing has a bound or fuel of
-- its own but the printing of a number (digits), whose fuel of the number and one is more than it
-- has digits; the limits of the code are fields of the records (Limits, Collaborators, Config, Network).
--
-- Code outside the repository is a parameter: the JSON decoder (loads), strict base64 with UTF-8
-- (b64_utf8), Python's `str` of values that are no text (print_value), the Host and Origin check of
-- the MCP SDK (sdk_check), the HTTP client (http_get), the TTL cache of cachetools (TtlCache, whose
-- laws say that a cache yields only what was put there; that entries only disappear as time passes
-- is a hypothesis where it is used), PyJWT (unverified_header, from_dict, and decode, whose laws
-- IsJwtDecoder states), Python's urllib, idna codec and ipaddress (Urls), its `str.lower` and `re`
-- (lower_str, mask), urllib, ipaddress, uuid and `str.lower` as the settings use them (Python),
-- `str.lower` and `date.fromisoformat` (lower, fromisoformat), the parser of a package's metadata
-- (parse), tomllib (the decoded document), zipfile and tarfile (the members of an archive with what
-- reading them gives), the name resolver (resolver) and the transports of httpx (make_child, send),
-- and the rest of the MCP server (call_next). The policy's test of a JWKS URL (trusted) is a
-- parameter of the key resolver, and the rendering of the Host header (host_header) one of the
-- outbound transport.
--
-- Not modelled: the system's name resolver, the rendering of the Host header and the closing of the
-- outbound transport; the reading of settings from the environment, the objects of the SDK that
-- build_server puts together, the tracing middleware in the stack, the configuration of logging,
-- tracing, and the other scripts, which read files and run commands; the texts of error messages, of
-- which a constructor stands for each; asynchronous interleavings inside the JWKS resolver (each
-- `resolve` runs alone); exceptions of the application under the middlewares, except that a slot is
-- released either way; fields of a ListToolsResult other than its tools; the argument checks of the
-- constructors of the JWKS resolver, of discovery and of the outbound transport; exceptions of the
-- JSON decoder, of PyJWK.from_dict and of reading an archive that the code does not catch; in what
-- is logged, tuples and values that JSON has not, and the two regular expressions, which are one
-- parameter.
pub mod Base
pub mod ScopeClaims
pub mod Principal
pub mod ToolAuthorization
pub mod SecurityAudit
pub mod McpPrincipal
pub mod ToolMiddleware
pub mod Http
pub mod Transport
pub mod Runtime
pub mod ProgressiveHttp
pub mod ProgressiveVerifier
pub mod OidcJson
pub mod Jwks
pub mod OidcNetwork
pub mod Discovery
pub mod TokenVerifier
pub mod Redaction
pub mod Settings
pub mod Server
pub mod VulnerabilityPolicy
pub mod ReleaseArtifacts
