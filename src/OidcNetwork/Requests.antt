-- ===== src/OidcNetwork/Requests.antt =====
-- PinnedOidcAsyncTransport of oidc_http_security.py: which requests are sent, and which responses are
-- passed on. Header names are in lower case, as httpx compares them.
use mcp_server_auth_template.Base.{
  Bool, List, String, [], false, if◌then◌else◌, leb, ltb, none, not, some, true, ℕ, ◌&&◌, ◌==◌, ◌∷◌,
  Option, length,
}
use mcp_server_auth_template.Base.Result.{◌>>=◌, Result, err, ok}
use mcp_server_auth_template.Base.Sets.{contains}
use mcp_server_auth_template.Base.Text.{strip}
use mcp_server_auth_template.Base.Value.{Dict, Value, lookup, store, ℤ, pos, negsuc}
use mcp_server_auth_template.Http.{Bytes, lower}
use mcp_server_auth_template.OidcNetwork.{
  NetworkError, Origin, Policy, ResolvedTarget, Urls, bad_length, carries_credentials, host_budget,
  not_get, origin, redirected, resolve, response_limit_for, same_origin, too_long, compressed,
}
pub mod Laws
mod Tests
use mcp_server_auth_template.SecurityAudit.{
  outbound_credential_blocked, denied, details, emit_security_audit,
}

pub record Request : Type 0 where
  pub method : String
  pub url : String
  pub headers : Dict String

-- The request that goes to the network: to the address of the target, under the name of the host.
pub record NetworkRequest (Address : Type 0) : Type 0 where
  pub target : ResolvedTarget Address
  pub headers : Dict String
  pub sni_hostname : Option String

pub record NetworkResponse : Type 0 where
  pub status : ℕ
  pub headers : Dict String
  pub chunks : List Bytes

-- A response that is passed on: its body is read within the limit.
pub record Accepted : Type 0 where
  pub response : NetworkResponse
  pub limit : ℕ

-- What the transport is built from. `make_child` is its factory; `send` is the request of a child,
-- which may raise any exception of the policy's kind; `host_header` is `_render_host_header`, and
-- `read_int` Python's `int` on a text.
pub record Network (W Address Child : Type 0) : Type 0 where
  pub urls : Urls Address
  pub resolver : String → ℕ → W → Result NetworkError (List Address) × W
  pub policy : Policy
  pub max_hosts : ℕ
  pub make_child : W → Child × W
  pub send : Child → NetworkRequest Address → W → Result NetworkError NetworkResponse × W
  pub host_header : Origin → String
  pub read_int : String → Option ℤ

unfoldable pub has_credentials : Dict String → Bool
unfolding lookup
has_credentials headers = elim (lookup "authorization" headers) [
  | some value ↦ true
  | none ↦ elim (lookup "proxy-authorization" headers) [ some value ↦ true | none ↦ false ]
]

abbrev pub blocked_event : Dict Value
blocked_event =
    emit_security_audit outbound_credential_blocked denied
      (record (details "credential_header_on_oidc_control_plane") {
        target_kind = some "oidc_control_plane";
      })

-- `response.headers.get("Content-Encoding", "identity")`
abbrev pub encoding_of : Option String → String
encoding_of none = "identity"
encoding_of (some value) = strip (lower value)

abbrev pub length_error : ℕ → Option ℤ → Option NetworkError
length_error limit none = some bad_length
length_error limit (some (negsuc n)) = some too_long
length_error limit (some (pos n)) = if ltb limit n then some too_long else none

module _ {W Address Child : Type 0} (net : Network W Address Child) where
  abbrev pub Pool : Type 0
  Pool = List (Origin × Child)

  unfoldable pub child_for : Origin → Pool → Option Child
  unfolding same_origin
  child_for key [] = none
  child_for key ((o, child) ∷ pool) = if same_origin o key then some child else child_for key pool

  abbrev pub child_or_new : Origin → Option Child → Pool → W → Result NetworkError Child × Pool × W
  child_or_new key (some child) pool w = (ok child, pool, w)
  child_or_new key none pool w =
      let (child, w') = net.make_child w in
      if leb net.max_hosts (length pool)
      then (err host_budget, pool, w)
      else (ok child, (key, child) ∷ pool, w')

  abbrev pub transport_at :
      Result NetworkError Origin → Pool → W → Result NetworkError Child × Pool × W
  transport_at (err e) pool w = (err e, pool, w)
  transport_at (ok key) pool w = child_or_new key (child_for key pool) pool w

  -- `_transport_for`
  unfoldable pub transport_for :
      ResolvedTarget Address → Pool → W → Result NetworkError Child × Pool × W
  transport_for target pool w = transport_at (origin net.urls target.origin) pool w

  abbrev pub length_checked : NetworkResponse → ℕ → Option String → Result NetworkError Accepted
  length_checked r limit none = ok (record { response = r; limit = limit })
  length_checked r limit (some text) = elim (length_error limit (net.read_int text)) [
    | some e ↦ err e
    | none ↦ ok (record { response = r; limit = limit })
  ]

  -- the checks of `handle_async_request` on the response
  unfoldable pub check_response : String → NetworkResponse → Result NetworkError Accepted
  check_response url r =
      if leb 300 r.status && ltb r.status 400
      then err redirected
      else if not
          (contains (encoding_of (lookup "content-encoding" r.headers)) ("" ∷ "identity" ∷ []))
      then err compressed
      else response_limit_for net.urls net.policy url >>= λ limit.
          length_checked r limit (lookup "content-length" r.headers)

  abbrev pub network_request : Request → ResolvedTarget Address → NetworkRequest Address
  network_request request target = record {
    target = target;
    headers =
        store "accept-encoding" "identity"
          (store "host" (net.host_header target.origin) request.headers);
    sni_hostname = if target.origin.scheme == "https" then some target.origin.host else none;
  }

  -- The response or the exception, the pool and the world after it, and the audit events.
  pub record Handled : Type 0 where
    pub result : Result NetworkError Accepted
    pub pool : Pool
    pub world : W
    pub events : List (Dict Value)

  abbrev pub failed : NetworkError → Pool → W → Handled
  failed e pool w = record { result = err e; pool = pool; world = w; events = [] }

  abbrev pub sent :
      Request → ResolvedTarget Address → Result NetworkError Child × Pool × W → Handled
  sent request target (err e, pool, w) = failed e pool w
  sent request target (ok child, pool, w) =
      let (answer, w') = net.send child (network_request request target) w in
      record {
        result = answer >>= check_response request.url;
        pool = pool;
        world = w';
        events = [];
      }

  abbrev pub resolved : Request → Pool → Result NetworkError (ResolvedTarget Address) × W → Handled
  resolved request pool (err e, w) = failed e pool w
  resolved request pool (ok target, w) = sent request target (transport_for target pool w)

  -- `handle_async_request`
  unfoldable pub handle_request : Request → Pool → W → Handled
  handle_request request pool w =
      if not (request.method == "GET")
      then failed not_get pool w
      else if has_credentials request.headers
      then record {
        result = err carries_credentials;
        pool = pool;
        world = w;
        events = blocked_event ∷ [];
      }
      else resolved request pool (resolve net.urls net.resolver net.policy request.url w)
