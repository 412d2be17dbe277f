-- ===== src/OidcNetwork.antt =====
-- src/mcp_server_auth_template/adapters/oidc_http_security.py: the trust policy for outbound requests,
-- the address that a request is pinned to, the pools of connections and the bounded bodies.
use mcp_server_auth_template.Base.{
  Bool, List, Option, String, [], all, eqb, false, if◌then◌else◌, ltb, none, not, some, suc, true,
  zero, ℕ, ◌&&◌, ◌++◌, ◌+◌, ◌==◌, ◌||◌, ◌∷◌,
}
use mcp_server_auth_template.Base.Result.{◌>>=◌, Result, err, ok}
use mcp_server_auth_template.Base.Text.{any_code, has_infix, is_empty, rstrip}
use mcp_server_auth_template.Http.{Bytes, lower}
pub mod Pinned
pub mod Targets
pub mod Bodies
pub mod Requests
mod Tests
use Prim.Native.String
use mcp_server_auth_template.Base.Text
use mcp_server_auth_template.Base.Value.{ℤ, negsuc, pos}

-- The messages of OidcNetworkSecurityError, and the ValueErrors of the constructor.
pub data NetworkError : Type 0 where
  invalid_characters malformed not_http no_hostname has_userinfo has_fragment : NetworkError
  zone_identifier invalid_hostname not_https query_in_issuer bad_allowlist bad_limits : NetworkError
  issuer_mismatch untrusted_origin dns_failure no_addresses non_global host_budget : NetworkError
  not_get carries_credentials redirected compressed bad_length too_long : NetworkError

-- What `urlsplit` returns, as far as it is read.
pub record SplitUrl : Type 0 where
  pub scheme : String
  pub hostname : Option String
  pub port : Option ℕ
  pub with_userinfo : Bool
  pub path : String
  pub query : String
  pub fragment : String

-- Python's urllib, idna codec and ipaddress; `none` where they raise. `urlsplit` stands for the split
-- with the read of the port.
pub record Urls (Address : Type 0) : Type 0 where
  pub urlsplit : String → Option SplitUrl
  pub idna : String → Option String
  pub ip_address : String → Option Address
  pub is_loopback : Address → Bool
  pub is_global : Address → Bool
  pub ipv4_mapped : Address → Option Address

pub record Origin : Type 0 where
  pub scheme : String
  pub host : String
  pub port : ℕ

pub data RequestKind : Type 0 where
  discovery jwks : RequestKind

unfoldable pub default_port : String → Result NetworkError ℕ
default_port scheme =
    if scheme == "https" then ok 443 else if scheme == "http" then ok 80 else err not_http

-- `parsed.port or _default_port(scheme)`
abbrev pub port_or_default : Option ℕ → String → Result NetworkError ℕ
port_or_default none scheme = default_port scheme
port_or_default (some zero) scheme = default_port scheme
port_or_default (some (suc n)) scheme = ok (suc n)

unfoldable pub same_origin : Origin → Origin → Bool
same_origin a b = a.scheme == b.scheme && (a.host == b.host && eqb a.port b.port)

unfoldable pub is_trusted : Origin → List Origin → Bool
unfolding same_origin
is_trusted o [] = false
is_trusted o (t ∷ ts) = same_origin t o || is_trusted o ts

-- `value > 0`
abbrev pub is_positive : ℤ → Bool
is_positive (pos n) = not (eqb n 0)
is_positive (negsuc n) = false

-- The arguments of OidcNetworkSecurityPolicy. Timeouts are numbers, of either sign, of a unit
-- that is small enough for the floats that they stand for.
pub record Config : Type 0 where
  pub issuer_url : String
  pub allow_insecure_loopback : Bool
  pub jwks_allowed_origins : List String
  pub dns_timeout : ℤ
  pub http_timeout : ℤ
  pub discovery_max_bytes : ℕ
  pub jwks_max_bytes : ℕ

pub record Policy : Type 0 where
  pub config : Config
  pub discovery_url : String
  pub trusted_jwks_origins : List Origin

module _ {Address : Type 0} (urls : Urls Address) where
  -- `_effective_address`
  unfoldable pub effective_address : Address → Address
  effective_address a = elim (urls.ipv4_mapped a) [ none ↦ a | some mapped ↦ mapped ]

  abbrev pub ascii_host : Option String → Result NetworkError String
  ascii_host none = err invalid_hostname
  ascii_host (some h) = ok (rstrip (λ c. eqb c b'.') (lower h))

  -- `_normalize_host`
  unfoldable pub normalize_host : String → Result NetworkError String
  normalize_host host =
      if has_infix "%" host then err zone_identifier else ascii_host (urls.idna host)

  -- `_origin`
  unfoldable pub origin : Origin → Result NetworkError Origin
  origin o = do
    host ← normalize_host o.host
    ok (record { scheme = o.scheme; host = host; port = o.port })

  abbrev pub host_or_empty : Option String → String
  host_or_empty none = ""
  host_or_empty (some h) = h

  -- `_parse_url` behind the split
  abbrev pub checked_url : SplitUrl → Result NetworkError Origin
  checked_url u = do
    port ← port_or_default u.port (lower u.scheme)
    if not (lower u.scheme == "http" || lower u.scheme == "https")
        then err not_http
        else if is_empty (host_or_empty u.hostname)
        then err no_hostname
        else if u.with_userinfo
        then err has_userinfo
        else if not (is_empty u.fragment)
        then err has_fragment
        else origin
            (record { scheme = lower u.scheme; host = host_or_empty u.hostname; port = port })

  abbrev pub split_url : Option SplitUrl → Result NetworkError Origin
  split_url none = err malformed
  split_url (some u) = checked_url u

  -- `_parse_url`
  unfoldable pub parse_url : String → Result NetworkError Origin
  parse_url url =
      if has_infix "\\" url || any_code (λ c. ltb c 0x20) url
      then err invalid_characters
      else split_url (urls.urlsplit url)

  abbrev pub has_query : Option SplitUrl → Bool
  has_query none = false
  has_query (some u) = not (is_empty u.query)

  abbrev pub has_path : Option SplitUrl → Bool
  has_path none = false
  has_path (some u) = not (is_empty u.path || u.path == "/")

  -- one turn of the loop over `jwks_allowed_origins`
  unfoldable pub allowlist_entry : Bool → String → Result NetworkError Origin
  allowlist_entry insecure raw = do
    o ← parse_url raw
    if has_path (urls.urlsplit raw) || has_query (urls.urlsplit raw)
        then err bad_allowlist
        else if not (o.scheme == "https" || insecure)
        then err not_https
        else origin o

  unfoldable pub trusted_from : Bool → List Origin → List String → Result NetworkError (List Origin)
  trusted_from insecure trusted [] = ok trusted
  trusted_from insecure trusted (raw ∷ raws) =
      allowlist_entry insecure raw >>= λ o. trusted_from insecure (o ∷ trusted) raws

  -- `self._issuer_origin`, with the checks of the issuer URL
  unfoldable pub issuer_origin : Config → Result NetworkError Origin
  issuer_origin c = do
    o ← parse_url c.issuer_url
    if not (o.scheme == "https" || c.allow_insecure_loopback)
        then err not_https
        else if has_query (urls.urlsplit c.issuer_url)
        then err query_in_issuer
        else origin o

  -- OidcNetworkSecurityPolicy.__init__
  unfoldable pub network_policy : Config → Result NetworkError Policy
  network_policy c =
      if not (is_positive c.dns_timeout)
        || not (is_positive c.http_timeout)
        || (eqb c.discovery_max_bytes 0 || eqb c.jwks_max_bytes 0)
      then err bad_limits
      else do
        issuer ← issuer_origin c
        trusted ← trusted_from c.allow_insecure_loopback (issuer ∷ []) c.jwks_allowed_origins
        ok (record {
          config = c;
          discovery_url =
              String.◌++◌ (rstrip (λ x. eqb x b'/') c.issuer_url)
                "/.well-known/openid-configuration";
          trusted_jwks_origins = trusted;
        })

  module _ (p : Policy) where
    unfoldable pub assert_jwks_uri_trusted : String → Result NetworkError (Unit {0})
    assert_jwks_uri_trusted url = do
      parsed ← parse_url url
      o ← origin parsed
      if is_trusted o p.trusted_jwks_origins then ok tt else err untrusted_origin

    unfoldable pub assert_metadata_trusted : String → String → Result NetworkError (Unit {0})
    assert_metadata_trusted issuer jwks_uri =
        if not (issuer == p.config.issuer_url)
        then err issuer_mismatch
        else assert_jwks_uri_trusted jwks_uri

    unfoldable pub request_kind : String → Result NetworkError RequestKind
    request_kind url =
        if url == p.discovery_url
        then ok discovery
        else assert_jwks_uri_trusted url >>= λ _. ok jwks

    abbrev pub limit_of : RequestKind → ℕ
    limit_of discovery = p.config.discovery_max_bytes
    limit_of jwks = p.config.jwks_max_bytes

    unfoldable pub response_limit_for : String → Result NetworkError ℕ
    response_limit_for url = request_kind url >>= λ kind. ok (limit_of kind)

pub record ResolvedTarget (Address : Type 0) : Type 0 where
  pub origin : Origin
  pub ip : Address
  pub kind : RequestKind

-- `resolver` is the resolver handed to the policy, on a world `W`.
module _ {W Address : Type 0} (urls : Urls Address)
    (resolver : String → ℕ → W → Result NetworkError (List Address) × W) (p : Policy) where
  abbrev pub addresses_of : Option Address → Origin → W → Result NetworkError (List Address) × W
  addresses_of (some literal) o w = (ok (literal ∷ []), w)
  addresses_of none o w = resolver o.host o.port w

  abbrev pub all_effective : (Address → Bool) → List Address → Bool
  all_effective test addresses = all (λ a. test (effective_address urls a)) addresses

  -- the end of `resolve`, on the addresses
  unfoldable pub pin :
      RequestKind → Origin → List Address → Result NetworkError (ResolvedTarget Address)
  pin kind o [] = err no_addresses
  pin kind o (a ∷ others) =
      if all_effective urls.is_loopback (a ∷ others) && p.config.allow_insecure_loopback
      then ok (record { origin = o; ip = a; kind = kind })
      else if not (o.scheme == "https")
      then err not_https
      else if not (all_effective urls.is_global (a ∷ others))
      then err non_global
      else ok (record { origin = o; ip = a; kind = kind })

  abbrev pub pin_parsed :
      RequestKind
      → Result NetworkError Origin
      → W
      → Result NetworkError (ResolvedTarget Address) × W
  pin_parsed kind (err e) w = (err e, w)
  pin_parsed kind (ok o) w =
      let (answer, w') = addresses_of (urls.ip_address o.host) o w in (answer >>= pin kind o, w')

  abbrev pub resolve_kind :
      String
      → Result NetworkError RequestKind
      → W
      → Result NetworkError (ResolvedTarget Address) × W
  resolve_kind url (err e) w = (err e, w)
  resolve_kind url (ok kind) w = pin_parsed kind (parse_url urls url) w

  -- OidcNetworkSecurityPolicy.resolve
  unfoldable pub resolve : String → W → Result NetworkError (ResolvedTarget Address) × W
  resolve url w = resolve_kind url (request_kind urls p url) w

-- `_BoundedAsyncByteStream.__aiter__`: the chunks that are yielded, and whether it raises.
unfoldable pub bounded_chunks : ℕ → ℕ → List Bytes → List Bytes × Bool
bounded_chunks limit total [] = ([], false)
bounded_chunks limit total (chunk ∷ chunks) =
    let total' = total + Text.length chunk in
    let (yielded, raised) = bounded_chunks limit total' chunks in
    if ltb limit total' then ([], true) else (chunk ∷ yielded, raised)
