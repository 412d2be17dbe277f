-- ===== src/Discovery/Samples.antt =====
-- A client with an empty cache that keeps everything, and a server with one discovery document.
use mcp_server_auth_template.Base.{
  if◌then◌else◌, [], String, arith, eq_iff, false, none, refl, some, suc, true, ℕ, ◌∷◌, ◌≡◌, ◌⊎◌,
  Option,
}
use mcp_server_auth_template.Base.Value.{
  Dict, pos, Value, end, field, lookup, lookup-store_if, obj, store, str,
}
use mcp_server_auth_template.Base.Text.{starts_with}
use mcp_server_auth_template.Discovery.{OidcMetadata}
use mcp_server_auth_template.Http.{Bytes}
use mcp_server_auth_template.OidcNetwork.{Policy, SplitUrl, Urls}
use mcp_server_auth_template.Jwks.{TtlCache}
use mcp_server_auth_template.Jwks.Resolver.{HttpResponse}

abbrev pub split_known : String → Option SplitUrl
split_known url =
    if starts_with url "https://idp"
    then some (record {
      scheme = "https";
      hostname = some "idp";
      port = none;
      with_userinfo = false;
      path = "/keys";
      query = "";
      fragment = "";
    })
    else none

abbrev pub known : Urls ℕ
known = record {
  urlsplit = split_known;
  idna = λ host. some host;
  ip_address = λ host. none;
  is_loopback = λ a. false;
  is_global = λ a. true;
  ipv4_mapped = λ a. none;
}

abbrev pub policy : Policy
policy = record {
  config = record {
    issuer_url = "https://idp";
    allow_insecure_loopback = false;
    jwks_allowed_origins = [];
    dns_timeout = pos 2;
    http_timeout = pos 5;
    discovery_max_bytes = 100;
    jwks_max_bytes = 200;
  };
  discovery_url = "https://idp/.well-known/openid-configuration";
  trusted_jwks_origins = record { scheme = "https"; host = "idp"; port = 443 } ∷ [];
}

abbrev pub counting_get : String → ℕ → Option HttpResponse × ℕ
counting_get url n = (
  some (record {
    status_ok = true;
    content_type = "Application/JSON; charset=utf-8";
    content = "{}";
  }),
  suc n,
)

abbrev pub loads_one : Bytes → Option Value
loads_one content =
    some (obj (field "issuer" (str "https://idp") (field "jwks_uri" (str "https://idp/keys") end)))

-- The last entry that was put, under every key that it was put with.
abbrev pub MetadataCache : Type 0
MetadataCache = Dict OidcMetadata

pub lookup-store_inv :
    (j k : String) (v w : OidcMetadata) (d : MetadataCache)
    → lookup j (store k v d) ≡ some w
    → ((j ≡ k) × (w ≡ v)) ⊎ (lookup j d ≡ some w)
lookup-store_inv j k v w d h = ground (arith, lookup-store_if j k v d, eq_iff k j)

pub lookup-nil : (k : String) → lookup {V = OidcMetadata} k [] ≡ none
unfolding lookup
lookup-nil k = refl

abbrev pub keep_all : TtlCache OidcMetadata
keep_all = record {
  Cache = MetadataCache;
  empty = [];
  cached = λ k t c. lookup k c;
  put = λ k v t c. store k v c;
  cached-empty = λ k t. lookup-nil k;
  cached-put = λ j k v w s t c h. lookup-store_inv j k v w c h;
}
