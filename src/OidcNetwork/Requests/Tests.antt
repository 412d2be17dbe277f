-- ===== src/OidcNetwork/Requests/Tests.antt =====
-- A network of one child that answers every request by the same response.
use mcp_server_auth_template.Base.{
  String, [], arith, false, none, some, suc, true, ℕ, ◌∷◌, ◌≡◌, ◌≢◌, ◌≤◌, Option, length,
}
use mcp_server_auth_template.Base.Result.{err, ok}
use mcp_server_auth_template.Base.Value.{pos}
use mcp_server_auth_template.OidcNetwork.{SplitUrl, Urls, carries_credentials, not_get}
use mcp_server_auth_template.OidcNetwork.Requests.{
  Network, NetworkResponse, Request, blocked_event, failed, handle_request, has_credentials,
}
use mcp_server_auth_template.OidcNetwork.Requests.Laws.{handle_request_refuses}

abbrev split_known : String → Option SplitUrl
split_known url = some (record {
  scheme = "https";
  hostname = some "idp";
  port = none;
  with_userinfo = false;
  path = "/keys";
  query = "";
  fragment = "";
})

abbrev known : Urls ℕ
known = record {
  urlsplit = split_known;
  idna = λ host. some host;
  ip_address = λ host. none;
  is_loopback = λ a. false;
  is_global = λ a. true;
  ipv4_mapped = λ a. none;
}

abbrev plain_response : NetworkResponse
plain_response = record { status = 200; headers = ("content-length", "2") ∷ []; chunks = "{}" ∷ [] }

abbrev network : Network ℕ ℕ ℕ
network = record {
  urls = known;
  resolver = λ host port n. (ok (80 ∷ []), n);
  policy = record {
    config = record {
      issuer_url = "https://idp";
      allow_insecure_loopback = false;
      jwks_allowed_origins = [];
      dns_timeout = pos 2;
      http_timeout = pos 5;
      discovery_max_bytes = 100;
      jwks_max_bytes = 200;
    };
    discovery_url = "https://idp/.well-known/openid-configuration";
    trusted_jwks_origins = record { scheme = "https"; host = "idp"; port = 443 } ∷ [];
  };
  max_hosts = 1;
  make_child = λ n. (n, suc n);
  send = λ child request n. (ok plain_response, suc n);
  host_header = λ o. o.host;
  read_int = λ text. some (pos 2);
}

abbrev leaking : Request
leaking = record {
  method = "GET";
  url = "https://idp/keys";
  headers = ("authorization", "Bearer t") ∷ [];
}

handle_request_refuses_example :
    (length (handle_request network leaking [] 0).pool ≤ 1)
    × (leaking.method ≢ "GET" → handle_request network leaking [] 0 ≡ failed network not_get [] 0)
    × (leaking.method ≡ "GET"
        → has_credentials leaking.headers ≡ true
        → handle_request network leaking [] 0 ≡ record {
          result = err carries_credentials;
          pool = [];
          world = 0;
          events = blocked_event ∷ [];
        })
handle_request_refuses_example = handle_request_refuses network leaking [] 0 (omega arith)
