-- ===== src/OidcNetwork/Requests/Laws.antt =====
-- What is sent and what is accepted, and the bound on the pools.
use mcp_server_auth_template.Base.{
  [], Bool-cases, Option-cases, String, ap, arith, eq_iff, inl, inr, leb, ltb, none, not, refl,
  some, true, ℕ, ◌&&◌, ◌<◌, ◌==◌, ◌∙◌, ◌∷◌, ◌≡◌, ◌≢◌, ◌≤◌, ◌⊎◌, Option, length,
}
use mcp_server_auth_template.OidcJson.{checked}
use mcp_server_auth_template.OidcNetwork.{
  NetworkError, Origin, ResolvedTarget, carries_credentials, not_get, origin, response_limit_for,
}
use mathlib.Core.Path.{subst}
use mcp_server_auth_template.Base.Result.{>>=-eq-ok, Result, err, ok}
use mcp_server_auth_template.Base.Sets.{contains}
use mcp_server_auth_template.Base.Value.{lookup}
use mcp_server_auth_template.OidcNetwork.Requests.{
  Accepted, Network, NetworkResponse, Pool, Request, blocked_event, check_response, child_for,
  child_or_new, encoding_of, failed, handle_request, has_credentials, length_checked, length_error,
  transport_at, transport_for, resolved, sent,
}

module _ {W Address Child : Type 0} (net : Network W Address Child) where
  child_or_new-le :
      (key : Origin) (found : Option Child) (pool : Pool net) (w : W)
      → length pool ≤ net.max_hosts
      → length (child_or_new net key found pool w).1 ≤ net.max_hosts
  child_or_new-le key (some child) pool w h = h
  child_or_new-le key none pool w h = elim (Bool-cases (leb net.max_hosts (length pool))) [
    | inl full ↦ rw full h
    | inr room ↦ rw room (ground arith)
  ]

  transport_at-le :
      (key : Result NetworkError Origin) (pool : Pool net) (w : W)
      → length pool ≤ net.max_hosts
      → length (transport_at net key pool w).1 ≤ net.max_hosts
  transport_at-le (err e) pool w h = h
  transport_at-le (ok key) pool w h = child_or_new-le key (child_for net key pool) pool w h

  sent-le :
      (request : Request) (target : ResolvedTarget Address)
      (k : Result NetworkError Child × Pool net × W)
      → length k.1 ≤ net.max_hosts
      → length (sent net request target k).pool ≤ net.max_hosts
  sent-le request target (err e, pool, w) h = h
  sent-le request target (ok child, pool, w) h = h

  resolved-le :
      (request : Request) (pool : Pool net) (t : Result NetworkError (ResolvedTarget Address) × W)
      → length pool ≤ net.max_hosts
      → length (resolved net request pool t).pool ≤ net.max_hosts
  unfolding transport_for
  resolved-le request pool (err e, w) h = h
  resolved-le request pool (ok target, w) h =
      sent-le request target _ (transport_at-le (origin net.urls target.origin) pool w h)

  -- A response is passed on only if it is no redirect and not compressed, its declared length, if it
  -- has one, is a number within the limit, and its body is read under the limit for the URL.
  check_response-eq-ok :
      (url : String) (r : NetworkResponse) (a : Accepted)
      → check_response net url r ≡ ok a
      → (response_limit_for net.urls net.policy url ≡ ok a.limit)
        × ((r.status < 300) ⊎ (400 ≤ r.status))
        × (contains (encoding_of (lookup "content-encoding" r.headers)) ("" ∷ "identity" ∷ [])
            ≡ true)
        × ((text : String)
            → lookup "content-length" r.headers ≡ some text
            → length_error a.limit (net.read_int text) ≡ none)
        × (a.response ≡ r)
  unfolding check_response
  check_response-eq-ok url r a h = elim (Bool-cases (leb 300 r.status && ltb r.status 400)) [
    | inl bad ↦ cc (rw bad at h)
    | inr good ↦
        elim (Bool-cases (
          not (
            contains (encoding_of (lookup "content-encoding" r.headers)) ("" ∷ "identity" ∷ [])))) [
              | inl bad ↦ cc (rw (good, bad) at h)
              | inr plain ↦
                  let (limit, limited, checked) =
                    >>=-eq-ok (response_limit_for net.urls net.policy url)
                      (λ limit. length_checked net r limit (lookup "content-length" r.headers))
                      (rw (good, plain) at h) in
                  let (same, kept, declared) =
                    length_checked-eq-ok limit r (lookup "content-length" r.headers) checked in
                  (limited ∙ ap ok same, ground arith, ground arith, declared, kept)
            ]
  ]
    where
      length_checked-eq-ok :
          (limit : ℕ) (r : NetworkResponse) (text : Option String)
          → length_checked net r limit text ≡ ok a
          → (limit ≡ a.limit)
            × (a.response ≡ r)
            × ((t : String) → text ≡ some t → length_error a.limit (net.read_int t) ≡ none)
      length_checked-eq-ok limit r none e = (ground arith, ground arith, λ t none_given. cc)
      length_checked-eq-ok limit r (some text) e =
          elim (Option-cases (length_error limit (net.read_int text))) [
            | inl fine ↦
                let e' = rw (fine, length_checked) at e in
                let same : limit ≡ a.limit = ground arith in
                (
                  same,
                  ground arith,
                  λ t given.
                      let read : text ≡ t = ground arith in
                      subst (λ n. length_error n (net.read_int t) ≡ none) same
                        (subst (λ x. length_error limit (net.read_int x) ≡ none) read fine),
                )
            | inr (x, bad) ↦ cc (rw (bad, length_checked) at e)
          ]

-- Whatever happens to a request, there are no more pools of connections than the limit on hosts; a
-- request that is not a GET, or that carries a credential header, leaves the network and the pools
-- untouched and raises, in the second case with one audit event.
pub handle_request_refuses :
    {W Address Child : Type 0} (net : Network W Address Child) (request : Request) (pool : Pool net)
    (w : W)
    → length pool ≤ net.max_hosts
    → (length (handle_request net request pool w).pool ≤ net.max_hosts)
      × (request.method ≢ "GET" → handle_request net request pool w ≡ failed net not_get pool w)
      × (request.method ≡ "GET"
          → has_credentials request.headers ≡ true
          → handle_request net request pool w ≡ record {
            result = err carries_credentials;
            pool = pool;
            world = w;
            events = blocked_event ∷ [];
          })
unfolding handle_request
handle_request_refuses net request pool w h = elim (Bool-cases (request.method == "GET")) [
  | inr other_method ↦
      rw other_method (h, λ n. refl, λ e. cc (other_method, (eq_iff request.method "GET").1 e))
  | inl get_method ↦ elim (Bool-cases (has_credentials request.headers)) [
    | inl secret ↦
        rw (get_method, secret)
          (h, λ n. absurd (n ((eq_iff request.method "GET").0 get_method)), λ e c. refl)
    | inr clean ↦
        rw (get_method, clean)
          (
            resolved-le net request pool _ h,
            λ n. absurd (n ((eq_iff request.method "GET").0 get_method)),
            λ e c. cc,
          )
  ]
]
