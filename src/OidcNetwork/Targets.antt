-- ===== src/OidcNetwork/Targets.antt =====
-- Which address a request may be pinned to.
use mcp_server_auth_template.Base.{
  Exists, All, Bool, Bool-cases, List, Option-cases, String, [], all, ap, arith, eq_iff, eqb_iff,
  inl, inr, none, not, refl, some, sym, true, ℕ, ◌&&◌, ◌==◌, ◌∙◌, ◌∷◌, ◌≡◌, ◌≢◌, ◌⊎◌,
}
use mcp_server_auth_template.Base.Result.{>>=-eq-ok, Result, err, ok}
use mcp_server_auth_template.OidcNetwork.{
  origin, NetworkError, Origin, Policy, RequestKind, ResolvedTarget, Urls, addresses_of,
  all_effective, assert_jwks_uri_trusted, discovery, effective_address, is_trusted, jwks,
  normalize_host, parse_url, pin, pin_parsed, request_kind, resolve, resolve_kind, same_origin,
}
use mathlib.Core.Path.{subst}

-- The address passes the test, or the IPv4 address in it, if it is an IPv4-mapped IPv6 address.
abbrev pub Passes : {Address : Type 0} → Urls Address → (Address → Bool) → Address → Type 0
Passes {Address} urls test a =
    ((mapped : Address) × (urls.ipv4_mapped a ≡ some mapped) × (test mapped ≡ true))
    ⊎ ((urls.ipv4_mapped a ≡ none) × (test a ≡ true))

-- The origin is one of those that the policy trusts: scheme, host in its normal form, and port.
abbrev pub IsTrustedOrigin : {Address : Type 0} → Urls Address → Policy → Origin → Type 0
IsTrustedOrigin urls p o =
    (host : String) × (normalize_host urls o.host ≡ ok host)
    × Exists (λ (t : Origin). (t.scheme ≡ o.scheme) × (t.host ≡ host) × (t.port ≡ o.port))
        p.trusted_jwks_origins

-- What the URL is requested for: it is the discovery URL, or its origin is trusted.
abbrev pub IsFor :
    {Address : Type 0} → Urls Address → Policy → String → Origin → RequestKind → Type 0
IsFor urls p url o discovery = url ≡ p.discovery_url
IsFor urls p url o jwks = (url ≢ p.discovery_url) × IsTrustedOrigin urls p o

-- The addresses that the host stands for: itself, or what the resolver answers.
abbrev pub StandsFor :
    {W Address : Type 0}
    → Urls Address
    → (String → ℕ → W → Result NetworkError (List Address) × W)
    → Origin
    → W
    → List Address
    → Type 0
StandsFor {W} {Address} urls resolver o w answer =
    ((literal : Address) × (urls.ip_address o.host ≡ some literal) × (answer ≡ literal ∷ []))
    ⊎ ((urls.ip_address o.host ≡ none) × ((resolver o.host o.port w).0 ≡ ok answer))

-- Loopback addresses where they are allowed, or https and global addresses.
abbrev pub IsConfined : {Address : Type 0} → Urls Address → Policy → Origin → List Address → Type 0
IsConfined urls p o answer =
    ((p.config.allow_insecure_loopback ≡ true) × All (Passes urls urls.is_loopback) answer)
    ⊎ ((o.scheme ≡ "https") × All (Passes urls urls.is_global) answer)

-- What holds of the target that a request is sent to.
pub record IsPinned {W Address : Type 0} (urls : Urls Address)
    (resolver : String → ℕ → W → Result NetworkError (List Address) × W) (p : Policy) (url : String)
    (w : W) (target : ResolvedTarget Address) : Type 0 where
  pub parsed : parse_url urls url ≡ ok target.origin
  pub intended : IsFor urls p url target.origin target.kind
  pub others : List Address
  pub answered : StandsFor urls resolver target.origin w (target.ip ∷ others)
  pub confined : IsConfined urls p target.origin (target.ip ∷ others)

abbrev ok_of : Origin → Result NetworkError Origin
ok_of o = ok o

module _ {Address : Type 0} (urls : Urls Address) where
  effective_address-Passes :
      (test : Address → Bool) (a : Address)
      → test (effective_address urls a) ≡ true
      → Passes urls test a
  unfolding effective_address
  effective_address-Passes test a h = elim (Option-cases (urls.ipv4_mapped a)) [
    | inl plain ↦ inr (plain, rw (plain, effective_address) at h)
    | inr (m, mapped) ↦ inl (m, mapped, rw (mapped, effective_address) at h)
  ]

  all-Passes :
      (test : Address → Bool) (answer : List Address)
      → all (λ a. test (effective_address urls a)) answer ≡ true
      → All (Passes urls test) answer
  all-Passes test [] h = tt
  all-Passes test (a ∷ others) h =
      (effective_address-Passes test a (ground arith), all-Passes test others (ground arith))

  is_trusted-Exists :
      (o : Origin) (trusted : List Origin)
      → is_trusted o trusted ≡ true
      → Exists
          (λ (t : Origin). (t.scheme ≡ o.scheme) × (t.host ≡ o.host) × (t.port ≡ o.port))
          trusted
  unfolding is_trusted same_origin
  is_trusted-Exists o [] h = cc
  is_trusted-Exists o (t ∷ ts) h = elim (Bool-cases (same_origin t o)) [
    | inl same ↦ inl (
      (eq_iff t.scheme o.scheme).0 (ground arith),
      (eq_iff t.host o.host).0 (ground arith),
      (eqb_iff t.port o.port).0 (ground arith),
    )
    | inr other ↦ inr (is_trusted-Exists o ts (ground arith))
  ]

  module _ (p : Policy) (url : String) (o : Origin) (parsed : parse_url urls url ≡ ok o) where
    assert_jwks_uri_trusted-IsTrustedOrigin :
        assert_jwks_uri_trusted urls p url ≡ ok tt → IsTrustedOrigin urls p o
    unfolding assert_jwks_uri_trusted origin
    assert_jwks_uri_trusted-IsTrustedOrigin h =
        let (q, parsed_too, h1) = >>=-eq-ok (parse_url urls url) _ h in
        let same : q ≡ o = ok_origin q o (sym parsed_too ∙ parsed) in
        let (n, normal, h2) = >>=-eq-ok (origin urls q) _ h1 in
        let (host, named, made) = >>=-eq-ok (normalize_host urls q.host) _ normal in
        elim (Bool-cases (is_trusted n p.trusted_jwks_origins)) [
          | inl trusted ↦ subst (IsTrustedOrigin urls p) same (
            host,
            named,
            subst
                (λ (m : Origin).
                  Exists
                    (λ (t : Origin). (t.scheme ≡ m.scheme) × (t.host ≡ m.host) × (t.port ≡ m.port))
                    p.trusted_jwks_origins)
                (sym (ok_origin _ n made)) (is_trusted-Exists n p.trusted_jwks_origins trusted),
          )
          | inr stranger ↦ cc (rw stranger at h2)
        ]
      where
        ok_origin : (a b : Origin) → ok_of a ≡ ok_of b → a ≡ b
        ok_origin a b e = ground arith

    request_kind-IsFor :
        (kind : RequestKind) → request_kind urls p url ≡ ok kind → IsFor urls p url o kind
    unfolding request_kind
    request_kind-IsFor kind h = elim (Bool-cases (url == p.discovery_url)) [
      | inl same ↦
          let found : discovery ≡ kind = ground (arith, rw same at h) in
          subst (IsFor urls p url o) found ((eq_iff url p.discovery_url).0 same)
      | inr other ↦
          let (done, trusted, h1) =
            >>=-eq-ok (assert_jwks_uri_trusted urls p url) (λ _. ok jwks) (rw other at h) in
          let found : jwks ≡ kind = ground (arith, h1) in
          subst (IsFor urls p url o) found (
            λ e. (let same = (eq_iff url p.discovery_url).1 e in cc (same, other)),
            assert_jwks_uri_trusted-IsTrustedOrigin trusted,
          )
    ]

module _ {W Address : Type 0} (urls : Urls Address)
    (resolver : String → ℕ → W → Result NetworkError (List Address) × W) (p : Policy) where
  -- what `pin` leaves of the answer
  record Pins (kind : RequestKind) (o : Origin) (answer : List Address)
      (target : ResolvedTarget Address) : Type 0 where
    kind_kept : kind ≡ target.kind
    origin_kept : o ≡ target.origin
    others : List Address
    chosen : answer ≡ target.ip ∷ others
    confined : IsConfined urls p o answer

  pin-Pins :
      (kind : RequestKind) (o : Origin) (answer : List Address) (target : ResolvedTarget Address)
      → pin urls resolver p kind o answer ≡ ok target
      → Pins kind o answer target
  unfolding pin
  pin-Pins kind o [] target h = cc
  pin-Pins kind o (a ∷ others) target h =
      let local = all_effective urls resolver p urls.is_loopback (a ∷ others) in
      let public = all_effective urls resolver p urls.is_global (a ∷ others) in
      elim (Bool-cases (local && p.config.allow_insecure_loopback)) [
        | inl loopback ↦
            let h' = rw loopback at h in
            record {
              kind_kept = ground arith;
              origin_kept = ground arith;
              others = others;
              chosen = ground arith;
              confined =
                  inl (ground arith, all-Passes urls urls.is_loopback (a ∷ others) (ground arith));
            }
        | inr remote ↦ elim (Bool-cases (not (o.scheme == "https"))) [
          | inl bad ↦ cc (rw (remote, bad) at h)
          | inr https ↦ elim (Bool-cases (not public)) [
            | inl bad ↦ cc (rw (remote, https, bad) at h)
            | inr all_public ↦
                let h' = rw (remote, https, all_public) at h in
                record {
                  kind_kept = ground arith;
                  origin_kept = ground arith;
                  others = others;
                  chosen = ground arith;
                  confined = inr (
                    ground (arith, eq_iff o.scheme "https"),
                    all-Passes urls urls.is_global (a ∷ others) (ground arith),
                  );
                }
          ]
        ]
      ]

  addresses_of-StandsFor :
      (o : Origin) (w : W) (answer : List Address)
      → (addresses_of urls resolver p (urls.ip_address o.host) o w).0 ≡ ok answer
      → StandsFor urls resolver o w answer
  addresses_of-StandsFor o w answer h = elim (Option-cases (urls.ip_address o.host)) [
    | inl named ↦ inr (named, rw named at h)
    | inr (a, literal) ↦ let h' = rw literal at h in inl (a, literal, ground arith)
  ]

  module _ (url : String) (w : W) (target : ResolvedTarget Address) where
    abbrev answer_of : Origin → Result NetworkError (List Address)
    answer_of o = (addresses_of urls resolver p (urls.ip_address o.host) o w).0

    Pins-IsPinned :
        (kind : RequestKind) (o : Origin) (answer : List Address)
        → request_kind urls p url ≡ ok kind
        → parse_url urls url ≡ ok o
        → answer_of o ≡ ok answer
        → Pins kind o answer target
        → IsPinned urls resolver p url w target
    Pins-IsPinned kind o answer classified parsed answered pins = record {
      parsed = parsed ∙ ap ok pins.origin_kept;
      intended =
          subst (λ x. IsFor urls p url x target.kind) pins.origin_kept
            (request_kind-IsFor urls p url o parsed target.kind
              (classified ∙ ap ok pins.kind_kept));
      others = pins.others;
      answered =
          subst (λ x. StandsFor urls resolver x w (target.ip ∷ pins.others)) pins.origin_kept
            (subst (StandsFor urls resolver o w) pins.chosen
              (addresses_of-StandsFor o w answer answered));
      confined =
          subst (λ x. IsConfined urls p x (target.ip ∷ pins.others)) pins.origin_kept
            (subst (IsConfined urls p o) pins.chosen pins.confined);
    }

    from_origin :
        (kind : RequestKind) (parse : Result NetworkError Origin)
        → request_kind urls p url ≡ ok kind
        → parse_url urls url ≡ parse
        → (pin_parsed urls resolver p kind parse w).0 ≡ ok target
        → IsPinned urls resolver p url w target
    from_origin kind (err e) classified parsed h = cc
    from_origin kind (ok o) classified parsed h =
        let (answer, answered, pinned) = >>=-eq-ok (answer_of o) (pin urls resolver p kind o) h in
        Pins-IsPinned kind o answer classified parsed answered
          (pin-Pins kind o answer target pinned)

    from_kind :
        (kind : Result NetworkError RequestKind)
        → request_kind urls p url ≡ kind
        → (resolve_kind urls resolver p url kind w).0 ≡ ok target
        → IsPinned urls resolver p url w target
    from_kind (err e) classified h = cc
    from_kind (ok kind) classified h = from_origin kind (parse_url urls url) classified refl h

-- A URL resolves to a target only for the discovery document, as its exact URL, or for keys, as one
-- whose scheme, host in normal form and port are those of a trusted origin; the target has the origin
-- of the URL and the first of the addresses that its host stands for, itself or what the resolver
-- answers; and either each of them is loopback and insecure loopback is allowed, or the scheme is
-- https and each of them is global, an IPv4-mapped IPv6 address counting as the IPv4 address in it.
pub resolve-IsPinned :
    {W Address : Type 0} (urls : Urls Address)
    (resolver : String → ℕ → W → Result NetworkError (List Address) × W) (p : Policy) (url : String)
    (w : W) (target : ResolvedTarget Address)
    → (resolve urls resolver p url w).0 ≡ ok target
    → IsPinned urls resolver p url w target
unfolding resolve
resolve-IsPinned urls resolver p url w target h = from_kind urls resolver p url w target _ refl h
