-- ===== src/OidcNetwork/Pinned.antt =====
-- Which origins a policy trusts.
use mcp_server_auth_template.OidcNetwork.{
  is_positive, Config, Origin, Policy, Urls, allowlist_entry, has_path, has_query, issuer_origin,
  network_policy, normalize_host, origin, parse_url, trusted_from,
}
use mcp_server_auth_template.Base.{
  All, Bool, Bool-cases, List, String, [], arith, eq_iff, eqb, false, inl, inr, not, ◌<◌, ◌==◌,
  ◌||◌, ◌∙◌, ◌∷◌, ◌≡◌,
}
use mcp_server_auth_template.Base.Result.{>>=-eq-ok, ok}
use mathlib.Core.Path.{subst}

module _ {Address : Type 0} (urls : Urls Address) where
  abbrev IsHttps : Bool → Origin → Type 0
  IsHttps insecure o = insecure ≡ false → o.scheme ≡ "https"

  origin-scheme : (o n : Origin) → origin urls o ≡ ok n → n.scheme ≡ o.scheme
  unfolding origin
  origin-scheme o n h =
      let (host, _, made) =
        >>=-eq-ok (normalize_host urls o.host)
          (λ host. ok (record { scheme = o.scheme; host = host; port = o.port })) h in
      ground arith

  secured :
      (insecure : Bool) (o : Origin)
      → not (o.scheme == "https" || insecure) ≡ false
      → IsHttps insecure o
  secured insecure o h off = ground (arith, eq_iff o.scheme "https")

  allowlist_entry-IsHttps :
      (insecure : Bool) (raw : String) (n : Origin)
      → allowlist_entry urls insecure raw ≡ ok n
      → IsHttps insecure n
  unfolding allowlist_entry
  allowlist_entry-IsHttps insecure raw n h off =
      let (o, parsed, checked) = >>=-eq-ok (parse_url urls raw) _ h in
      elim (Bool-cases (has_path urls (urls.urlsplit raw) || has_query urls (urls.urlsplit raw))) [
        | inl bad ↦ cc (rw bad at checked)
        | inr plain ↦ elim (Bool-cases (not (o.scheme == "https" || insecure))) [
          | inl bad ↦ cc (rw (plain, bad) at checked)
          | inr good ↦ origin-scheme o n (rw (plain, good) at checked) ∙ secured insecure o good off
        ]
      ]

  trusted_from-IsHttps :
      (insecure : Bool) (raws : List String) (trusted found : List Origin)
      → All (IsHttps insecure) trusted
      → trusted_from urls insecure trusted raws ≡ ok found
      → All (IsHttps insecure) found
  unfolding trusted_from
  trusted_from-IsHttps insecure [] trusted found start h =
      let same : trusted ≡ found = ground arith in subst (All (IsHttps insecure)) same start
  trusted_from-IsHttps insecure (raw ∷ raws) trusted found start h =
      let (o, entry, more) =
        >>=-eq-ok (allowlist_entry urls insecure raw)
          (λ o. trusted_from urls insecure (o ∷ trusted) raws) h in
      trusted_from-IsHttps insecure raws (o ∷ trusted) found
        (allowlist_entry-IsHttps insecure raw o entry, start) more

  issuer_origin-IsHttps :
      (c : Config) (n : Origin) → issuer_origin urls c ≡ ok n → IsHttps c.allow_insecure_loopback n
  unfolding issuer_origin
  issuer_origin-IsHttps c n h off =
      let (o, parsed, checked) = >>=-eq-ok (parse_url urls c.issuer_url) _ h in
      elim (Bool-cases (not (o.scheme == "https" || c.allow_insecure_loopback))) [
        | inl bad ↦ cc (rw bad at checked)
        | inr good ↦ elim (Bool-cases (has_query urls (urls.urlsplit c.issuer_url))) [
          | inl bad ↦ cc (rw (good, bad) at checked)
          | inr plain ↦
              origin-scheme o n (rw (good, plain) at checked)
              ∙ secured c.allow_insecure_loopback o good off
        ]
      ]

-- A policy can be built only with positive limits, it keeps its arguments, and unless insecure
-- loopback is allowed, every origin that it trusts has the scheme https.
pub network_policy-IsHttps :
    {Address : Type 0} (urls : Urls Address) (c : Config) (p : Policy)
    → network_policy urls c ≡ ok p
    → (p.config ≡ c)
      × (0 < c.discovery_max_bytes)
      × (0 < c.jwks_max_bytes)
      × (c.allow_insecure_loopback ≡ false → All (λ o. o.scheme ≡ "https") p.trusted_jwks_origins)
unfolding network_policy
network_policy-IsHttps urls c p h =
    elim (Bool-cases (
      not (is_positive c.dns_timeout)
      || not (is_positive c.http_timeout)
      || (eqb c.discovery_max_bytes 0 || eqb c.jwks_max_bytes 0))) [
        | inl bad ↦ cc (rw bad at h)
        | inr good ↦
            let (issuer, rooted, more) = >>=-eq-ok (issuer_origin urls c) _ (rw good at h) in
            let (trusted, listed, made) =
              >>=-eq-ok
                (trusted_from urls c.allow_insecure_loopback (issuer ∷ []) c.jwks_allowed_origins) _
                more in
            let origins : trusted ≡ p.trusted_jwks_origins = ground arith in
            (
              ground arith,
              ground arith,
              ground arith,
              λ off. subst (All (λ (o : Origin). o.scheme ≡ "https")) origins (
                  all_https trusted off (
                    trusted_from-IsHttps urls c.allow_insecure_loopback c.jwks_allowed_origins
                      (issuer ∷ []) trusted (issuer_origin-IsHttps urls c issuer rooted, tt)
                      listed)),
            )
      ]
  where
    all_https :
        (os : List Origin)
        → c.allow_insecure_loopback ≡ false
        → All (λ (o : Origin). c.allow_insecure_loopback ≡ false → o.scheme ≡ "https") os
        → All (λ (o : Origin). o.scheme ≡ "https") os
    all_https [] off h = tt
    all_https (o ∷ os) off (first, h) = (first off, all_https os off h)
