-- ===== src/Server/Security/Laws.antt =====
-- Which Host and Origin values the server accepts.
use mcp_server_auth_template.Base.{
  eqb_iff, if◌then◌else◌, ◌≢◌, ◌⊎◌, sym, ◌↔◌, Bool-cases, List, Option, String, [], arith, eq_iff,
  eqb, false, inl, inr, keep, none, not, refl, some, true, ℕ, ◌&&◌, ◌++◌, ◌==◌, ◌||◌, ◌∙◌, ◌∷◌, ◌≡◌,
}
use mcp_server_auth_template.Base.Text.{has_infix, split, decimal}
use Prim.Native.String
use mcp_server_auth_template.Server.Security.{
  build_transport_security, wire_host, Authority, TransportSecurity, authority_for, deduplicate,
  default_port_of, transport_authority,
}
use mcp_server_auth_template.Settings.{UrlParts, Python, Settings}
use mcp_server_auth_template.Base.Result.{ok}
use mcp_server_auth_template.Base.Sets.{contains}
use mcp_server_auth_template.Base.Sets.Laws.{IsUnique, contains-append}

contains-keep_other :
    (a x : String) (ys : List String)
    → contains a (keep (λ y. not (y == x)) ys) ≡ (contains a ys && not (x == a))
unfolding contains keep
contains-keep_other a x [] = refl
contains-keep_other a x (y ∷ ys) =
    ground (arith, contains-keep_other a x ys, eq_iff y x, eq_iff y a, eq_iff x a)

contains-deduplicate : (a : String) (xs : List String) → contains a (deduplicate xs) ≡ contains a xs
unfolding contains deduplicate
contains-deduplicate a [] = refl
contains-deduplicate a (x ∷ xs) =
    ground (arith, contains-keep_other a x (deduplicate xs), contains-deduplicate a xs)

keep-IsUnique :
    (x : String) (ys : List String) → IsUnique ys → IsUnique (keep (λ y. not (y == x)) ys)
unfolding keep
keep-IsUnique x [] h = tt
keep-IsUnique x (y ∷ ys) (m, h) = elim (Bool-cases (y == x)) [
  | inl same ↦ rw same (keep-IsUnique x ys h)
  | inr other ↦ rw other (ground (arith, contains-keep_other y x ys), keep-IsUnique x ys h)
]

deduplicate-IsUnique : (xs : List String) → IsUnique (deduplicate xs)
unfolding deduplicate
deduplicate-IsUnique [] = tt
deduplicate-IsUnique (x ∷ xs) = (
  ground (arith, contains-keep_other x x (deduplicate xs), eq_iff x x),
  keep-IsUnique x (deduplicate xs) (deduplicate-IsUnique xs),
)

-- The values that `xs` lists and those of `ys`, each once.
abbrev pub IsUnion : List String → List String → List String → Type 0
IsUnion xs ys zs = ((a : String) → contains a zs ≡ (contains a xs || contains a ys)) × IsUnique zs

deduplicate-IsUnion : (xs ys : List String) → IsUnion xs ys (deduplicate (xs ++ ys))
deduplicate-IsUnion xs ys = (
  λ a. contains-deduplicate a (xs ++ ys) ∙ contains-append a xs ys,
  deduplicate-IsUnique (xs ++ ys),
)

-- The port that a client connects to without one in the URL: 443 for https, and 80 otherwise.
abbrev pub standard_port : String → ℕ
standard_port scheme = if scheme == "https" then 443 else 80

abbrev pub effective_port : String → Option ℕ → ℕ
effective_port scheme none = standard_port scheme
effective_port scheme (some port) = port

-- The URL's host and its origin with the port in force.
abbrev pub host_and_port : String → String → Option ℕ → String
host_and_port scheme host port =
    String.◌++◌ host (String.◌++◌ ":" (decimal (effective_port scheme port)))

abbrev pub origin_of : String → String → String
origin_of scheme host = String.◌++◌ scheme (String.◌++◌ "://" host)

-- The hosts are the one with the port in force and, where that port is the standard one, the bare
-- one; the origins are the one with the port, where the URL spells it, and the bare one, where the
-- port is the standard one.
pub record IsAuthority (scheme host : String) (port : Option ℕ) (a : Authority) : Type 0 where
  pub hosts_iff :
      (x : String)
      → (contains x a.hosts ≡ true) ↔ (
          (x ≡ host_and_port scheme host port)
          ⊎ ((effective_port scheme port ≡ standard_port scheme) × (x ≡ host)))
  pub origins_iff :
      (x : String)
      → (contains x a.origins ≡ true) ↔ (
          ((port ≢ none) × (x ≡ origin_of scheme (host_and_port scheme host port)))
          ⊎ ((effective_port scheme port ≡ standard_port scheme) × (x ≡ origin_of scheme host)))

listed_one : (x y : String) → (contains x (y ∷ []) ≡ true) ↔ (x ≡ y)
unfolding contains
listed_one x y =
    (λ h. sym ((eq_iff y x).0 (ground arith)), λ e. ground (arith, (eq_iff y x).1 (sym e)))

listed_two : (x y z : String) → (contains x (y ∷ z ∷ []) ≡ true) ↔ ((x ≡ y) ⊎ (x ≡ z))
unfolding contains
listed_two x y z = (
  λ h. elim (Bool-cases (y == x)) [
    | inl first ↦ inl (sym ((eq_iff y x).0 first))
    | inr second ↦ inr (sym ((eq_iff z x).0 (ground arith)))
  ],
  λ e. elim e [
    | inl first ↦ ground (arith, (eq_iff y x).1 (sym first))
    | inr second ↦ ground (arith, (eq_iff z x).1 (sym second))
  ],
)

authority_for-IsAuthority :
    (scheme host : String) (port : Option ℕ)
    → IsAuthority scheme host port (authority_for scheme host port)
unfolding authority_for
authority_for-IsAuthority scheme host none =
    let shown = host_and_port scheme host none in
    record {
      hosts_iff = λ x. (
        λ h. elim ((listed_two x host shown).0 h) [
          | inl bare ↦ inr (refl, bare)
          | inr with_port ↦ inl with_port
        ],
        λ e.
            (listed_two x host shown).1
              (elim e [ inl with_port ↦ inr with_port | inr (standard, bare) ↦ inl bare ]),
      );
      origins_iff = λ x. (
        λ h. inr (refl, (listed_one x (origin_of scheme host)).0 h),
        λ e. (listed_one x (origin_of scheme host)).1 (elim e [
          | inl (spelled, with_port) ↦ absurd (spelled refl)
          | inr (standard, bare) ↦ bare
        ]),
      );
    }
authority_for-IsAuthority scheme host (some port) =
    let shown = host_and_port scheme host (some port) in
    elim (Bool-cases (eqb port (default_port_of scheme))) [
      | inl default ↦
          let standard : port ≡ standard_port scheme =
            (eqb_iff port (standard_port scheme)).0 default in
          rw default (record {
            hosts_iff = λ x. (
              λ h. elim ((listed_two x host shown).0 h) [
                | inl bare ↦ inr (standard, bare)
                | inr with_port ↦ inl with_port
              ],
              λ e.
                  (listed_two x host shown).1
                    (elim e [ inl with_port ↦ inr with_port | inr (_, bare) ↦ inl bare ]),
            );
            origins_iff = λ x. (
              λ h. elim ((listed_two x (origin_of scheme host) (origin_of scheme shown)).0 h) [
                | inl bare ↦ inr (standard, bare)
                | inr with_port ↦ inl (spelled port, with_port)
              ],
              λ e.
                  (listed_two x (origin_of scheme host) (origin_of scheme shown)).1
                    (elim e [ inl (_, with_port) ↦ inr with_port | inr (_, bare) ↦ inl bare ]),
            );
          })
      | inr special ↦
          let other : port ≢ standard_port scheme =
            λ e. (let same = (eqb_iff port (standard_port scheme)).1 e in cc (same, special)) in
          rw special (record {
            hosts_iff = λ x. (
              λ h. inl ((listed_one x shown).0 h),
              λ e. (listed_one x shown).1 (elim e [
                | inl with_port ↦ with_port
                | inr (standard, bare) ↦ absurd (other standard)
              ]),
            );
            origins_iff = λ x. (
              λ h. inl (spelled port, (listed_one x (origin_of scheme shown)).0 h),
              λ e. (listed_one x (origin_of scheme shown)).1 (elim e [
                | inl (_, with_port) ↦ with_port
                | inr (standard, bare) ↦ absurd (other standard)
              ]),
            );
          })
    ]
  where
    spelled : (n : ℕ) → some n ≢ none
    spelled n e = cc

-- The host as a Host header shows it: an IPv6 address, which has a colon, in brackets.
pub record IsShown (host shown : String) : Type 0 where
  pub bracketed : has_infix ":" host ≡ true → shown ≡ String.◌++◌ "[" (String.◌++◌ host "]")
  pub plain : has_infix ":" host ≡ false → shown ≡ host

wire_host-IsShown : (host : String) → IsShown host (wire_host host)
wire_host-IsShown host = record { bracketed = λ h. rw h refl; plain = λ h. rw h refl }

-- The allowlists hold the values that stand for the public URL and the configured ones, each once.
pub record IsProtected (s : Settings) (scheme host : String) (port : Option ℕ)
    (security : TransportSecurity) : Type 0 where
  pub authority : Authority
  pub wire : String
  pub shown : IsShown host wire
  pub shape : IsAuthority scheme wire port authority
  pub hosts : IsUnion authority.hosts s.transport_allowed_hosts security.allowed_hosts
  pub origins : IsUnion authority.origins s.transport_allowed_origins security.allowed_origins

module _ {Address : Type 0} (py : Python Address) (s : Settings) (u : UrlParts) (host : String)
    (port : Option ℕ) where
  transport_authority-parts :
      py.urlsplit s.resource_server_url ≡ some u
      → u.hostname ≡ some host
      → u.port ≡ some port
      → transport_authority py s ≡ ok (authority_for u.scheme (wire_host host) port)
  unfolding transport_authority
  transport_authority-parts split named read = rw (split, named, read) refl

  protected :
      transport_authority py s ≡ ok (authority_for u.scheme (wire_host host) port)
      → (security : TransportSecurity) × (build_transport_security py s ≡ ok security)
        × IsProtected s u.scheme host port security
  unfolding build_transport_security
  protected derived = (
    _,
    rw derived refl,
    record {
      authority = authority_for u.scheme (wire_host host) port;
      wire = wire_host host;
      shown = wire_host-IsShown host;
      shape = authority_for-IsAuthority u.scheme (wire_host host) port;
      hosts =
          deduplicate-IsUnion (authority_for u.scheme (wire_host host) port).hosts
            s.transport_allowed_hosts;
      origins =
          deduplicate-IsUnion (authority_for u.scheme (wire_host host) port).origins
            s.transport_allowed_origins;
    },
  )

-- For a public URL with a host and a port that can be read, the allowlists are built; they hold,
-- each once, the configured values and those of the URL, and no others. The URL's hosts are its host
-- with the port in force, an IPv6 address in brackets, and, exactly where that port is the standard
-- one of the scheme, the host without it; its origins are the one with the port, exactly where the
-- URL spells the port, and the one without it, exactly where the port is the standard one.
pub build_transport_security_exists :
    {Address : Type 0} (py : Python Address) (s : Settings) (u : UrlParts) (host : String)
    (port : Option ℕ)
    → py.urlsplit s.resource_server_url ≡ some u
    → u.hostname ≡ some host
    → u.port ≡ some port
    → (security : TransportSecurity) × (build_transport_security py s ≡ ok security)
      × IsProtected s u.scheme host port security
build_transport_security_exists py s u host port split named read =
    protected py s u host port (transport_authority-parts py s u host port split named read)
