-- ===== src/Transport/Envelope.antt =====
-- _validate_envelope against the limits that it stands for.
use mcp_server_auth_template.Base.{
  ℕ, ◌+◌, ◌≤◌, Bool, true, false, ◌&&◌, ◌||◌, none, List, [], ◌∷◌, ◌==◌, length, if◌then◌else◌, ◌≡◌,
  ◌↔◌, arith, eq_iff, Bool-cases, inl, inr,
}
use mcp_server_auth_template.Base.Sets.{contains}
use mcp_server_auth_template.Http.{Bytes, Header, lower}
use mcp_server_auth_template.Transport.{
  is_critical, Limits, total_bytes, scan_headers, validate_envelope,
}

-- How many headers have a name, up to the case of letters.
abbrev pub occurrences : Bytes → List Header → ℕ
occurrences n [] = 0
occurrences n ((raw_name, _) ∷ headers) =
    (if lower raw_name == n then 1 else 0) + occurrences n headers

abbrev pub has_header : Bytes → List Header → Bool
has_header n [] = false
has_header n ((raw_name, _) ∷ headers) = lower raw_name == n || has_header n headers

abbrev one_if : Bool → ℕ
one_if true = 1
one_if false = 0

-- What a scan that goes on from the names `seen` and the two flags accepts.
record Accepts (seen : List Bytes) (cl te : Bool) (headers : List Header) : Type 0 where
  single : (n : Bytes) → is_critical n ≡ true → one_if (contains n seen) + occurrences n headers ≤ 1
  framing :
      ((cl || has_header "content-length" headers)
        && (te || has_header "transfer-encoding" headers))
      ≡ false

module _ (seen : List Bytes) (cl te : Bool) (raw value : Bytes) (headers : List Header) where
  abbrev name : Bytes
  name = lower raw

  abbrev seen' : List Bytes
  seen' = if is_critical name then name ∷ seen else seen

  abbrev Rest : Type 0
  Rest = Accepts seen' (cl || name == "content-length") (te || name == "transfer-encoding") headers

  single-cons :
      (n : Bytes)
      → (is_critical name && contains name seen) ≡ false
      → Rest
      → is_critical n ≡ true
      → one_if (contains n seen) + occurrences n ((raw, value) ∷ headers) ≤ 1
  unfolding contains
  single-cons n fresh rest critical = elim (Bool-cases (name == n)) [
    | inl same ↦
        let e : name ≡ n = (eq_iff name n).0 same in
        ground (arith, rest.single n critical, e, eq_iff name n, same)
    | inr other ↦ ground (arith, rest.single n critical, eq_iff name n, other)
  ]

  framing-cons :
      Rest
      → ((cl || has_header "content-length" ((raw, value) ∷ headers))
          && (te || has_header "transfer-encoding" ((raw, value) ∷ headers)))
        ≡ false
  framing-cons rest = ground (arith, rest.framing)

  Accepts-cons :
      (is_critical name && contains name seen) ≡ false
      → Rest
      → Accepts seen cl te ((raw, value) ∷ headers)
  Accepts-cons fresh rest = record {
    single = λ n critical. single-cons n fresh rest critical;
    framing = framing-cons rest;
  }

  Accepts-fresh :
      Accepts seen cl te ((raw, value) ∷ headers) → (is_critical name && contains name seen) ≡ false
  Accepts-fresh a = ground (arith, a.single name, eq_iff name name)

  Accepts-rest : Accepts seen cl te ((raw, value) ∷ headers) → Rest
  unfolding contains
  Accepts-rest a = record {
    single = λ n critical. elim (Bool-cases (name == n)) [
      | inl same ↦
          let e : name ≡ n = (eq_iff name n).0 same in ground (arith, a.single n critical, e, same)
      | inr other ↦ ground (arith, a.single n critical, other)
    ];
    framing = ground (arith, a.framing);
  }

scan_sound :
    (headers : List Header) (seen : List Bytes) (cl te : Bool)
    → scan_headers seen cl te headers ≡ none
    → Accepts seen cl te headers
unfolding scan_headers
scan_sound [] seen cl te h = record { single = λ n critical. ground arith; framing = ground arith }
scan_sound ((raw, value) ∷ headers) seen cl te h =
    Accepts-cons seen cl te raw value headers (ground arith)
      (scan_sound headers _ _ _ (ground arith))

scan_complete :
    (headers : List Header) (seen : List Bytes) (cl te : Bool)
    → Accepts seen cl te headers
    → scan_headers seen cl te headers ≡ none
unfolding scan_headers
scan_complete [] seen cl te a = ground (arith, a.framing)
scan_complete ((raw, value) ∷ headers) seen cl te a =
    rw (Accepts-fresh seen cl te raw value headers a)
      (scan_complete headers _ _ _ (Accepts-rest seen cl te raw value headers a))

-- What the middleware asks of the headers of a request.
pub record IsSoundEnvelope (limits : Limits) (headers : List Header) : Type 0 where
  pub few : length headers ≤ limits.max_header_count
  pub small : total_bytes headers ≤ limits.max_header_bytes
  pub single : (n : Bytes) → is_critical n ≡ true → occurrences n headers ≤ 1
  pub framing :
      (has_header "content-length" headers && has_header "transfer-encoding" headers) ≡ false

-- The envelope check passes exactly the requests with no more headers and header bytes than
-- configured, with no security-critical header twice (whatever the case of its letters), and
-- without both Content-Length and Transfer-Encoding.
pub validate_envelope_iff :
    (limits : Limits) (headers : List Header)
    → (validate_envelope limits headers ≡ none) ↔ IsSoundEnvelope limits headers
unfolding validate_envelope contains
validate_envelope_iff limits headers = (
  λ h.
      let a = scan_sound headers [] false false (ground arith) in
      record {
        few = ground arith;
        small = ground arith;
        single = λ n critical. omega (arith, a.single n critical);
        framing = a.framing;
      },
  λ s.
      let scanned : scan_headers [] false false headers ≡ none =
        scan_complete headers [] false false (record {
          single = λ n critical. omega (arith, s.single n critical);
          framing = s.framing;
        }) in
      ground (arith, scanned, s.few, s.small),
)
