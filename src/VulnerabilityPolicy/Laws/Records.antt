-- ===== src/VulnerabilityPolicy/Laws/Records.antt =====
-- Which exceptions are accepted.
use mcp_server_auth_template.Base.{
  All, Bool-cases, Exists, List, Option, String, [], ap, arith, false, inl, inr, leb, ltb, none,
  not, refl, some, sym, true, ℕ, ◌&&◌, ◌++◌, ◌+◌, ◌-◌, ◌<◌, ◌||◌, ◌∙◌, ◌∷◌, ◌≡◌, ◌≤◌, ◌⊎◌,
}
use mcp_server_auth_template.Base.Result.{>>=-eq-ok, ok, refuse_if-eq-ok, refuse_if-passes}
use mcp_server_auth_template.Base.Sets.{subset}
use mcp_server_auth_template.Base.Value.{Dict, Value, equals_str, get}
use mcp_server_auth_template.VulnerabilityPolicy.{
  FindingKey, as_array, as_object, bad_schema_version, bad_window, duplicate_exception,
  exception_not_object, exceptions_not_array, expired, has_key, not_an_object, required_string,
  reviewed_in_future, same_key, thin_review,
}
use mcp_server_auth_template.VulnerabilityPolicy.Exceptions.{
  ExceptionRecord, check_dates, check_fields, check_review, date_or_error, exception_key,
  exception_record, exception_records, field_names, policy_date, record_keys, records_from,
  required_fields,
}
use mcp_server_auth_template.VulnerabilityPolicy.Laws.{
  has_key-append, has_key-single, same_key_self, same_key_sound,
}
use mathlib.Core.Path.{subst}
use mcp_server_auth_template.Base.Text

module _ (fromisoformat : String → Option ℕ) (today : ℕ) where
  -- A day that a field of the exception names.
  pub record IsDay (document : Dict Value) (name : String) (day : ℕ) : Type 0 where
    pub text : String
    pub given : required_string document name ≡ ok text
    pub read : fromisoformat text ≡ some day

  -- An exception with exactly the fields asked for, an owner, a reason and a plan of at least 40
  -- characters, that was reviewed by today, has not expired, and is valid for 1 to 90 days.
  pub record IsInForce (raw : Value) (key : FindingKey) : Type 0 where
    pub document : Dict Value
    pub opened : as_object exception_not_object raw ≡ ok document
    pub no_missing : subset required_fields (field_names document) ≡ true
    pub no_others : subset (field_names document) required_fields ≡ true
    pub identified : exception_key document ≡ ok key
    pub owner : (text : String) × (required_string document "owner" ≡ ok text)
    pub reason :
        (text : String) × (required_string document "reason" ≡ ok text) × (40 ≤ Text.length text)
    pub removal_plan :
        (text : String) × (required_string document "removal_plan" ≡ ok text)
        × (40 ≤ Text.length text)
    pub reviewed_on : ℕ
    pub reviewed : IsDay document "reviewed_on" reviewed_on
    pub reviewed_before : reviewed_on ≤ today
    pub expires_on : ℕ
    pub expires : IsDay document "expires_on" expires_on
    pub unexpired : today ≤ expires_on
    pub window : (reviewed_on < expires_on) × (expires_on ≤ reviewed_on + 90)

  check_fields-eq-ok :
      (document : Dict Value)
      → check_fields document ≡ ok tt
      → (subset (field_names document) required_fields ≡ true)
        × (subset required_fields (field_names document) ≡ true)
  unfolding check_fields
  check_fields-eq-ok document h =
      elim (Bool-cases (
        subset (field_names document) required_fields
        && subset required_fields (field_names document))) [
          | inl same ↦ (ground arith, ground arith)
          | inr other ↦ cc (rw other at h)
        ]

  date_or_error-eq-ok :
      (name : String) (o : Option ℕ) (day : ℕ)
      → date_or_error fromisoformat today name o ≡ ok day
      → o ≡ some day
  date_or_error-eq-ok name none day h = cc
  date_or_error-eq-ok name (some d) day h = ground arith

  policy_date-IsDay :
      (document : Dict Value) (name : String) (day : ℕ)
      → policy_date fromisoformat today document name ≡ ok day
      → IsDay document name day
  unfolding policy_date
  policy_date-IsDay document name day h =
      let (text, given, read) = >>=-eq-ok (required_string document name) _ h in
      record {
        text = text;
        given = given;
        read = date_or_error-eq-ok name (fromisoformat text) day read;
      }

  check_dates-eq-ok :
      (reviewed expires : ℕ)
      → check_dates fromisoformat today reviewed expires ≡ ok tt
      → (reviewed ≤ today) × (today ≤ expires) × (reviewed < expires) × (expires ≤ reviewed + 90)
  unfolding check_dates
  check_dates-eq-ok reviewed expires h =
      let (past, h1) = refuse_if-eq-ok (ltb today reviewed) reviewed_in_future _ h in
      let (alive, h2) = refuse_if-eq-ok (ltb expires today) expired _ h1 in
      let fits =
        refuse_if-passes (leb expires reviewed || ltb 90 (expires - reviewed)) bad_window h2 in
      (ground arith, ground arith, ground arith, ground arith)

  record Reviewed (document : Dict Value) : Type 0 where
    owner : (text : String) × (required_string document "owner" ≡ ok text)
    reason :
        (text : String) × (required_string document "reason" ≡ ok text) × (40 ≤ Text.length text)
    removal_plan :
        (text : String) × (required_string document "removal_plan" ≡ ok text)
        × (40 ≤ Text.length text)

  check_review-Reviewed :
      (document : Dict Value)
      → check_review fromisoformat today document ≡ ok tt
      → Reviewed document
  unfolding check_review
  check_review-Reviewed document h =
      let (owner, owned, h1) = >>=-eq-ok (required_string document "owner") _ h in
      let (reason, reasoned, h2) = >>=-eq-ok (required_string document "reason") _ h1 in
      let (plan, planned, h3) = >>=-eq-ok (required_string document "removal_plan") _ h2 in
      let long =
        refuse_if-passes (ltb (Text.length reason) 40 || ltb (Text.length plan) 40) thin_review
          h3 in
      record {
        owner = (owner, owned);
        reason = (reason, reasoned, ground arith);
        removal_plan = (plan, planned, ground arith);
      }

  exception_record-IsInForce :
      (raw : Value) (r : ExceptionRecord)
      → exception_record fromisoformat today raw ≡ ok r
      → IsInForce raw r.key
  unfolding exception_record
  exception_record-IsInForce raw r h =
      let (document, opened, h1) = >>=-eq-ok (as_object exception_not_object raw) _ h in
      let (_, fields_ok, h2) = >>=-eq-ok (check_fields document) _ h1 in
      let (key, identified, h3) = >>=-eq-ok (exception_key document) _ h2 in
      let (_, review, h4) = >>=-eq-ok (check_review fromisoformat today document) _ h3 in
      let (from, from_ok, h5) =
        >>=-eq-ok (policy_date fromisoformat today document "reviewed_on") _ h4 in
      let (until, until_ok, h6) =
        >>=-eq-ok (policy_date fromisoformat today document "expires_on") _ h5 in
      let (_, dates, made) = >>=-eq-ok (check_dates fromisoformat today from until) _ h6 in
      let (others, missing) = check_fields-eq-ok document fields_ok in
      let (past, alive, forward, short) = check_dates-eq-ok from until dates in
      let reviewed = check_review-Reviewed document review in
      let same : key ≡ r.key = ground (arith, made) in
      subst (IsInForce raw) same (record {
        document = document;
        opened = opened;
        no_missing = missing;
        no_others = others;
        identified = identified;
        owner = reviewed.owner;
        reason = reviewed.reason;
        removal_plan = reviewed.removal_plan;
        reviewed_on = from;
        reviewed = policy_date-IsDay document "reviewed_on" from from_ok;
        reviewed_before = past;
        expires_on = until;
        expires = policy_date-IsDay document "expires_on" until until_ok;
        unexpired = alive;
        window = (forward, short);
      })

  -- What the loop over the exceptions has established.
  pub record IsLoaded (before : List FindingKey) (raws : List Value) (after : List FindingKey)
      : Type 0 where
    pub kept : (k : FindingKey) → has_key k before ≡ true → has_key k after ≡ true
    pub in_force :
        All (λ raw. (key : FindingKey) × IsInForce raw key × (has_key key after ≡ true)) raws
    pub found :
        (k : FindingKey)
        → has_key k after ≡ true
        → (has_key k before ≡ true) ⊎ Exists (λ raw. IsInForce raw k) raws

  keys-append :
      (records : List ExceptionRecord) (r : ExceptionRecord)
      → record_keys (records ++ r ∷ []) ≡ record_keys records ++ r.key ∷ []
  keys-append [] r = refl
  keys-append (q ∷ records) r = ap (λ ks. q.key ∷ ks) (keys-append records r)

  has_key-last :
      (records : List ExceptionRecord) (r : ExceptionRecord) (k : FindingKey)
      → has_key k (record_keys (records ++ r ∷ []))
        ≡ (has_key k (record_keys records) || same_key r.key k)
  has_key-last records r k =
      ap (has_key k) (keys-append records r)
      ∙ has_key-append k (record_keys records) (r.key ∷ [])
      ∙ ap (λ b. has_key k (record_keys records) || b) (has_key-single k r.key)

  records_from-IsLoaded :
      (records : List ExceptionRecord) (raws : List Value) (out : List ExceptionRecord)
      → records_from fromisoformat today records raws ≡ ok out
      → IsLoaded (record_keys records) raws (record_keys out)
  unfolding records_from
  records_from-IsLoaded records [] out h =
      let same : records ≡ out = ground (arith, h) in
      subst (λ (o : List ExceptionRecord). IsLoaded (record_keys records) [] (record_keys o)) same
        (record { kept = λ k m. m; in_force = tt; found = λ k m. inl m })
  records_from-IsLoaded records (raw ∷ raws) out h =
      let (r, made, h1) = >>=-eq-ok (exception_record fromisoformat today raw) _ h in
      let (fresh, rest) =
        refuse_if-eq-ok (has_key r.key (record_keys records)) duplicate_exception _ h1 in
      let later = records_from-IsLoaded (records ++ r ∷ []) raws out rest in
      let force = exception_record-IsInForce raw r made in
      record {
        kept = λ k m. later.kept k (rw (has_key-last records r k, m) refl);
        in_force = (
          (r.key, force, later.kept r.key (has_key-last records r r.key ∙ last r)),
          later.in_force,
        );
        found = λ k m. elim (later.found k m) [
          | inr other ↦ inr (inr other)
          | inl known ↦ elim (Bool-cases (has_key k (record_keys records))) [
            | inl earlier ↦ inl earlier
            | inr new ↦ inr (inl (subst (IsInForce raw) (this r k new known) force))
          ]
        ];
      }
    where
      last :
          (r : ExceptionRecord)
          → (has_key r.key (record_keys records) || same_key r.key r.key) ≡ true
      last r = ground (arith, same_key_self r.key)

      this :
          (r : ExceptionRecord) (k : FindingKey)
          → has_key k (record_keys records) ≡ false
          → has_key k (record_keys (records ++ r ∷ [])) ≡ true
          → r.key ≡ k
      this r k new known =
          let split = sym (has_key-last records r k) ∙ known in
          same_key_sound r.key k (ground arith)

  pub exception_records-IsLoaded :
      (document : Value) (out : List ExceptionRecord)
      → exception_records fromisoformat today document ≡ ok out
      → (policy : Dict Value) × (raws : List Value) × (as_object not_an_object document ≡ ok policy)
        × (as_array exceptions_not_array (get "exceptions" policy) ≡ ok raws)
        × IsLoaded [] raws (record_keys out)
  unfolding exception_records
  exception_records-IsLoaded document out h =
      let (policy, opened, h1) = >>=-eq-ok (as_object not_an_object document) _ h in
      let (version, h2) =
        refuse_if-eq-ok (not (equals_str (get "schema_version" policy) "1.0")) bad_schema_version _
          h1 in
      let (raws, listed, loop) =
        >>=-eq-ok (as_array exceptions_not_array (get "exceptions" policy)) _ h2 in
      (policy, raws, opened, listed, records_from-IsLoaded [] raws out loop)
