-- ===== src/VulnerabilityPolicy/Laws/Findings.antt =====
-- Which findings of a report are actionable.
use mcp_server_auth_template.Base.{
  Bool, Bool-cases, Exists, List, String, [], arith, false, inl, inr, refl, sym, true, ◌↔◌, ◌∷◌,
  ◌≡◌, ◌⊎◌,
}
use mcp_server_auth_template.Base.Result.{>>=-eq-ok, ok}
use mcp_server_auth_template.Base.Value.{Dict, Value, get}
use mcp_server_auth_template.VulnerabilityPolicy.{
  FindingKey, Findings, actionable_findings, add_finding, add_key, as_array, as_object,
  blocking_finding, finding_key, finding_not_object, findings_from, has_fix, has_key, is_blocking,
  matches_not_array, not_an_object, record_finding, vulnerability_not_object,
}
use mcp_server_auth_template.VulnerabilityPolicy.Laws.{add_key-adds, add_key-keeps, has_key-add_key}
use mathlib.Core.Path.{subst}

module _ (lower : String → String) where
  -- An entry of `matches` for a vulnerability of high or critical severity with a fixed version.
  pub record IsActionable (raw : Value) (key : FindingKey) : Type 0 where
    pub match : Dict Value
    pub opened : as_object finding_not_object raw ≡ ok match
    pub vulnerability : Dict Value
    pub described :
        as_object vulnerability_not_object (get "vulnerability" match) ≡ ok vulnerability
    pub blocking : is_blocking lower vulnerability ≡ true
    pub fixed : has_fix vulnerability ≡ true
    pub identified : finding_key match ≡ ok key

  -- What one turn of the loop adds.
  record Turn (raw : Value) (found found' : Findings) : Type 0 where
    kept : (k : FindingKey) → has_key k found.actionable ≡ true → has_key k found'.actionable ≡ true
    added :
        (k : FindingKey)
        → has_key k found'.actionable ≡ true
        → (has_key k found.actionable ≡ true) ⊎ IsActionable raw k

  Turn-unchanged : (raw : Value) (found found' : Findings) → found ≡ found' → Turn raw found found'
  Turn-unchanged raw found found' same = record {
    kept = λ k m. subst (λ (f : Findings). has_key k f.actionable ≡ true) same m;
    added = λ k m. inl (subst (λ (f : Findings). has_key k f.actionable ≡ true) (sym same) m);
  }

  Turn-recorded :
      (raw : Value) (found found' : Findings) (key : FindingKey) (fixed : Bool)
      → (fixed ≡ true → IsActionable raw key)
      → record_finding lower fixed key found ≡ found'
      → Turn raw found found'
  Turn-recorded raw found found' key true act same = record {
    kept = λ k m.
        subst (λ (f : Findings). has_key k f.actionable ≡ true) same
          (add_key-keeps k key found.actionable m);
    added = λ k m.
        elim (has_key-add_key k key found.actionable
          (subst (λ (f : Findings). has_key k f.actionable ≡ true) (sym same) m)) [
            | inl here ↦ inr (subst (IsActionable raw) here (act refl))
            | inr there ↦ inl there
          ];
  }
  Turn-recorded raw found found' key false act same = record {
    kept = λ k m. subst (λ (f : Findings). has_key k f.actionable ≡ true) same m;
    added = λ k m. inl (subst (λ (f : Findings). has_key k f.actionable ≡ true) (sym same) m);
  }

  add_finding-Turn :
      (raw : Value) (found found' : Findings)
      → add_finding lower found raw ≡ ok found'
      → Turn raw found found'
  unfolding add_finding
  add_finding-Turn raw found found' h =
      let (match, opened, h1) = >>=-eq-ok (as_object finding_not_object raw) _ h in
      let (vulnerability, described, h2) =
        >>=-eq-ok (as_object vulnerability_not_object (get "vulnerability" match)) _ h1 in
      elim (Bool-cases (is_blocking lower vulnerability)) [
        | inr minor ↦
            let h3 : ok found ≡ ok found' = rw minor at h2 in
            Turn-unchanged raw found found' (ground (arith, h3))
        | inl blocking ↦
            let h3 : blocking_finding lower match vulnerability found ≡ ok found' =
              rw blocking at h2 in
            let (key, identified, made) = >>=-eq-ok (finding_key match) _ h3 in
            let same : record_finding lower (has_fix vulnerability) key found ≡ found' =
              ground (arith, made) in
            Turn-recorded raw found found' key (has_fix vulnerability)
              (λ fixed. record {
                match = match;
                opened = opened;
                vulnerability = vulnerability;
                described = described;
                blocking = blocking;
                fixed = fixed;
                identified = identified;
              })
              same
      ]

  -- An actionable entry is added.
  add_finding-adds :
      (raw : Value) (found found' : Findings) (k : FindingKey)
      → IsActionable raw k
      → add_finding lower found raw ≡ ok found'
      → has_key k found'.actionable ≡ true
  unfolding add_finding
  add_finding-adds raw found found' k act h =
      let h' : ok (record found { actionable = add_key k found.actionable }) ≡ ok found' =
        rw (act.opened, act.described, act.blocking, act.identified, act.fixed) at h in
      let same : record found { actionable = add_key k found.actionable } ≡ found' =
        ground (arith, h') in
      subst (λ (f : Findings). has_key k f.actionable ≡ true) same (add_key-adds k found.actionable)

  findings_from-kept :
      (raws : List Value) (found found' : Findings)
      → findings_from lower found raws ≡ ok found'
      → (k : FindingKey) → has_key k found.actionable ≡ true
      → has_key k found'.actionable ≡ true
  unfolding findings_from
  findings_from-kept [] found found' h k m =
      let same : found ≡ found' = ground (arith, h) in
      subst (λ (f : Findings). has_key k f.actionable ≡ true) same m
  findings_from-kept (raw ∷ raws) found found' h k m =
      let (next, first, rest) = >>=-eq-ok (add_finding lower found raw) _ h in
      findings_from-kept raws next found' rest k ((add_finding-Turn raw found next first).kept k m)

  findings_from-added :
      (raws : List Value) (found found' : Findings)
      → findings_from lower found raws ≡ ok found'
      → (k : FindingKey) → has_key k found'.actionable ≡ true
      → (has_key k found.actionable ≡ true) ⊎ Exists (λ raw. IsActionable raw k) raws
  unfolding findings_from
  findings_from-added [] found found' h k m =
      let same : found ≡ found' = ground (arith, h) in
      inl (subst (λ (f : Findings). has_key k f.actionable ≡ true) (sym same) m)
  findings_from-added (raw ∷ raws) found found' h k m =
      let (next, first, rest) = >>=-eq-ok (add_finding lower found raw) _ h in
      elim (findings_from-added raws next found' rest k m) [
        | inr later ↦ inr (inr later)
        | inl before ↦ elim ((add_finding-Turn raw found next first).added k before) [
          | inl earlier ↦ inl earlier
          | inr now ↦ inr (inl now)
        ]
      ]

  findings_from-finds :
      (raws : List Value) (found found' : Findings)
      → findings_from lower found raws ≡ ok found'
      → (k : FindingKey) → Exists (λ raw. IsActionable raw k) raws
      → has_key k found'.actionable ≡ true
  unfolding findings_from
  findings_from-finds [] found found' h k act = elim act [ ]
  findings_from-finds (raw ∷ raws) found found' h k act =
      let (next, first, rest) = >>=-eq-ok (add_finding lower found raw) _ h in
      elim act [
        | inl now ↦
            findings_from-kept raws next found' rest k (add_finding-adds raw found next k now first)
        | inr later ↦ findings_from-finds raws next found' rest k later
      ]

  -- The keys that are found are those of the actionable entries.
  pub actionable_findings_lem :
      (document : Value) (found : Findings)
      → actionable_findings lower document ≡ ok found
      → (report : Dict Value) × (raws : List Value) × (as_object not_an_object document ≡ ok report)
        × (as_array matches_not_array (get "matches" report) ≡ ok raws)
        × ((k : FindingKey)
            → (has_key k found.actionable ≡ true) ↔ Exists (λ raw. IsActionable raw k) raws)
  unfolding actionable_findings
  actionable_findings_lem document found h =
      let (report, opened, h1) = >>=-eq-ok (as_object not_an_object document) _ h in
      let (raws, listed, loop) =
        >>=-eq-ok (as_array matches_not_array (get "matches" report)) _ h1 in
      (
        report,
        raws,
        opened,
        listed,
        λ k. (
          λ m. from_none k raws (findings_from-added raws _ found loop k m),
          λ act. findings_from-finds raws _ found loop k act,
        ),
      )
    where
      from_none :
          (k : FindingKey) (raws : List Value)
          → (has_key k [] ≡ true) ⊎ Exists (λ raw. IsActionable raw k) raws
          → Exists (λ raw. IsActionable raw k) raws
      from_none k raws (inl none_yet) = cc
      from_none k raws (inr act) = act
