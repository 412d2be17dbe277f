-- ===== src/ScopeClaims/Qualified.antt =====
-- What qualify_scopes does to scopes that name a resource already.
use Prim.Native.String
use text.Mathlib.TextLemmas.{cons-append, nil-append}
use mcp_server_auth_template.Base.{
  String, Bool, true, false, List, [], ◌∷◌, map, not, keep, ◌≡◌, refl, sym, ap, ◌∙◌, arith, ◌==◌,
  eq_iff, Bool-cases, inl, inr,
}
use mcp_server_auth_template.Base.Text.{is_empty, has_infix, starts_with}
use mcp_server_auth_template.Base.Sets.{contains, sorted_set}
use mcp_server_auth_template.Base.Sets.Laws.{SameMembers, contains-sorted_set, sorted_set-ext}
use mcp_server_auth_template.ScopeClaims.{resource_prefix, qualify, qualify_scopes}

pub starts_with-append_self : (p s : String) → starts_with (String.◌++◌ p s) p ≡ true
unfolding starts_with
starts_with-append_self String.[] s = refl
starts_with-append_self (String.◌∷◌ c p) s =
    rw cons-append (ground (arith, starts_with-append_self p s))

starts_with-append :
    (p s t : String) → starts_with s p ≡ true → starts_with (String.◌++◌ s t) p ≡ true
unfolding starts_with
starts_with-append String.[] s t h = refl
starts_with-append (String.◌∷◌ d p) String.[] t h = ground arith
starts_with-append (String.◌∷◌ d p) (String.◌∷◌ c s) t h =
    rw cons-append (ground (arith, starts_with-append p s t))

has_infix-append : (p s t : String) → has_infix p s ≡ true → has_infix p (String.◌++◌ s t) ≡ true
unfolding has_infix
has_infix-append p String.[] String.[] h = h
has_infix-append p String.[] (String.◌∷◌ c t) h =
    rw nil-append
      (ground (arith, starts_with-append p String.[] (String.◌∷◌ c t), nil-append (String.◌∷◌ c t)))
has_infix-append p (String.◌∷◌ c s) t h = rw cons-append (
    ground
      (arith, has_infix-append p s t, starts_with-append p (String.◌∷◌ c s) t, cons-append c s t))

pub is_empty-qualify : (p x : String) → is_empty x ≡ false → is_empty (qualify p x) ≡ false
unfolding qualify
is_empty-qualify String.[] x h = elim (Bool-cases (has_infix "://" x)) [
  | inl e ↦ rw e h
  | inr e ↦ rw (e, nil-append) h
]
is_empty-qualify (String.◌∷◌ c p) x h = elim (Bool-cases (has_infix "://" x)) [
  | inl e ↦ rw e h
  | inr e ↦ rw (e, cons-append) refl
]

-- the list that qualify_scopes sorts
abbrev pub qualified : String → List String → List String
qualified p xs = map (qualify p) (keep (λ s. not (is_empty s)) xs)

module _ (p : String) (anchored : has_infix "://" p ≡ true) where
  qualify_twice : (x : String) → qualify p (qualify p x) ≡ qualify p x
  unfolding qualify
  qualify_twice x = elim (Bool-cases (has_infix "://" x)) [
    | inl e ↦ rw (e, e) refl
    | inr e ↦ rw (e, has_infix-append "://" p x anchored) refl
  ]

  qualified_twice : (xs : List String) → qualified p (qualified p xs) ≡ qualified p xs
  unfolding keep
  qualified_twice [] = refl
  qualified_twice (x ∷ xs) = elim (Bool-cases (is_empty x)) [
    | inl e ↦ rw e (qualified_twice xs)
    | inr e ↦
        rw (e, is_empty-qualify p x e, qualify_twice x)
          (ap (λ ys. qualify p x ∷ ys) (qualified_twice xs))
  ]

contains-qualified :
    (p x : String) (ys : List String)
    → is_empty x ≡ false
    → contains x ys ≡ true
    → contains (qualify p x) (qualified p ys) ≡ true
unfolding contains keep
contains-qualified p x [] e m = ground arith
contains-qualified p x (y ∷ ys) e m = elim (Bool-cases (y == x)) [
  | inl same ↦
      let y_x : y ≡ x = (eq_iff y x).0 same in
      rw (y_x, e) (ground (arith, eq_iff (qualify p x) (qualify p x)))
  | inr other ↦ ground (arith, contains-qualified p x ys e)
]

pub qualified_mono :
    (p a : String) (xs ys : List String)
    → ((b : String) → contains b xs ≡ true → contains b ys ≡ true)
    → contains a (qualified p xs) ≡ true
    → contains a (qualified p ys) ≡ true
unfolding contains keep
qualified_mono p a [] ys sub m = ground arith
qualified_mono p a (x ∷ xs) ys sub m = ground (
  arith,
  eq_iff (qualify p x) a,
  eq_iff x x,
  sub x,
  contains-qualified p x ys,
  qualified_mono p a xs ys (λ b h. sub b (ground arith)),
)

pub eq_of_true_iff : (a b : Bool) → (a ≡ true → b ≡ true) → (b ≡ true → a ≡ true) → a ≡ b
eq_of_true_iff a b f g = ground arith

contains-qualified-ext :
    (p a : String) (xs ys : List String)
    → SameMembers xs ys
    → contains a (qualified p xs) ≡ contains a (qualified p ys)
contains-qualified-ext p a xs ys same =
    eq_of_true_iff _ _ (qualified_mono p a xs ys (λ b h. sym (same b) ∙ h))
      (qualified_mono p a ys xs (λ b h. same b ∙ h))

-- For a resource URI that still has its "://" when its trailing slashes are gone, qualifying scopes
-- a second time changes nothing.
pub qualify_scopes_idem :
    (scopes : List String) (uri : String)
    → has_infix "://" (resource_prefix uri) ≡ true
    → qualify_scopes (qualify_scopes scopes uri) uri ≡ qualify_scopes scopes uri
unfolding qualify_scopes
qualify_scopes_idem scopes uri anchored =
    let p = resource_prefix uri in
    sorted_set-ext (qualified p (sorted_set (qualified p scopes))) (qualified p scopes) (λ a.
      contains-qualified-ext p a (sorted_set (qualified p scopes)) (qualified p scopes)
        (λ b. contains-sorted_set b (qualified p scopes))
      ∙ ap (contains a) (qualified_twice p anchored scopes))

module _ (p a : String) (named : has_infix "://" a ≡ true) (foreign : starts_with a p ≡ false) where
  qualify-eq_foreign : (x : String) → (qualify p x == a) ≡ (x == a)
  unfolding qualify
  qualify-eq_foreign x = elim (Bool-cases (has_infix "://" x)) [
    | inl e ↦ rw e refl
    | inr e ↦ rw e (
        eq_of_true_iff (String.◌++◌ p x == a) (x == a)
          (λ h.
            let same : String.◌++◌ p x ≡ a = (eq_iff _ a).0 h in
            cc (foreign, starts_with-append_self p x, ap (λ t. starts_with t p) same))
          (λ h. let same : x ≡ a = (eq_iff x a).0 h in cc (named, e, ap (has_infix "://") same)))
  ]

  not-empty : (x : String) → (x == a) ≡ true → is_empty x ≡ false
  unfolding has_infix starts_with
  not-empty String.[] h =
      let same : String.[] ≡ a = (eq_iff "" a).0 h in cc (ap (has_infix "://") same, named)
  not-empty (String.◌∷◌ c x) h = refl

  contains-qualified_foreign : (xs : List String) → contains a (qualified p xs) ≡ contains a xs
  unfolding contains keep
  contains-qualified_foreign [] = refl
  contains-qualified_foreign (x ∷ xs) =
      ground (arith, qualify-eq_foreign x, not-empty x, contains-qualified_foreign xs)

-- A scope that names another resource ("://" in it, and not below the given URI) is among the
-- qualified scopes exactly if it was among the scopes: none is added, dropped or rewritten.
pub contains-qualify_scopes_foreign :
    (scopes : List String) (uri a : String)
    → has_infix "://" a ≡ true
    → starts_with a (resource_prefix uri) ≡ false
    → contains a (qualify_scopes scopes uri) ≡ contains a scopes
unfolding qualify_scopes
contains-qualify_scopes_foreign scopes uri a named foreign =
    contains-sorted_set a _
    ∙ contains-qualified_foreign (resource_prefix uri) a named foreign scopes
