-- ===== src/VulnerabilityPolicy/Laws.antt =====
-- Keys of findings, and lists of them.
use mcp_server_auth_template.Base.{
  Bool-cases, List, [], ap, arith, eq_iff, false, inl, inr, refl, sym, true, ◌++◌, ◌||◌, ◌∙◌, ◌∷◌,
  ◌≡◌, ◌⊎◌,
}
use mcp_server_auth_template.Base.Sets.{no_items}
use mcp_server_auth_template.TokenVerifier.{present}
use mcp_server_auth_template.VulnerabilityPolicy.{FindingKey, add_key, has_key, same_key}
use mcp_server_auth_template.VulnerabilityPolicy.Evaluation.{
  insert_key, key_lt, keys_minus, sorted_keys,
}
use mathlib.Core.Path.{subst}
pub mod Findings
pub mod Records
pub mod Verdict

pub same_key_sound : (a b : FindingKey) → same_key a b ≡ true → a ≡ b
unfolding same_key
same_key_sound a b h =
    let id : a.vulnerability_id ≡ b.vulnerability_id =
      (eq_iff a.vulnerability_id b.vulnerability_id).0 (ground arith) in
    let namespace : a.namespace ≡ b.namespace = (eq_iff a.namespace b.namespace).0 (ground arith) in
    let name : a.package_name ≡ b.package_name =
      (eq_iff a.package_name b.package_name).0 (ground arith) in
    let type : a.package_type ≡ b.package_type =
      (eq_iff a.package_type b.package_type).0 (ground arith) in
    let version : a.installed_version ≡ b.installed_version =
      (eq_iff a.installed_version b.installed_version).0 (ground arith) in
    cc

pub same_key_self : (a : FindingKey) → same_key a a ≡ true
unfolding same_key
same_key_self a = ground (
  arith,
  eq_iff a.vulnerability_id a.vulnerability_id,
  eq_iff a.namespace a.namespace,
  eq_iff a.package_name a.package_name,
  eq_iff a.package_type a.package_type,
  eq_iff a.installed_version a.installed_version,
)

pub has_key-append :
    (k : FindingKey) (xs ys : List FindingKey)
    → has_key k (xs ++ ys) ≡ (has_key k xs || has_key k ys)
unfolding has_key
has_key-append k [] ys = refl
has_key-append k (x ∷ xs) ys = ground (arith, has_key-append k xs ys)

pub has_key-cons :
    (k j : FindingKey) (js : List FindingKey)
    → has_key k (j ∷ js) ≡ true
    → (j ≡ k) ⊎ (has_key k js ≡ true)
unfolding has_key
has_key-cons k j js h = elim (Bool-cases (same_key j k)) [
  | inl same ↦ inl (same_key_sound j k same)
  | inr other ↦ inr (rw other at h)
]

pub has_key-single : (k j : FindingKey) → has_key k (j ∷ []) ≡ same_key j k
unfolding has_key
has_key-single k j = ground arith

-- A key is added, and no other.
pub has_key-add_key :
    (k j : FindingKey) (ks : List FindingKey)
    → has_key k (add_key j ks) ≡ true
    → (j ≡ k) ⊎ (has_key k ks ≡ true)
unfolding add_key
has_key-add_key k j ks h = elim (Bool-cases (has_key j ks)) [
  | inl known ↦ inr (rw known at h)
  | inr fresh ↦
      let split : (has_key k ks || same_key j k) ≡ true =
        ap (λ b. has_key k ks || b) (sym (has_key-single k j))
        ∙ sym (has_key-append k ks (j ∷ []))
        ∙ (rw fresh at h) in
      elim (Bool-cases (same_key j k)) [
        | inl same ↦ inl (same_key_sound j k same)
        | inr other ↦ inr (ground arith)
      ]
]

pub add_key-keeps :
    (k j : FindingKey) (ks : List FindingKey)
    → has_key k ks ≡ true
    → has_key k (add_key j ks) ≡ true
unfolding add_key
add_key-keeps k j ks h = elim (Bool-cases (has_key j ks)) [
  | inl known ↦ rw known h
  | inr fresh ↦ rw (fresh, has_key-append, h) refl
]

pub add_key-adds : (j : FindingKey) (ks : List FindingKey) → has_key j (add_key j ks) ≡ true
unfolding add_key
add_key-adds j ks = elim (Bool-cases (has_key j ks)) [
  | inl known ↦ rw known known
  | inr fresh ↦ rw (fresh, has_key-append, fresh, has_key-single, same_key_self) refl
]

no_items-sorted_keys : (ks : List FindingKey) → no_items (sorted_keys ks) ≡ true → ks ≡ []
unfolding sorted_keys
no_items-sorted_keys [] h = refl
no_items-sorted_keys (k ∷ ks) h = cc (inserted k (sorted_keys ks), h)
  where
    inserted : (k : FindingKey) (ks : List FindingKey) → no_items (insert_key k ks) ≡ false
    inserted k [] = refl
    inserted k (j ∷ js) = elim (Bool-cases (key_lt j k)) [
      | inl below ↦ rw below refl
      | inr above ↦ rw above refl
    ]

keys_minus-none :
    (xs ys : List FindingKey)
    → keys_minus xs ys ≡ []
    → (k : FindingKey) → has_key k xs ≡ true
    → has_key k ys ≡ true
unfolding keys_minus has_key
keys_minus-none [] ys h k m = cc
keys_minus-none (x ∷ xs) ys h k m = elim (Bool-cases (has_key x ys)) [
  | inr absent ↦ cc (rw absent at h)
  | inl present ↦ elim (has_key-cons k x xs m) [
    | inl same ↦ subst (λ j. has_key j ys ≡ true) same present
    | inr later ↦ keys_minus-none xs ys (rw present at h) k later
  ]
]

-- No key is left over where the sorted difference is empty.
pub none_left :
    (xs ys : List FindingKey)
    → no_items (sorted_keys (keys_minus xs ys)) ≡ true
    → (k : FindingKey) → has_key k xs ≡ true
    → has_key k ys ≡ true
none_left xs ys h = keys_minus-none xs ys (no_items-sorted_keys (keys_minus xs ys) h)
