-- ===== src/OidcJson/Laws.antt =====
-- What an accepted document is.
use mathlib.Core.Path.{ap, subst}
use mcp_server_auth_template.Base.{
  ℕ, ◌≤◌, String, Bool, true, false, ◌||◌, Option, none, some, List, [], ◌∷◌, ltb, ◌≡◌, refl, arith,
  eq_iff, ◌==◌, Bool-cases, inl, inr,
}
use mcp_server_auth_template.Base.Text
use mcp_server_auth_template.Base.Text.{is_empty}
use mcp_server_auth_template.Base.Sets.{contains}
use mcp_server_auth_template.Base.Value.{
  ℤ, Value, null, bool, int, float, str, arr, obj, Items, nil, cons, Fields, end, field, fields,
  Dict,
}
use mcp_server_auth_template.Base.Result.{ok}
use mcp_server_auth_template.Http.{Bytes}
use mcp_server_auth_template.OidcJson.{
  fresh_keys, passes_hook, items_pass_hook, fields_pass_hook, root_object, checked,
  parse_json_object,
}

abbrev pub has_key : String → Dict Value → Bool
has_key k [] = false
has_key k ((j, v) ∷ d) = j == k || has_key k d

-- No key twice.
abbrev pub UniqueKeys : Dict Value → Type 0
UniqueKeys [] = Unit
UniqueKeys ((k, v) ∷ d) = (has_key k d ≡ false) × UniqueKeys d

-- No object of the document has a key twice, at any depth.
mutual
  pub data IsStrict : Value → Type 0 where
    strict_null : IsStrict null
    strict_bool : (b : Bool) → IsStrict (bool b)
    strict_int : (n : ℤ) → IsStrict (int n)
    strict_float : (t : String) → IsStrict (float t)
    strict_str : (s : String) → IsStrict (str s)
    strict_arr : {vs : Items} → AllStrict vs → IsStrict (arr vs)
    strict_obj : {fs : Fields} → UniqueKeys (fields fs) → FieldsStrict fs → IsStrict (obj fs)

  pub data AllStrict : Items → Type 0 where
    none_left : AllStrict nil
    one_more : {v : Value} {vs : Items} → IsStrict v → AllStrict vs → AllStrict (cons v vs)

  pub data FieldsStrict : Fields → Type 0 where
    no_field : FieldsStrict end
    one_field :
        {k : String} {v : Value} {fs : Fields}
        → IsStrict v
        → FieldsStrict fs
        → FieldsStrict (field k v fs)

fresh_keys-above :
    (seen : List String) (fs : Fields) (k : String)
    → fresh_keys seen fs ≡ true
    → contains k seen ≡ true
    → has_key k (fields fs) ≡ false
unfolding fresh_keys contains
fresh_keys-above seen end k h m = refl
fresh_keys-above seen (field j v fs) k h m =
    ground (arith, eq_iff j k, fresh_keys-above (j ∷ seen) fs k)

fresh_keys_sound :
    (seen : List String) (fs : Fields) → fresh_keys seen fs ≡ true → UniqueKeys (fields fs)
unfolding fresh_keys contains
fresh_keys_sound seen end h = tt
fresh_keys_sound seen (field k v fs) h =
    let later : fresh_keys (k ∷ seen) fs ≡ true = ground arith in
    (
      fresh_keys-above (k ∷ seen) fs k later (ground (arith, eq_iff k k)),
      fresh_keys_sound (k ∷ seen) fs later,
    )

mutual
  unfolding passes_hook items_pass_hook fields_pass_hook

  passes_hook_sound : (v : Value) → passes_hook v ≡ true → IsStrict v
  passes_hook_sound null h = strict_null
  passes_hook_sound (bool b) h = strict_bool b
  passes_hook_sound (int n) h = strict_int n
  passes_hook_sound (float t) h = strict_float t
  passes_hook_sound (str s) h = strict_str s
  passes_hook_sound (arr vs) h = strict_arr (items_pass_hook_sound vs h)
  passes_hook_sound (obj fs) h =
      strict_obj (fresh_keys_sound [] fs (ground arith)) (fields_pass_hook_sound fs (ground arith))

  items_pass_hook_sound : (vs : Items) → items_pass_hook vs ≡ true → AllStrict vs
  items_pass_hook_sound nil h = none_left
  items_pass_hook_sound (cons v vs) h =
      one_more (passes_hook_sound v (ground arith)) (items_pass_hook_sound vs (ground arith))

  fields_pass_hook_sound : (fs : Fields) → fields_pass_hook fs ≡ true → FieldsStrict fs
  fields_pass_hook_sound end h = no_field
  fields_pass_hook_sound (field k v fs) h =
      one_field (passes_hook_sound v (ground arith)) (fields_pass_hook_sound fs (ground arith))

-- An accepted document is not empty and within the size limit, its text is that of one object, and
-- no object in it has a key twice, at any depth.
pub record IsAccepted (loads : Bytes → Option Value) (content : Bytes) (max_bytes : ℕ)
    (d : Dict Value) : Type 0 where
  pub non_empty : is_empty content ≡ false
  pub small : Text.length content ≤ max_bytes
  pub root : Fields
  pub text : loads content ≡ some (obj root)
  pub entries : fields root ≡ d
  pub strict : IsStrict (obj root)

module _ (loads : Bytes → Option Value) (d : Dict Value) where
  root_object-eq-ok :
      (v : Value) → root_object v ≡ ok d → (fs : Fields) × (v ≡ obj fs) × (fields fs ≡ d)
  root_object-eq-ok (obj fs) h = (fs, refl, ground arith)
  root_object-eq-ok _ h = cc

  checked-eq-ok :
      (o : Option Value)
      → checked loads o ≡ ok d
      → (fs : Fields) × (o ≡ some (obj fs)) × (fields fs ≡ d) × IsStrict (obj fs)
  checked-eq-ok none h = cc
  checked-eq-ok (some v) h = elim (Bool-cases (passes_hook v)) [
    | inr bad ↦ cc (rw bad at h)
    | inl good ↦
        let (fs, e, same) = root_object-eq-ok v (rw good at h) in
        (fs, ap some e, same, subst IsStrict e (passes_hook_sound v good))
  ]

-- parse_json_object returns a dict only for a document that is accepted in this sense.
pub parse_json_object-IsAccepted :
    (loads : Bytes → Option Value) (content : Bytes) (max_bytes : ℕ) (d : Dict Value)
    → parse_json_object loads content max_bytes ≡ ok d
    → IsAccepted loads content max_bytes d
unfolding parse_json_object
parse_json_object-IsAccepted loads content max_bytes d h =
    elim (Bool-cases (is_empty content || ltb max_bytes (Text.length content))) [
      | inl bad ↦ cc (rw bad at h)
      | inr good ↦
          let (fs, text, same, strict) = checked-eq-ok loads d (loads content) (rw good at h) in
          record {
            non_empty = ground arith;
            small = ground arith;
            root = fs;
            text = text;
            entries = same;
            strict = strict;
          }
    ]
