-- ===== src/Redaction/Laws.antt =====
-- What a log event cannot hold.
use mcp_server_auth_template.Base.{
  All, Bool, Bool-cases, String, [], if◌then◌else◌, inl, inr, refl, true, ◌∷◌, ◌≡◌,
}
use mcp_server_auth_template.Base.Value.{
  Dict, Fields, Items, Value, arr, bool, cons, end, field, float, int, nil, null, obj, str, ℤ,
}
use mcp_server_auth_template.Redaction.{
  is_sensitive, redact_fields, redact_items, redact_security_secrets, redact_value, redacted,
}

-- No entry with a sensitive key holds anything but the mark, at any depth, and every other text has
-- been masked.
module _ (lower_str mask : String → String) where
  mutual
    pub data IsClean : Value → Type 0 where
      clean_null : IsClean null
      clean_bool : (b : Bool) → IsClean (bool b)
      clean_int : (n : ℤ) → IsClean (int n)
      clean_float : (t : String) → IsClean (float t)
      clean_mark : IsClean redacted
      clean_text : (s : String) → IsClean (str (mask s))
      clean_arr : {vs : Items} → CleanItems vs → IsClean (arr vs)
      clean_obj : {fs : Fields} → CleanFields fs → IsClean (obj fs)

    pub data CleanItems : Items → Type 0 where
      no_item : CleanItems nil
      one_item : {v : Value} {vs : Items} → IsClean v → CleanItems vs → CleanItems (cons v vs)

    pub data CleanFields : Fields → Type 0 where
      no_entry : CleanFields end
      one_entry :
          {k : String} {v : Value} {fs : Fields}
          → (is_sensitive lower_str mask k ≡ true → v ≡ redacted)
          → IsClean v
          → CleanFields fs
          → CleanFields (field k v fs)

  -- the value that stands for `v` under a key
  abbrev under_key : String → Value → Value
  under_key k v = if is_sensitive lower_str mask k then redacted else v

  under_key-IsClean : (k : String) (v : Value) → IsClean v → IsClean (under_key k v)
  under_key-IsClean k v h = elim (Bool-cases (is_sensitive lower_str mask k)) [
    | inl e ↦ rw e clean_mark
    | inr e ↦ rw e h
  ]

  under_key_sensitive :
      (k : String) (v : Value) → is_sensitive lower_str mask k ≡ true → under_key k v ≡ redacted
  under_key_sensitive k v e = rw e refl

  mutual
    unfolding redact_value redact_items redact_fields

    redact_value-IsClean : (v : Value) → IsClean (redact_value lower_str mask v)
    redact_value-IsClean null = clean_null
    redact_value-IsClean (bool b) = clean_bool b
    redact_value-IsClean (int n) = clean_int n
    redact_value-IsClean (float t) = clean_float t
    redact_value-IsClean (str s) = clean_text s
    redact_value-IsClean (arr vs) = clean_arr (redact_items-CleanItems vs)
    redact_value-IsClean (obj fs) = clean_obj (redact_fields-CleanFields fs)

    redact_items-CleanItems : (vs : Items) → CleanItems (redact_items lower_str mask vs)
    redact_items-CleanItems nil = no_item
    redact_items-CleanItems (cons v vs) =
        one_item (under_key-IsClean "" _ (redact_value-IsClean v)) (redact_items-CleanItems vs)

    redact_fields-CleanFields : (fs : Fields) → CleanFields (redact_fields lower_str mask fs)
    redact_fields-CleanFields end = no_entry
    redact_fields-CleanFields (field k v fs) =
        one_entry (under_key_sensitive k _) (under_key-IsClean k _ (redact_value-IsClean v))
          (redact_fields-CleanFields fs)

  -- An entry of an event that may be rendered.
  abbrev pub IsRenderable : String × Value → Type 0
  IsRenderable (k, v) = (is_sensitive lower_str mask k ≡ true → v ≡ redacted) × IsClean v

-- Of an event that has passed the redaction, no entry with a sensitive key, at the top or at any
-- depth, holds anything but the mark, and every other text in it has been masked.
pub redact_security_secrets-IsRenderable :
    (lower_str mask : String → String) (event : Dict Value)
    → All (IsRenderable lower_str mask) (redact_security_secrets lower_str mask event)
unfolding redact_security_secrets
redact_security_secrets-IsRenderable lower_str mask [] = tt
redact_security_secrets-IsRenderable lower_str mask ((k, v) ∷ event) = (
  (
    under_key_sensitive lower_str mask k _,
    under_key-IsClean lower_str mask k _ (redact_value-IsClean lower_str mask v),
  ),
  redact_security_secrets-IsRenderable lower_str mask event,
)
