-- ===== src/OidcJson.antt =====
-- src/mcp_server_auth_template/adapters/oidc_json.py: strict parsing of one JSON object.
pub mod Laws
mod Tests
use mcp_server_auth_template.Base.{
  ℕ, String, Bool, true, false, not, ◌&&◌, ◌||◌, Option, none, some, List, [], ◌∷◌, ltb,
  if◌then◌else◌,
}
use mcp_server_auth_template.Base.Text
use mcp_server_auth_template.Base.Text.{is_empty}
use mcp_server_auth_template.Base.Sets.{contains}
use mcp_server_auth_template.Base.Value.{
  Value, null, bool, int, float, str, arr, obj, Items, nil, cons, Fields, end, field, fields, Dict,
}
use mcp_server_auth_template.Base.Result.{Result, ok, err}
use mcp_server_auth_template.Http.{Bytes}

-- The ValueErrors of this file and of the document checks of its callers.
pub data OidcDocumentError : Type 0 where
  bad_size not_json duplicate_keys not_an_object bad_member : OidcDocumentError

-- The loop of `_object_without_duplicates`, with the keys of `result` so far.
unfoldable pub fresh_keys : List String → Fields → Bool
unfolding contains
fresh_keys seen end = true
fresh_keys seen (field k v fs) =
    let rest = fresh_keys (k ∷ seen) fs in if contains k seen then false else rest

-- Whether the hook passes every object of a document, the inner ones included.
unfoldable mutual
  pub passes_hook : Value → Bool
  passes_hook (arr vs) = items_pass_hook vs
  passes_hook (obj fs) = fresh_keys [] fs && fields_pass_hook fs
  passes_hook _ = true

  pub items_pass_hook : Items → Bool
  items_pass_hook nil = true
  items_pass_hook (cons v vs) = passes_hook v && items_pass_hook vs

  pub fields_pass_hook : Fields → Bool
  fields_pass_hook end = true
  fields_pass_hook (field k v fs) = passes_hook v && fields_pass_hook fs

abbrev pub root_object : Value → Result OidcDocumentError (Dict Value)
root_object (obj fs) = ok (fields fs)
root_object _ = err not_an_object

-- `loads` decodes UTF-8 and JSON by Python's standard library, and keeps every member of every
-- object in the order of the text; `none` where it raises UnicodeDecodeError or JSONDecodeError, the
-- exceptions that the code catches. That it raises another one is not modelled.
module _ (loads : Bytes → Option Value) where
  abbrev pub checked : Option Value → Result OidcDocumentError (Dict Value)
  checked none = err not_json
  checked (some v) = if passes_hook v then root_object v else err duplicate_keys

  unfoldable pub parse_json_object : Bytes → ℕ → Result OidcDocumentError (Dict Value)
  parse_json_object content max_bytes =
      if is_empty content || ltb max_bytes (Text.length content)
      then err bad_size
      else checked (loads content)
