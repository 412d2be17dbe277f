-- ===== src/OidcJson/Tests.antt =====
-- A document with one member, for a decoder that reads this document alone.
use mcp_server_auth_template.Base.{
  Option, [], false, if◌then◌else◌, none, refl, some, ◌==◌, ◌∷◌, ◌≡◌,
}
use mcp_server_auth_template.Base.Result.{err}
use mcp_server_auth_template.Base.Value.{Fields, Value, arr, cons, end, field, nil, null, obj, str}
use mcp_server_auth_template.Http.{Bytes}
use mcp_server_auth_template.OidcJson.{bad_size, fresh_keys, parse_json_object, passes_hook}
use mcp_server_auth_template.OidcJson.Laws.{IsAccepted, parse_json_object-IsAccepted}

abbrev issuer : Fields
issuer = field "issuer" (str "i") end

abbrev loads_one : Bytes → Option Value
loads_one content = if content == "{\"issuer\":\"i\"}" then some (obj issuer) else none

too_large : parse_json_object loads_one "{\"issuer\":\"i\"}" 3 ≡ err bad_size
unfolding parse_json_object
too_large = refl

duplicate_member : passes_hook (arr (cons (obj (field "a" null (field "a" null end))) nil)) ≡ false
unfolding passes_hook fresh_keys
duplicate_member = refl

parse_json_object-IsAccepted_example :
    IsAccepted loads_one "{\"issuer\":\"i\"}" 100 (("issuer", str "i") ∷ [])
unfolding parse_json_object passes_hook fresh_keys
parse_json_object-IsAccepted_example =
    parse_json_object-IsAccepted loads_one "{\"issuer\":\"i\"}" 100 (("issuer", str "i") ∷ []) refl
