-- ===== src/Http.antt =====
-- The ASGI values that the HTTP adapters share. `bytes` is a text of the code points 0 to 255, one
-- for each byte, so `len`, `==` and `.lower()` are those of the text.
use Prim.Native.Char.{Char, code}
use mcp_server_auth_template.Base.{ℕ, ◌-◌, String, List, in_range, if◌then◌else◌}
use mcp_server_auth_template.Base.Text.{nth_char}
use mcp_server_auth_template.Base.Value.{Dict}

abbrev pub Bytes : Type 0
Bytes = String

abbrev pub lower_char : Char → Char
lower_char c =
    if in_range b'A' b'Z' (code c)
    then nth_char (code c - b'A') "abcdefghijklmnopqrstuvwxyz" c
    else c

-- `raw.lower()` on bytes, which changes the letters of ASCII alone
unfoldable pub lower : Bytes → Bytes
lower String.[] = String.[]
lower (String.◌∷◌ c s) = String.◌∷◌ (lower_char c) (lower s)

abbrev pub Header : Type 0
Header = Bytes × Bytes

pub data ScopeType : Type 0 where
  http websocket lifespan : ScopeType

pub record Scope : Type 0 where
  pub type : ScopeType
  pub method : String
  pub path : String
  pub headers : List Header

pub record Response : Type 0 where
  pub status : ℕ
  pub headers : Dict String
  pub body : String
