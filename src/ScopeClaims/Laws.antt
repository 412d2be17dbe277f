-- ===== src/ScopeClaims/Laws.antt =====
-- What scopes_from_claims, roles_from_claims and qualify_scopes promise.
use Prim.Native.Char.{code}
use mcp_server_auth_template.Base.{
  String, Bool, true, List, [], ◌∷◌, ◌++◌, not, ◌||◌, ◌&&◌, ◌≡◌, refl, ◌∙◌, arith, ◌==◌, eq_iff,
  Bool-cases, inl, inr, All,
}
use mcp_server_auth_template.Base.Text.{is_empty, is_space, words, split, cons_word, all_codes}
use mcp_server_auth_template.Base.Sets.{contains}
use mcp_server_auth_template.Base.Sets.Laws.{
  contains-append, contains-sorted_set, IsAscending, sorted_set-IsAscending,
}
use mcp_server_auth_template.Base.Value.{ne_str, get-store, Value, str, Dict, get, store}
use mcp_server_auth_template.ScopeClaims.{claim_words, scopes_from_claims, roles_from_claims}

-- A non-empty text without blanks.
abbrev pub is_word : String → Bool
is_word s = not (is_empty s) && all_codes (λ c. not (is_space c)) s

All-cons_word :
    (w : String) (ws : List String)
    → all_codes (λ c. not (is_space c)) w ≡ true
    → All (λ s. is_word s ≡ true) ws
    → All (λ s. is_word s ≡ true) (cons_word w ws)
All-cons_word String.[] ws h k = k
All-cons_word (String.◌∷◌ c w) ws h k = (h, k)

words_are_words :
    (s : String)
    → (all_codes (λ c. not (is_space c)) (words s).0 ≡ true)
      × All (λ t. is_word t ≡ true) (words s).1
unfolding words
words_are_words String.[] = (refl, tt)
words_are_words (String.◌∷◌ c s) =
    let (h, k) = words_are_words s in
    elim (Bool-cases (is_space (code c))) [
      | inl e ↦ rw e (refl, All-cons_word _ _ h k)
      | inr e ↦ rw e (rw e h, k)
    ]

pub split-All_words : (s : String) → All (λ t. is_word t ≡ true) (split s)
unfolding split
split-All_words s = let (h, k) = words_are_words s in All-cons_word _ _ h k

contains-All :
    (p : String → Bool) (xs : List String) (a : String)
    → All (λ t. p t ≡ true) xs
    → contains a xs ≡ true
    → p a ≡ true
unfolding contains
contains-All p [] a h m = ground arith
contains-All p (x ∷ xs) a (q, h) m = elim (Bool-cases (x == a)) [
  | inl same ↦ let e : x ≡ a = (eq_iff x a).0 same in rw e at q
  | inr other ↦ contains-All p xs a h (ground arith)
]

claim_words_are_words :
    (v : Value) (a : String) → contains a (claim_words v) ≡ true → is_word a ≡ true
unfolding claim_words contains
claim_words_are_words (str s) a m = contains-All (λ t. is_word t) (split s) a (split-All_words s) m
claim_words_are_words _ a m = ground arith

pub contains-scopes_from_claims :
    (claims : Dict Value) (a : String)
    → contains a (scopes_from_claims claims) ≡ (
        contains a (claim_words (get "scope" claims))
        || contains a (claim_words (get "scp" claims)))
unfolding scopes_from_claims
contains-scopes_from_claims claims a =
    contains-sorted_set a _
    ∙ contains-append a (claim_words (get "scope" claims)) (claim_words (get "scp" claims))

pub scope_is_word :
    (claims : Dict Value) (a : String)
    → contains a (scopes_from_claims claims) ≡ true
    → is_word a ≡ true
scope_is_word claims a m = ground (
  arith,
  contains-scopes_from_claims claims a,
  claim_words_are_words (get "scope" claims) a,
  claim_words_are_words (get "scp" claims) a,
)

-- A scope is in the list that scopes_from_claims returns exactly if it is a word of the text claim
-- `scope` or of the text claim `scp`; each listed scope is non-empty and has no blank; and the list
-- is strictly ascending.
scopes_from_claims_lem :
    (claims : Dict Value)
    → ((a : String)
        → contains a (scopes_from_claims claims) ≡ (
            contains a (claim_words (get "scope" claims))
            || contains a (claim_words (get "scp" claims))))
      × ((a : String) → contains a (scopes_from_claims claims) ≡ true → is_word a ≡ true)
      × IsAscending (scopes_from_claims claims)
unfolding scopes_from_claims
scopes_from_claims_lem claims = (
  contains-scopes_from_claims claims,
  scope_is_word claims,
  sorted_set-IsAscending (claim_words (get "scope" claims) ++ claim_words (get "scp" claims)),
)

-- Whatever is written to the `roles` claim, the scopes of the token stay the same; and whatever is
-- written to `scope` and to `scp`, its roles stay the same.
pub roles_scopes_disjoint :
    (claims : Dict Value) (v w : Value)
    → (scopes_from_claims (store "roles" v claims) ≡ scopes_from_claims claims)
      × (roles_from_claims (store "scope" v (store "scp" w claims)) ≡ roles_from_claims claims)
unfolding scopes_from_claims roles_from_claims
roles_scopes_disjoint claims v w = (
  rw (
    get-store "scope" "roles" v claims (ne_str _ _ refl),
    get-store "scp" "roles" v claims (ne_str _ _ refl),
  ),
  rw (
    get-store "roles" "scope" v (store "scp" w claims) (ne_str _ _ refl),
    get-store "roles" "scp" w claims (ne_str _ _ refl),
  ),
)
