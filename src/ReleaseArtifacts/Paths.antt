-- ===== src/ReleaseArtifacts/Paths.antt =====
-- The paths that _safe_parts accepts, and the way back from the parts to a path.
use mcp_server_auth_template.ReleaseArtifacts.{
  slash_join, segments, split_slash, is_bad_part, is_slash,
}
use mcp_server_auth_template.Base.{
  All, Bool-cases, [], any, ap, arith, inl, inr, refl, ◌∷◌, List, String, eqb_iff, false, true, ◌≡◌,
}
use mcp_server_auth_template.Base.Text.{starts_with, has_infix}
use Prim.Native.Char.{Char, code}
use Prim.Native.String
use text.Mathlib.TextLemmas.{cons-append, nil-append}
use text.Mathlib.TextEquality.{Char-path}

-- A part that neither leaves its directory nor hides a separator.
pub record IsSafePart (part : String) : Type 0 where
  pub named : is_bad_part part ≡ false
  pub no_backslash : has_infix "\\" part ≡ false
  pub no_slash : has_infix "/" part ≡ false

slash_is : (c : Char) → is_slash c ≡ true → c ≡ "/"
slash_is c h = Char-path c "/" ((eqb_iff (code c) b'/').0 h)

join-cons :
    (c : Char) (p : String) (ps : List String)
    → slash_join (String.◌∷◌ c p ∷ ps) ≡ String.◌∷◌ c (slash_join (p ∷ ps))
unfolding slash_join
join-cons c p [] = refl
join-cons c p (q ∷ ps) = cons-append c p _

-- The parts of a path make the path again.
pub join-split_slash : (s : String) → slash_join (split_slash s) ≡ s
unfolding segments split_slash slash_join
join-split_slash String.[] = refl
join-split_slash (String.◌∷◌ c s) = elim (Bool-cases (is_slash c)) [
  | inl e ↦ rw (e, nil-append, cons-append, nil-append, join-split_slash s, slash_is c e) refl
  | inr e ↦ rw (e, join-cons, join-split_slash s) refl
]

-- No part has a slash.
pub segments-free :
    (s : String)
    → (has_infix "/" (segments s).0 ≡ false)
      × All (λ part. has_infix "/" part ≡ false) (segments s).1
unfolding segments split_slash has_infix starts_with
segments-free String.[] = (refl, tt)
segments-free (String.◌∷◌ c s) =
    let (first, others) = segments-free s in
    elim (Bool-cases (is_slash c)) [
      | inl e ↦ rw e (refl, (first, others))
      | inr e ↦ rw e (ground (arith, first), others)
    ]

segments-whole : (s : String) → has_infix "/" s ≡ false → segments s ≡ (s, [])
unfolding segments split_slash has_infix starts_with
segments-whole String.[] h = refl
segments-whole (String.◌∷◌ c s) h =
    let plain : is_slash c ≡ false = ground arith in
    rw (plain, segments-whole s (ground arith)) refl

segments-append :
    (p t : String)
    → has_infix "/" p ≡ false
    → segments (String.◌++◌ p (String.◌++◌ "/" t)) ≡ (p, split_slash t)
unfolding segments split_slash has_infix starts_with
segments-append String.[] t h = rw (nil-append, cons-append, nil-append) refl
segments-append (String.◌∷◌ c p) t h =
    let plain : is_slash c ≡ false = ground arith in
    rw (cons-append c p (String.◌++◌ "/" t), plain, segments-append p t (ground arith)) refl

pub split_slash-join :
    (p : String) (ps : List String)
    → All (λ part. has_infix "/" part ≡ false) (p ∷ ps)
    → split_slash (slash_join (p ∷ ps)) ≡ p ∷ ps
unfolding segments split_slash slash_join
split_slash-join p [] (h, rest) = rw (segments-whole p h) refl
split_slash-join p (q ∷ ps) (h, rest) =
    rw (segments-append p (slash_join (q ∷ ps)) h) (ap (λ xs. p ∷ xs) (split_slash-join q ps rest))

-- A backslash is in a path when it is in a part.
pub has_infix-parts : (s : String) → has_infix "\\" s ≡ any (has_infix "\\") (split_slash s)
unfolding segments split_slash has_infix starts_with
has_infix-parts String.[] = refl
has_infix-parts (String.◌∷◌ c s) = elim (Bool-cases (is_slash c)) [
  | inl e ↦ rw (e, slash_is c e) (has_infix-parts s)
  | inr e ↦ rw e (ground (arith, has_infix-parts s))
]
