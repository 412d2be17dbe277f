-- ===== src/ReleaseArtifacts/Safety.antt =====
-- What _safe_parts accepts, and that paths and their parts are two forms of the same.
use mcp_server_auth_template.ReleaseArtifacts.{
  slash_join, is_bad_part, is_slash, is_unsafe, safe_parts, segments, split_slash, without_slash,
}
use mcp_server_auth_template.Base.{
  Bool, eq_iff, true, ◌==◌, All, Bool-cases, List, String, [], any, ap, arith, false, inl, inr,
  refl, sym, ◌∙◌, ◌∷◌, ◌≡◌,
}
use mcp_server_auth_template.Base.Sets.{contains}
use mcp_server_auth_template.Base.Text.{drop, nth_char, ends_with, has_infix, is_empty, starts_with}
use mcp_server_auth_template.ReleaseArtifacts.Paths.{
  has_infix-parts, segments-free, split_slash-join, IsSafePart, join-split_slash,
}
use Prim.Native.Char.{Char}
use mathlib.Core.Path.{subst}
use mcp_server_auth_template.Base.Result.{ok}

first-named :
    (s : String)
    → is_empty (segments s).0 ≡ false
    → (is_empty s ≡ false) × (starts_with s "/" ≡ false)
unfolding segments split_slash starts_with
first-named String.[] h = cc
first-named (String.◌∷◌ c s) h = elim (Bool-cases (is_slash c)) [
  | inl e ↦ cc (rw e at h)
  | inr e ↦ (refl, ground (arith, e))
]

later_named :
    (c : Char) (s : String)
    → any is_empty (segments (String.◌∷◌ c s)).1 ≡ false
    → any is_empty (segments s).1 ≡ false
unfolding segments split_slash
later_named c s h = elim (Bool-cases (is_slash c)) [
  | inl e ↦ ground (arith, rw e at h)
  | inr e ↦ rw e at h
]

slash_alone :
    (c : Char) (s : String) → (String.◌∷◌ c s == "/") ≡ true → (is_slash c ≡ true) × (s ≡ String.[])
slash_alone c s h =
    let same : String.◌∷◌ c s ≡ "/" = (eq_iff (String.◌∷◌ c s) "/").0 h in
    (ap (λ t. is_slash (nth_char 0 t c)) same, ap (drop 1) same)

-- A path whose parts behind the first are named does not end in a slash.
ends_with-named : (s : String) → any is_empty (segments s).1 ≡ false → ends_with s "/" ≡ false
unfolding segments split_slash ends_with
ends_with-named String.[] h = refl
ends_with-named (String.◌∷◌ c s) h = elim (Bool-cases (String.◌∷◌ c s == "/")) [
  | inl e ↦ let (slash, nothing) = slash_alone c s e in cc (rw (slash, nothing) at h)
  | inr e ↦ rw e (ends_with-named s (later_named c s h))
]

none_of {ℓ} :
    {A : Type ℓ} (test : A → Bool) (x : A) (xs : List A)
    → any test (x ∷ xs) ≡ false
    → (test x ≡ false) × (any test xs ≡ false)
none_of test x xs h = (ground arith, ground arith)

not_bad : (part : String) → is_bad_part part ≡ false → is_empty part ≡ false
unfolding is_bad_part contains
not_bad String.[] h = cc
not_bad (String.◌∷◌ c s) h = refl

none_empty : (parts : List String) → any is_bad_part parts ≡ false → any is_empty parts ≡ false
none_empty [] h = refl
none_empty (p ∷ ps) h = ground (arith, not_bad p, none_empty ps)

-- The first two tests follow from that of the parts.
is_unsafe_complete :
    (clean : String)
    → any is_bad_part (split_slash clean) ≡ false
    → any (has_infix "\\") (split_slash clean) ≡ false
    → is_unsafe clean (split_slash clean) ≡ false
unfolding is_unsafe segments split_slash
is_unsafe_complete clean named plain =
    let (full, relative) = first-named clean (
      not_bad (segments clean).0
        (none_of is_bad_part (segments clean).0 (segments clean).1 named).0) in
    ground (arith, full, relative, has_infix-parts clean)

gather_safety :
    (parts : List String)
    → any is_bad_part parts ≡ false
    → any (has_infix "\\") parts ≡ false
    → All (λ part. has_infix "/" part ≡ false) parts
    → All IsSafePart parts
gather_safety [] named plain free = tt
gather_safety (p ∷ ps) named plain (first, free) = (
  record { named = ground arith; no_backslash = ground arith; no_slash = first },
  gather_safety ps (ground arith) (ground arith) free,
)

spread_safety :
    (parts : List String)
    → All IsSafePart parts
    → (any is_bad_part parts ≡ false)
      × (any (has_infix "\\") parts ≡ false)
      × All (λ part. has_infix "/" part ≡ false) parts
spread_safety [] h = (refl, refl, tt)
spread_safety (p ∷ ps) (first, rest) =
    let (named, plain, free) = spread_safety ps rest in
    (
      ground (arith, first.named, named),
      ground (arith, first.no_backslash, plain),
      (first.no_slash, free),
    )

pub safe_parts_sound :
    (name : String) (parts : List String)
    → safe_parts name ≡ ok parts
    → (slash_join parts ≡ without_slash name) × All IsSafePart parts
unfolding safe_parts is_unsafe
safe_parts_sound name parts h =
    let clean = without_slash name in
    elim (Bool-cases (is_unsafe clean (split_slash clean))) [
      | inl e ↦ cc (rw e at h)
      | inr e ↦
          let same : split_slash clean ≡ parts = ground (arith, h, e) in
          subst (λ xs. (slash_join xs ≡ clean) × All IsSafePart xs) same
            (
              join-split_slash clean,
              gather_safety (split_slash clean) (ground arith)
                  (ground (arith, has_infix-parts clean)) (segments-free clean),
            )
    ]

safe_parts_complete :
    (name p : String) (ps : List String)
    → slash_join (p ∷ ps) ≡ without_slash name
    → All IsSafePart (p ∷ ps)
    → safe_parts name ≡ ok (p ∷ ps)
unfolding safe_parts
safe_parts_complete name p ps h safe =
    let (named, plain, free) = spread_safety (p ∷ ps) safe in
    let same : split_slash (without_slash name) ≡ p ∷ ps =
      ap split_slash (sym h) ∙ split_slash-join p ps free in
    let accepted =
      is_unsafe_complete (without_slash name) (ap (any is_bad_part) same ∙ named)
        (ap (any (has_infix "\\")) same ∙ plain) in
    rw (accepted, same) refl

without_slash-join :
    (p : String) (ps : List String)
    → All IsSafePart (p ∷ ps)
    → without_slash (slash_join (p ∷ ps)) ≡ slash_join (p ∷ ps)
unfolding without_slash segments split_slash
without_slash-join p ps safe =
    let (named, plain, free) = spread_safety (p ∷ ps) safe in
    let split = split_slash-join p ps free in
    let full : any is_empty (split_slash (slash_join (p ∷ ps))) ≡ false =
      ap (any is_empty) split ∙ none_empty (p ∷ ps) named in
    let parts = segments (slash_join (p ∷ ps)) in
    rw (ends_with-named (slash_join (p ∷ ps)) (none_of is_empty parts.0 parts.1 full).1) refl

-- Safe parts, joined to a path, are read back as they were.
pub safe_parts-slash_join :
    (p : String) (ps : List String)
    → All IsSafePart (p ∷ ps)
    → safe_parts (slash_join (p ∷ ps)) ≡ ok (p ∷ ps)
safe_parts-slash_join p ps safe =
    safe_parts_complete (slash_join (p ∷ ps)) p ps (sym (without_slash-join p ps safe)) safe
