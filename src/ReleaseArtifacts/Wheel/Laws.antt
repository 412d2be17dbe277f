-- ===== src/ReleaseArtifacts/Wheel/Laws.antt =====
-- What an accepted wheel is.
use mcp_server_auth_template.ReleaseArtifacts.Metadata.{validate_metadata-eq-ok, was_found}
use mcp_server_auth_template.Base.{
  length, All, Bool-cases, Exists, List, Option, String, [], any, ap, arith, eq_iff, inl, inr, ltb,
  map, none, not, refl, some, sym, true, ◌==◌, ◌∙◌, ◌∷◌, ◌≡◌, ◌≤◌, ◌⊎◌,
}
use mcp_server_auth_template.ReleaseArtifacts.Names.{Unseen, Unseen-head}
use mcp_server_auth_template.Base.Result.{>>=-eq-ok, ok, refuse_if-eq-ok}
use mcp_server_auth_template.Base.Sets.Laws.{IsUnique}
use mcp_server_auth_template.Http.{Bytes}
use mcp_server_auth_template.ReleaseArtifacts.{
  ProjectIdentity, content_missing, matches_name, max_archive_members, too_many_members,
  wrong_filename,
}
use mcp_server_auth_template.ReleaseArtifacts.Wheel.{
  WheelScan, ZipMember, found_metadata, in_module, release_name, validate_wheel, wheel_member,
  wheel_members,
}
use mcp_server_auth_template.ReleaseArtifacts.Wheel.Turns.{
  IsCleanMember, IsMetadataOf, normalized_name, ok_path, wheel_member-Turn,
}
use Prim.Native.String
use mathlib.Core.Path.{subst}

abbrev pub names_of : List ZipMember → List String
names_of members = map normalized_name members

-- What the loop has checked of the members, and where its result comes from.
record Scanned (identity : ProjectIdentity) (scan after : WheelScan) (members : List ZipMember)
    : Type 0 where
  pub clean : All (IsCleanMember identity) members
  pub distinct : IsUnique (names_of members)
  pub unseen : Unseen scan.seen (names_of members)
  pub origin :
      (raw : Bytes)
      → after.metadata ≡ some raw
      → (scan.metadata ≡ some raw) ⊎ Exists (IsMetadataOf identity raw) members
  pub content :
      any (in_module identity) after.seen ≡ true
      → (any (in_module identity) scan.seen ≡ true)
        ⊎ Exists (λ m. in_module identity (normalized_name m) ≡ true) members

wheel_members-Scanned :
    (identity : ProjectIdentity) (scan after : WheelScan) (members : List ZipMember)
    → wheel_members identity scan members ≡ ok after
    → Scanned identity scan after members
unfolding wheel_members
wheel_members-Scanned identity scan after [] h =
    let same = ok_path (ok scan) refl h in
    record {
      clean = tt;
      distinct = tt;
      unseen = tt;
      origin = λ raw e. inl (ap (λ s. s.metadata) same ∙ e);
      content = λ e. inl (ap (λ s. any (in_module identity) s.seen) same ∙ e);
    }
wheel_members-Scanned identity scan after (m ∷ members) h =
    let (middle, turned, later) =
      >>=-eq-ok (wheel_member identity scan m) (λ s. wheel_members identity s members) h in
    let turn = wheel_member-Turn identity scan middle m turned in
    let rest = wheel_members-Scanned identity middle after members later in
    let (head, others) =
      Unseen-head (normalized_name m) scan.seen (names_of members)
        (subst (λ seen. Unseen seen (names_of members)) turn.remembered rest.unseen) in
    record {
      clean = (turn.clean, rest.clean);
      distinct = (head, rest.distinct);
      unseen = (turn.fresh, others);
      origin = λ raw e. elim (rest.origin raw e) [
        | inl before ↦ elim (turn.origin raw before) [
          | inl old ↦ inl old
          | inr here ↦ inr (inl here)
        ]
        | inr found ↦ inr (inr found)
      ];
      content = λ e. elim (rest.content e) [
        | inl before ↦
            in_head identity m scan.seen members
              (ap (any (in_module identity)) (sym turn.remembered) ∙ before)
        | inr found ↦ inr (inr found)
      ];
    }
  where
    in_head :
        (identity : ProjectIdentity) (m : ZipMember) (seen : List String) (members : List ZipMember)
        → any (in_module identity) (normalized_name m ∷ seen) ≡ true
        → (any (in_module identity) seen ≡ true)
          ⊎ Exists (λ m. in_module identity (normalized_name m) ≡ true) (m ∷ members)
    in_head identity m seen members e = elim (Bool-cases (in_module identity (normalized_name m))) [
      | inl here ↦ inr (inl here)
      | inr there ↦ inl (rw there at e)
    ]

-- The wheel of the release: named for it, of at most the limit of members, each of them safe, regular
-- and in the package or its metadata, no two of one name, with something in the package, and with
-- metadata that state the name and version.
pub record IsCleanWheel (lower_str : String → String)
    (parse : Bytes → Option String × Option String) (filename : String) (identity : ProjectIdentity)
    (members : List ZipMember) : Type 0 where
  pub named : filename ≡ String.◌++◌ (release_name identity) "-py3-none-any.whl"
  pub bounded : length members ≤ max_archive_members
  pub clean : All (IsCleanMember identity) members
  pub distinct : IsUnique (names_of members)
  pub content : Exists (λ m. in_module identity (normalized_name m) ≡ true) members
  pub raw : Bytes
  pub metadata : Exists (IsMetadataOf identity raw) members
  pub name_stated : matches_name lower_str identity (parse raw).0 ≡ true
  pub version_stated : (parse raw).1 ≡ some identity.version

-- A wheel that validate_wheel accepts is a clean wheel of the release.
pub validate_wheel-IsCleanWheel :
    (lower_str : String → String) (parse : Bytes → Option String × Option String)
    (filename : String) (archive : Option (List ZipMember)) (identity : ProjectIdentity)
    → validate_wheel lower_str parse filename archive identity ≡ ok tt
    → (members : List ZipMember) × (archive ≡ some members)
      × IsCleanWheel lower_str parse filename identity members
unfolding validate_wheel
validate_wheel-IsCleanWheel lower_str parse filename none identity h =
    cc ((refuse_if-eq-ok (not (filename == _)) wrong_filename _ h).1)
validate_wheel-IsCleanWheel lower_str parse filename (some members) identity h =
    let (named, h1) =
      refuse_if-eq-ok (not (filename == String.◌++◌ (release_name identity) "-py3-none-any.whl"))
        wrong_filename _ h in
    let (bounded, h2) =
      refuse_if-eq-ok (ltb max_archive_members (length members)) too_many_members _ h1 in
    let (scan, scanned, h3) = >>=-eq-ok (wheel_members identity _ members) _ h2 in
    let run = wheel_members-Scanned identity _ scan members scanned in
    let (raw, found, h4) = >>=-eq-ok (found_metadata scan.metadata) _ h3 in
    let (present, h5) =
      refuse_if-eq-ok (not (any (in_module identity) scan.seen)) content_missing _ h4 in
    let (stated, versioned) = validate_metadata-eq-ok lower_str parse raw identity h5 in
    (
      members,
      refl,
      record {
        named = (eq_iff filename _).0 (ground (arith, named));
        bounded = ground (arith, bounded);
        clean = run.clean;
        distinct = run.distinct;
        content = elim (run.content (ground (arith, present))) [ inl none_yet ↦ cc | inr e ↦ e ];
        raw = raw;
        metadata = elim (run.origin raw (was_found scan.metadata raw found)) [
          | inl none_yet ↦ cc
          | inr e ↦ e
        ];
        name_stated = stated;
        version_stated = versioned;
      },
    )
