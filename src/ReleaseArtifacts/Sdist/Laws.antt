-- ===== src/ReleaseArtifacts/Sdist/Laws.antt =====
-- What an accepted source archive is.
use mcp_server_auth_template.Base.{
  length, All, Exists, List, Option, String, [], ap, arith, eq_iff, inl, inr, ltb, map, none, not,
  refl, some, true, ◌==◌, ◌∙◌, ◌∷◌, ◌≡◌, ◌≤◌, ◌⊎◌,
}
use mcp_server_auth_template.Base.Result.{>>=-eq-ok, ok, refuse_if-eq-ok}
use mcp_server_auth_template.Base.Sets.{contains, subset}
use mcp_server_auth_template.Base.Sets.Laws.{IsUnique, subset_sound}
use mcp_server_auth_template.Http.{Bytes}
use mcp_server_auth_template.ReleaseArtifacts.{
  ProjectIdentity, matches_name, max_archive_members, root_files_missing, source_missing,
  too_many_members, wrong_filename,
}
use mcp_server_auth_template.ReleaseArtifacts.Metadata.{validate_metadata-eq-ok, was_found}
use mcp_server_auth_template.ReleaseArtifacts.Names.{Unseen, Unseen-head}
use mcp_server_auth_template.ReleaseArtifacts.Sdist.{
  SdistScan, TarMember, allowed_sdist_root_files, sdist_member, sdist_members, validate_sdist,
}
use mcp_server_auth_template.ReleaseArtifacts.Sdist.Turn.{
  IsCleanMember, IsPackageInfo, IsSource, normalized_name, sdist_member-Turn,
}
use mcp_server_auth_template.ReleaseArtifacts.Sdist.Turns.{IsAt, scan_path}
use mcp_server_auth_template.ReleaseArtifacts.Wheel.{found_metadata, release_name}
use Prim.Native.String
use mathlib.Core.Path.{subst}

abbrev pub names_of : List TarMember → List String
names_of members = map normalized_name members

-- What the loop has checked of the members, and where its result comes from.
record Scanned (identity : ProjectIdentity) (scan after : SdistScan) (members : List TarMember)
    : Type 0 where
  pub clean : All (IsCleanMember identity) members
  pub distinct : IsUnique (names_of members)
  pub unseen : Unseen scan.seen (names_of members)
  pub root_origin :
      (file : String)
      → contains file after.root_files ≡ true
      → (contains file scan.root_files ≡ true) ⊎ Exists (λ m. IsAt identity m (file ∷ [])) members
  pub source_origin :
      after.source_seen ≡ true → (scan.source_seen ≡ true) ⊎ Exists (IsSource identity) members
  pub origin :
      (raw : Bytes)
      → after.metadata ≡ some raw
      → (scan.metadata ≡ some raw) ⊎ Exists (IsPackageInfo identity raw) members

-- What was there before, or comes from the first member or a later one.
trace :
    {P : Type 0} (Q : TarMember → Type 0) {M : Type 0} (m : TarMember) (members : List TarMember)
    → M ⊎ Exists Q members
    → (M → P ⊎ Q m)
    → P ⊎ Exists Q (m ∷ members)
trace Q m members (inl middle) back = elim (back middle) [
  | inl old ↦ inl old
  | inr here ↦ inr (inl here)
]
trace Q m members (inr later) back = inr (inr later)

sdist_members-Scanned :
    (identity : ProjectIdentity) (scan after : SdistScan) (members : List TarMember)
    → sdist_members identity scan members ≡ ok after
    → Scanned identity scan after members
unfolding sdist_members
sdist_members-Scanned identity scan after [] h =
    let same = scan_path (ok scan) refl h in
    record {
      clean = tt;
      distinct = tt;
      unseen = tt;
      root_origin = λ file e. inl (ap (λ s. contains file s.root_files) same ∙ e);
      source_origin = λ e. inl (ap (λ s. s.source_seen) same ∙ e);
      origin = λ raw e. inl (ap (λ s. s.metadata) same ∙ e);
    }
sdist_members-Scanned identity scan after (m ∷ members) h =
    let (middle, turned, later) =
      >>=-eq-ok (sdist_member identity scan m) (λ s. sdist_members identity s members) h in
    let turn = sdist_member-Turn identity scan middle m turned in
    let rest = sdist_members-Scanned identity middle after members later in
    let (head, others) =
      Unseen-head (normalized_name m) scan.seen (names_of members)
        (subst (λ seen. Unseen seen (names_of members)) turn.remembered rest.unseen) in
    record {
      clean = (turn.clean, rest.clean);
      distinct = (head, rest.distinct);
      unseen = (turn.fresh, others);
      root_origin = λ file e.
          trace (λ m. IsAt identity m (file ∷ [])) m members (rest.root_origin file e)
            (turn.root_origin file);
      source_origin =
          λ e. trace (IsSource identity) m members (rest.source_origin e) turn.source_origin;
      origin = λ raw e.
          trace (IsPackageInfo identity raw) m members (rest.origin raw e) (turn.origin raw);
    }

-- The source archive of the release: named for it, of at most the limit of members, each of them a
-- safe path below its root that is allowed there, a file or a directory and no link, no two of one
-- name, with each of the files that belong at its root, a file of the source, and metadata that
-- state the name and version.
pub record IsCleanSdist (lower_str : String → String)
    (parse : Bytes → Option String × Option String) (filename : String) (identity : ProjectIdentity)
    (members : List TarMember) : Type 0 where
  pub named : filename ≡ String.◌++◌ (release_name identity) ".tar.gz"
  pub bounded : length members ≤ max_archive_members
  pub clean : All (IsCleanMember identity) members
  pub distinct : IsUnique (names_of members)
  pub complete :
      (file : String)
      → contains file allowed_sdist_root_files ≡ true
      → Exists (λ m. IsAt identity m (file ∷ [])) members
  pub source : Exists (IsSource identity) members
  pub raw : Bytes
  pub metadata : Exists (IsPackageInfo identity raw) members
  pub name_stated : matches_name lower_str identity (parse raw).0 ≡ true
  pub version_stated : (parse raw).1 ≡ some identity.version

from_none : (file : String) {P : Type 0} → (contains file [] ≡ true) ⊎ P → P
unfolding contains
from_none file (inl none_yet) = cc
from_none file (inr found) = found

-- A source archive that validate_sdist accepts is a clean source archive of the release.
pub validate_sdist-IsCleanSdist :
    (lower_str : String → String) (parse : Bytes → Option String × Option String)
    (filename : String) (archive : Option (List TarMember)) (identity : ProjectIdentity)
    → validate_sdist lower_str parse filename archive identity ≡ ok tt
    → (members : List TarMember) × (archive ≡ some members)
      × IsCleanSdist lower_str parse filename identity members
unfolding validate_sdist
validate_sdist-IsCleanSdist lower_str parse filename none identity h =
    cc ((refuse_if-eq-ok (not (filename == _)) wrong_filename _ h).1)
validate_sdist-IsCleanSdist lower_str parse filename (some members) identity h =
    let (named, h1) =
      refuse_if-eq-ok (not (filename == String.◌++◌ (release_name identity) ".tar.gz"))
        wrong_filename _ h in
    let (bounded, h2) =
      refuse_if-eq-ok (ltb max_archive_members (length members)) too_many_members _ h1 in
    let (scan, scanned, h3) = >>=-eq-ok (sdist_members identity _ members) _ h2 in
    let run = sdist_members-Scanned identity _ scan members scanned in
    let (complete, h4) =
      refuse_if-eq-ok (not (subset allowed_sdist_root_files scan.root_files)) root_files_missing _
        h3 in
    let (present, h5) = refuse_if-eq-ok (not scan.source_seen) source_missing _ h4 in
    let (raw, found, h6) = >>=-eq-ok (found_metadata scan.metadata) _ h5 in
    let (stated, versioned) = validate_metadata-eq-ok lower_str parse raw identity h6 in
    (
      members,
      refl,
      record {
        named = (eq_iff filename _).0 (ground (arith, named));
        bounded = ground (arith, bounded);
        clean = run.clean;
        distinct = run.distinct;
        complete = λ file listed. from_none file (
            run.root_origin file (
              subset_sound allowed_sdist_root_files scan.root_files file (ground (arith, complete))
                listed));
        source = elim (run.source_origin (ground (arith, present))) [
          | inl none_yet ↦ cc
          | inr e ↦ e
        ];
        raw = raw;
        metadata = elim (run.origin raw (was_found scan.metadata raw found)) [
          | inl none_yet ↦ cc
          | inr e ↦ e
        ];
        name_stated = stated;
        version_stated = versioned;
      },
    )
