-- ===== src/ReleaseArtifacts/Metadata.antt =====
-- What accepted metadata state.
use mcp_server_auth_template.Base.{Option, String, ap, arith, eq_iff, none, not, some, true, ◌≡◌}
use mcp_server_auth_template.Base.Result.{ok, refuse_if-eq-ok, refuse_if-passes}
use mcp_server_auth_template.Http.{Bytes}
use mcp_server_auth_template.ReleaseArtifacts.{
  ProjectIdentity, matches_name, matches_version, name_mismatch, validate_metadata,
  version_mismatch,
}
use mcp_server_auth_template.ReleaseArtifacts.Wheel.{found_metadata}

version_is :
    (lower_str : String → String) (identity : ProjectIdentity) (o : Option String)
    → matches_version lower_str identity o ≡ true
    → o ≡ some identity.version
version_is lower_str identity none h = cc
version_is lower_str identity (some version) h = ap some ((eq_iff version identity.version).0 h)

pub validate_metadata-eq-ok :
    (lower_str : String → String) (parse : Bytes → Option String × Option String) (raw : Bytes)
    (identity : ProjectIdentity)
    → validate_metadata lower_str parse raw identity ≡ ok tt
    → (matches_name lower_str identity (parse raw).0 ≡ true)
      × ((parse raw).1 ≡ some identity.version)
unfolding validate_metadata
validate_metadata-eq-ok lower_str parse raw identity h =
    let (stated, h1) =
      refuse_if-eq-ok (not (matches_name lower_str identity (parse raw).0)) name_mismatch _ h in
    let versioned =
      refuse_if-passes (not (matches_version lower_str identity (parse raw).1)) version_mismatch
        h1 in
    (
      ground (arith, stated),
      version_is lower_str identity (parse raw).1 (ground (arith, versioned)),
    )

pub was_found :
    (metadata : Option Bytes) (raw : Bytes) → found_metadata metadata ≡ ok raw → metadata ≡ some raw
was_found none raw h = cc
was_found (some bytes) raw h = cc
