-- ===== src/Tests/Texts.antt =====
-- src/types.ts and src/protocol/reconciler.ts: the theorems on the texts of kinds and versions.
use cursor_setting_sync.Base.{◌≡◌, some}
use cursor_setting_sync.Base.Texts.{units}
use cursor_setting_sync.Protocol.Canonical.Base64.{
  is_canonical_base64_text, matches, is_canonical_base64_text-matches,
}
use cursor_setting_sync.Protocol.VersionId.{
  version_id, before_hash, after_hash, to_number, version_id_parts,
}

version_id_parts_example :
    (before_hash (version_id (units "f0") 12) ≡ units "f0")
    × (to_number (after_hash (version_id (units "f0") 12)) ≡ some 12)
version_id_parts_example = version_id_parts (units "f0") 12

is_canonical_base64_text-matches_example :
    is_canonical_base64_text (units "QUJD+w==") ≡ matches (units "QUJD+w==")
is_canonical_base64_text-matches_example = is_canonical_base64_text-matches (units "QUJD+w==")
