-- ===== src/Ota/Policy.antt =====
-- ota_version_policy_decide of components/ota_service/ota_version_policy.c: which image may be installed.
pub mod Accept
use esp32_sms_gateway.Base.{
  ℕ, Bool, true, false, not, ◌&&◌, Option, none, some, ltb, if◌then◌else◌, Bytes, str_eq,
}
use esp32_sms_gateway.Ota.SemVer.{Comparison, less, equal, greater, semver_compare}

-- ota_version_decision_t
pub data Decision : Type 0 where
  accept reject_project reject_secure_version reject_format reject_reinstall reject_downgrade :
      Decision

-- strcmp of two names that may be NULL
abbrev pub same_name : Option Bytes → Option Bytes → Bool
same_name none candidate = false
same_name (some expected) none = false
same_name (some expected) (some candidate) = str_eq expected candidate

abbrev pub decide_order : Bool → Bool → Option Comparison → Decision
decide_order allow_reinstall allow_downgrade none = reject_format
decide_order allow_reinstall allow_downgrade (some equal) =
    if not allow_reinstall then reject_reinstall else accept
decide_order allow_reinstall allow_downgrade (some less) =
    if not allow_downgrade then reject_downgrade else accept
decide_order allow_reinstall allow_downgrade (some greater) = accept

-- A firmware image as the policy sees it.
pub record Image : Type 0 where
  pub project : Option Bytes
  pub version : Option Bytes
  pub secure_version : ℕ

-- ota_version_policy_decide: the image that runs (its project is the expected one), the candidate, and
-- the two allowances.
unfoldable pub decide : Image → Image → Bool → Bool → Decision
decide running candidate allow_reinstall allow_downgrade =
    if not (same_name running.project candidate.project)
    then reject_project
    else if ltb candidate.secure_version running.secure_version
    then reject_secure_version
    else decide_order allow_reinstall allow_downgrade
        (semver_compare candidate.version running.version)
