-- ===== src/Tests/Ota.antt =====
-- Versions and the update policy (tests/test_ota_version_policy.c).
use esp32_sms_gateway.Base.{
  ◌↔◌, ◌⊎◌, ◌≡◌, ◌≢◌, ◌≤◌, ◌↔◌, refl, false, Option, none, some, Bytes, codes, str_eq,
}
use esp32_sms_gateway.Ota.SemVer.{
  less, equal, parse_semver, semver_compare, compare_parsed, compare_numbers, or_else,
  compare_prerelease, compare_lists, compare_identifiers, identifier_numeric, memcmp, identifiers,
}
use esp32_sms_gateway.Ota.SemVer.Order.{flip_result, semver_compare_lem, semver_compare_refl}
use esp32_sms_gateway.Ota.Policy.{accept, Image, decide}
use esp32_sms_gateway.Ota.Policy.Accept.{MayFollow, decide-accept_iff, decide_no_return}

abbrev v : Bytes → Option Bytes
v text = some text

parse_v1 :
    parse_semver (v (codes "1.2.3-rc.1+build"))
    ≡ some (record { major = 1; minor = 2; patch = 3; pre = codes "rc.1" })
unfolding parse_semver identifiers
parse_v1 = refl

parse_leading_zero : parse_semver (v (codes "1.02.3")) ≡ none
unfolding parse_semver identifiers
parse_leading_zero = refl

compare_rc : semver_compare (v (codes "1.0.0-rc.2")) (v (codes "1.0.0-rc.10")) ≡ some less
unfolding semver_compare parse_semver compare_parsed compare_numbers or_else compare_prerelease
    compare_lists compare_identifiers identifier_numeric memcmp identifiers
compare_rc = refl

semver_compare_lem_example :
    (semver_compare (v (codes "1.0.0")) (v (codes "1.1.0"))
      ≡ flip_result (semver_compare (v (codes "1.1.0")) (v (codes "1.0.0"))))
    × ((semver_compare (v (codes "1.1.0")) (v (codes "1.0.0")) ≡ none)
        ↔ ((parse_semver (v (codes "1.1.0")) ≡ none) ⊎ (parse_semver (v (codes "1.0.0")) ≡ none)))
semver_compare_lem_example = semver_compare_lem (v (codes "1.1.0")) (v (codes "1.0.0"))

semver_compare_refl_run :
    semver_compare (v (codes "1.2.3-rc.1+build")) (v (codes "1.2.3-rc.1+build")) ≡ some equal
semver_compare_refl_run = semver_compare_refl (v (codes "1.2.3-rc.1+build")) parse_v1

abbrev old : Image
old = record { project = v (codes "gw"); version = v (codes "1.0.0"); secure_version = 0 }

abbrev new : Image
new = record { project = v (codes "gw"); version = v (codes "1.1.0"); secure_version = 0 }

decide-accept_iff_example : (decide old new false false ≡ accept) ↔ (
    (codes "gw" ≡ codes "gw")
    × (old.secure_version ≤ new.secure_version)
    × MayFollow false false (semver_compare new.version old.version))
decide-accept_iff_example = decide-accept_iff old new false false

decide_update : decide old new false false ≡ accept
unfolding decide str_eq semver_compare parse_semver compare_parsed compare_numbers or_else
    compare_prerelease
decide_update = refl

decide_no_return_example : decide new old false false ≢ accept
decide_no_return_example = decide_no_return old new decide_update
