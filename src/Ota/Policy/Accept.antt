-- ===== src/Ota/Policy/Accept.antt =====
-- When an image is accepted, and that no accepted update is followed by one back.
use esp32_sms_gateway.Base.{
  ℕ, not, ltb, if◌then◌else◌, Bool-cases, ◌≤◌, ◌≡◌, ◌≢◌, ◌↔◌, inl, inr, refl, Bool, true, false,
  Option, none, some, Bytes, arith, str_eq_iff,
}
use esp32_sms_gateway.Ota.SemVer.{Comparison, less, equal, greater, semver_compare}
use esp32_sms_gateway.Ota.SemVer.Order.{flip-semver_compare, flip_result}
use esp32_sms_gateway.Ota.Policy.{
  Decision, accept, reject_project, reject_secure_version, same_name, decide_order, Image, decide,
}

-- The candidate may follow the running version.
abbrev pub MayFollow : Bool → Bool → Option Comparison → Type 0
MayFollow allow_reinstall allow_downgrade none = ⊥
MayFollow allow_reinstall allow_downgrade (some greater) = Unit
MayFollow allow_reinstall allow_downgrade (some equal) = allow_reinstall ≡ true
MayFollow allow_reinstall allow_downgrade (some less) = allow_downgrade ≡ true

abbrev pub SameProject : Option Bytes → Option Bytes → Type 0
SameProject none candidate = ⊥
SameProject (some expected) none = ⊥
SameProject (some expected) (some candidate) = expected ≡ candidate

same_name_iff : (a b : Option Bytes) → (same_name a b ≡ true) ↔ SameProject a b
same_name_iff none b = ground arith
same_name_iff (some a) none = ground arith
same_name_iff (some a) (some b) = ground (arith, str_eq_iff a b)

decide_order_iff :
    (reinstall downgrade : Bool) (c : Option Comparison)
    → (decide_order reinstall downgrade c ≡ accept) ↔ MayFollow reinstall downgrade c
decide_order_iff r d none = ground arith
decide_order_iff r d (some less) = ground arith
decide_order_iff r d (some equal) = ground arith
decide_order_iff r d (some greater) = ground arith

guards_iff :
    {P Q : Type 0} (same : Bool) (running candidate : ℕ) (d : Decision)
    → (same ≡ true) ↔ P
    → (d ≡ accept) ↔ Q
    → ((if not same
          then reject_project
          else if ltb candidate running
          then reject_secure_version
          else d)
        ≡ accept)
      ↔ (P × (running ≤ candidate) × Q)
guards_iff false running candidate d p q = (λ h. cc, λ h. cc (p.1 h.0))
guards_iff true running candidate d p q = elim (Bool-cases (ltb candidate running)) [
  | inl low ↦ rw low (λ h. cc, λ h. absurd (ground arith))
  | inr high ↦ rw high (λ h. (p.0 refl, ground arith, q.0 h), λ h. q.1 h.2)
]

-- An image is accepted exactly if it is of the same project, its secure version is not lower, and its
-- version is a version and newer than the running one, or equal or older where that is allowed.
pub decide-accept_iff :
    (running candidate : Image) (allow_reinstall allow_downgrade : Bool)
    → (decide running candidate allow_reinstall allow_downgrade ≡ accept) ↔ (
        SameProject running.project candidate.project
        × (running.secure_version ≤ candidate.secure_version)
        × MayFollow allow_reinstall allow_downgrade
            (semver_compare candidate.version running.version))
unfolding decide
decide-accept_iff running candidate r d =
    guards_iff (same_name running.project candidate.project) running.secure_version
      candidate.secure_version (decide_order r d (semver_compare candidate.version running.version))
      (same_name_iff running.project candidate.project)
      (decide_order_iff r d (semver_compare candidate.version running.version))

not_both :
    (c : Option Comparison) → MayFollow false false c → MayFollow false false (flip_result c) → ⊥
not_both none h k = h
not_both (some less) h k = cc
not_both (some equal) h k = cc
not_both (some greater) h k = cc

-- With no allowance, an update that was accepted cannot be undone by another: the image that it
-- replaced is not accepted over it.
pub decide_no_return :
    (old new : Image) → decide old new false false ≡ accept → decide new old false false ≢ accept
decide_no_return old new h k =
    not_both (semver_compare new.version old.version)
      ((decide-accept_iff old new false false).0 h).2
      (rw flip-semver_compare at (((decide-accept_iff new old false false).0 k).2))
