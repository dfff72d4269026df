-- ===== src/Store/Operations/Oldest.antt =====
-- sms_store_find_status gives the oldest record of a status.
use esp32_sms_gateway.Base.{
  ℕ, ◌≤◌, ◌<◌, ◌≡◌, sym, ap, ◌∙◌, Bool, true, false, not, Option, none, some, arith, ◌==◌,
  Bool-cases, if◌then◌else◌, inl, inr,
}
use esp32_sms_gateway.Store.Message.{Message, Status, status_code, status_of}
use esp32_sms_gateway.Store.Message.RoundTrip.{status_of_code}
use esp32_sms_gateway.Store.Slots.{Outcome, ok, Nvs, load_slot, lowest_from, max_records}
use esp32_sms_gateway.Store.Slots.Lowest.{
  and_then-eq-ok, Holds, AtMost, lowest_from-Holds, lowest_from-AtMost_any,
}
use esp32_sms_gateway.Store.Operations.{Store, find_status, reload_best}

status_code_injective : (a b : Status) → (status_code a == status_code b) ≡ true → a ≡ b
status_code_injective a b h =
    let same : status_code a ≡ status_code b = ground arith in
    sym (status_of_code a) ∙ ap status_of same ∙ status_of_code b

module _ {S : Type 0} (nvs : Nvs S) where
  -- What a lookup by status gives has the status, and no record with the status has a lower id.
  pub find_status_oldest :
      (st : Store S) (status : Status) (i : ℕ) (other : Message) {o : Option Message}
      → i < max_records
      → load_slot nvs st.nvs_state i ≡ ok (some other)
      → other.status ≡ status
      → find_status nvs st status ≡ ok o
      → (m : Message) × (o ≡ some m) × (m.status ≡ status) × (m.id ≤ other.id)
  unfolding find_status
  find_status_oldest st status i other {o} small loaded kind h = elim (Bool-cases st.initialized) [
    | inr closed ↦ cc (rw closed at h)
    | inl opened ↦
        let (best, looped, it) =
          and_then-eq-ok
            (lowest_from nvs (λ m. status_code m.status == status_code status) st.nvs_state
              max_records 0 none)
            (reload_best nvs st.nvs_state) (started st.initialized _ _ opened h) in
        by_best best it
          (lowest_from-Holds nvs (λ m. status_code m.status == status_code status) st.nvs_state
            max_records 0 none (omega arith) looped)
          (lowest_from-AtMost_any nvs (λ m. status_code m.status == status_code status) st.nvs_state
            max_records 0 i none other (omega arith) (omega arith) loaded (rw kind (ground arith))
            looped)
  ]
    where
      started :
          (open' : Bool) (z y : Outcome (Option Message))
          → open' ≡ true
          → (if not open' then z else y) ≡ ok o
          → y ≡ ok o
      started true z y h k = k
      started false z y h k = cc

      by_best :
          (best : Option (ℕ × ℕ))
          → reload_best nvs st.nvs_state best ≡ ok o
          → Holds nvs (λ m. status_code m.status == status_code status) st.nvs_state best
          → AtMost best other.id
          → (m : Message) × (o ≡ some m) × (m.status ≡ status) × (m.id ≤ other.id)
      by_best none it held low = cc
      by_best (some (id, slot)) it (m, read, passes, named) low =
          (m, cc, status_code_injective m.status status passes, omega (arith, named, low))
