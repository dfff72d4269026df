-- ===== src/Store/Listing.antt =====
-- sms_store_list, sms_store_find_outbound_reference and sms_store_get_diagnostics of
-- components/sms_store/sms_store.c, which go through all slots.
pub mod Sorted
pub mod Listed
pub mod Replace
pub mod Complete
use esp32_sms_gateway.Base.{
  ℕ, zero, suc, ◌+◌, ◌-◌, ◌/◌, ◌%◌, ◌^◌, Bool, true, false, not, ◌&&◌, ◌||◌, Option, none, some,
  List, [], ◌∷◌, ◌++◌, ltb, leb, ◌==◌, if◌then◌else◌, Bytes, length, get_or, set, str_eq,
}
use esp32_sms_gateway.Store.Message.{Message, outbound, direction_code}
use esp32_sms_gateway.Store.Slots.{
  Error, invalid_arg, not_found, Outcome, ok, fail, Nvs, max_records, load_slot, and_then,
}
use esp32_sms_gateway.Store.Operations.{Store, text_of}

-- The inner loop of insertion_sort: the place of `current` behind all that have a lower id or the same.
-- The records in front of it are given from the last to the first.
unfoldable pub shift_back : Message → List Message → List Message
shift_back current [] = current ∷ []
shift_back current (last ∷ front) =
    let rest = shift_back current front in
    if ltb current.id last.id then last ∷ rest else current ∷ last ∷ front

unfoldable pub sort_onto : List Message → List Message → List Message
sort_onto sorted_back [] = sorted_back
sort_onto sorted_back (current ∷ rest) = sort_onto (shift_back current sorted_back) rest

unfoldable pub unwind : List Message → List Message → List Message
unwind [] out = out
unwind (m ∷ back) out = unwind back (m ∷ out)

-- insertion_sort: the sorted front grows by one record at a time.
unfoldable pub insertion_sort : List Message → List Message
unfolding sort_onto shift_back unwind
insertion_sort records = unwind (sort_onto [] records) []

-- The loop that looks for the highest id, from index `i` on: the first index that has it, and the id.
unfoldable pub highest_from : ℕ → ℕ → ℕ → List Message → ℕ × ℕ
highest_from index id i [] = (index, id)
highest_from index id i (m ∷ records) =
    let here = highest_from i m.id (i + 1) records in
    let before = highest_from index id (i + 1) records in if ltb id m.id then here else before

unfoldable pub replace_highest : Message → List Message → List Message
unfolding highest_from
replace_highest m [] = []
replace_highest m (r ∷ records) =
    let (highest, id) = highest_from 0 r.id 1 records in
    if ltb m.id id then set (r ∷ records) highest m else r ∷ records

-- One round of sms_store_list.
unfoldable pub collect : ℕ → ℕ → List Message → Option Message → List Message
unfolding replace_highest
collect after_id max records none = records
collect after_id max records (some m) =
    if leb m.id after_id
    then records
    else if ltb (length records) max
    then records ++ m ∷ []
    else replace_highest m records

-- The newest segment with a reference so far: the id, the slot and the index in the message.
unfoldable pub newest_segment : ℕ → ℕ → Message → ℕ → ℕ → Option (ℕ × ℕ × ℕ) → Option (ℕ × ℕ × ℕ)
newest_segment slot reference m zero i best = best
newest_segment slot reference m (suc segments) i none =
    newest_segment slot reference m segments (i + 1) (
      if m.segment_sent_mask / 2 ^ i % 2 == 1 && get_or m.modem_reference i 0 == reference
      then some (m.id, slot, i)
      else none)
newest_segment slot reference m (suc segments) i (some (id, at_slot, at_index)) =
    newest_segment slot reference m segments (i + 1) (
      if m.segment_sent_mask / 2 ^ i % 2 == 1
        && get_or m.modem_reference i 0 == reference
        && ltb id m.id
      then some (m.id, slot, i)
      else some (id, at_slot, at_index))

-- One round of sms_store_find_outbound_reference.
unfoldable pub newest_round :
    Bytes → ℕ → ℕ → Option (ℕ × ℕ × ℕ) → Option Message → Option (ℕ × ℕ × ℕ)
unfolding newest_segment
newest_round recipient reference slot best none = best
newest_round recipient reference slot best (some m) =
    if not (direction_code m.direction == direction_code outbound)
      || not (str_eq (text_of m.recipient) recipient)
    then best
    else newest_segment slot reference m m.segment_count 0 best

-- sms_store_diagnostics_t
pub record Diagnostics : Type 0 where
  pub pruned_records : ℕ
  pub capacity_failures : ℕ
  pub replay_watermark : ℕ
  pub replay_protection_enabled : Bool
  pub used_records : ℕ
  pub free_records : ℕ

unfoldable pub count_used : ℕ → Option Message → ℕ
count_used used none = used
count_used used (some m) = used + 1

module _ {S : Type 0} (nvs : Nvs S) where
  -- A loop over `slots` slots from `slot` on that keeps a variable, and stops at a failed read.
  unfoldable pub fold_from : {R : Type 0} → (ℕ → R → Option Message → R) → S → ℕ → ℕ → R → Outcome R
  unfolding and_then
  fold_from round s zero slot r = ok r
  fold_from round s (suc slots) slot r =
      and_then (load_slot nvs s slot) (λ o. fold_from round s slots (suc slot) (round slot r o))

  -- sms_store_list
  unfoldable pub list : Store S → ℕ → ℕ → Outcome (List Message)
  unfolding fold_from collect insertion_sort
  list st after_id max =
      if not st.initialized || max == 0
      then fail invalid_arg
      else and_then (fold_from (λ slot. collect after_id max) st.nvs_state max_records 0 [])
          (λ records. ok (insertion_sort records))

  abbrev pub reload_newest : S → Option (ℕ × ℕ × ℕ) → Outcome (Option Message × ℕ)
  reload_newest s none = fail not_found
  reload_newest s (some (id, slot, index)) = and_then (load_slot nvs s slot) (λ o. ok (o, index))

  -- sms_store_find_outbound_reference
  unfoldable pub find_outbound_reference : Store S → Bytes → ℕ → Outcome (Option Message × ℕ)
  unfolding fold_from newest_round
  find_outbound_reference st recipient modem_reference =
      if not st.initialized
      then fail invalid_arg
      else and_then
          (fold_from (newest_round recipient modem_reference) st.nvs_state max_records 0 none)
          (reload_newest st.nvs_state)

  -- sms_store_get_diagnostics
  unfoldable pub get_diagnostics : Store S → Outcome Diagnostics
  unfolding fold_from count_used
  get_diagnostics st =
      if not st.initialized
      then fail invalid_arg
      else and_then (fold_from (λ slot. count_used) st.nvs_state max_records 0 0) (λ used.
        ok (record {
          pruned_records = st.pruned_records;
          capacity_failures = st.capacity_failures;
          replay_watermark = st.replay_watermark;
          replay_protection_enabled = st.replay_protection_enabled;
          used_records = used;
          free_records = max_records - used;
        }))
