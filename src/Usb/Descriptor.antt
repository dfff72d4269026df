-- ===== src/Usb/Descriptor.antt =====
-- components/usb_modem_transport/usb_modem_descriptor.c. The descriptor is the list of its bytes, and a
-- cursor the bytes from it on: `cursor + length > end` says that fewer than `length` are left.
pub mod Candidates
pub mod Sort
use esp32_sms_gateway.Base.{
  ℕ, zero, suc, ◌+◌, ◌/◌, ◌%◌, Bool, true, false, not, ◌&&◌, ◌||◌, Option, none, some, List, [],
  ◌∷◌, ◌++◌, length, get_or, drop, ltb, leb, ◌==◌, if◌then◌else◌, Bytes,
}

-- modem_usb_candidate_t
pub record Candidate : Type 0 where
  pub interface_number : ℕ
  pub interface_class : ℕ
  pub interface_subclass : ℕ
  pub interface_protocol : ℕ
  pub bulk_in_ep : ℕ
  pub bulk_out_ep : ℕ
  pub interrupt_in_ep : ℕ
  pub score : ℕ

abbrev pub vendor_specific : ℕ
vendor_specific = 0xFF

-- candidate_score; its largest value is 120, so a uint8_t holds it.
unfoldable pub candidate_score : Candidate → ℕ
candidate_score c =
    10
    + (if c.interface_protocol == 0x01 then 100 else if c.interface_protocol == 0x12 then 50 else 0)
    + (if not (c.interrupt_in_ep == 0) then 10 else 0)

-- The inner loop of sort_candidates: the place of `current` behind all that score as much or more.
-- The candidates in front of it are given from the last to the first.
unfoldable pub insert_back : Candidate → List Candidate → List Candidate
insert_back current [] = current ∷ []
insert_back current (last ∷ front) =
    let rest = insert_back current front in
    if ltb last.score current.score then last ∷ rest else current ∷ last ∷ front

unfoldable pub sort_from : List Candidate → List Candidate → List Candidate
sort_from sorted_back [] = sorted_back
sort_from sorted_back (current ∷ rest) = sort_from (insert_back current sorted_back) rest

unfoldable pub reverse_onto : List Candidate → List Candidate → List Candidate
reverse_onto [] out = out
reverse_onto (c ∷ back) out = reverse_onto back (c ∷ out)

-- sort_candidates: the sorted front grows by one candidate at a time.
unfoldable pub sort_candidates : List Candidate → List Candidate
unfolding sort_from insert_back reverse_onto
sort_candidates candidates = reverse_onto (sort_from [] candidates) []

-- add_candidate
unfoldable pub add_candidate : ℕ → List Candidate → Candidate → List Candidate
unfolding candidate_score
add_candidate max_candidates candidates c =
    if not (c.interface_class == vendor_specific)
      || c.bulk_in_ep == 0
      || c.bulk_out_ep == 0
      || leb max_candidates (length candidates)
    then candidates
    else candidates ++ record c { score = candidate_score c } ∷ []

-- The variables of the loop of modem_usb_find_serial_candidates.
pub record Scan : Type 0 where
  pub candidates : List Candidate
  pub current : Candidate
  pub collecting : Bool

abbrev pub no_candidate : Candidate
no_candidate = record {
  interface_number = 0;
  interface_class = 0;
  interface_subclass = 0;
  interface_protocol = 0;
  bulk_in_ep = 0;
  bulk_out_ep = 0;
  interrupt_in_ep = 0;
  score = 0;
}

-- if (collecting) add_candidate(...)
unfoldable pub flush : ℕ → Scan → List Candidate
flush max_candidates s =
    if s.collecting then add_candidate max_candidates s.candidates s.current else s.candidates

-- The branch for an interface descriptor.
unfoldable pub open_interface : ℕ → Scan → Bytes → Scan
unfolding flush
open_interface max_candidates s d = record {
  candidates = flush max_candidates s;
  current = record no_candidate {
    interface_number = get_or d 2 0;
    interface_class = get_or d 5 0;
    interface_subclass = get_or d 6 0;
    interface_protocol = get_or d 7 0;
  };
  collecting = get_or d 3 0 == 0 && get_or d 5 0 == vendor_specific;
}

-- The branch for an endpoint descriptor, by its address and its attributes: bits 0 and 1 of these are
-- the transfer type, and bit 7 of the address is the direction.
unfoldable pub note_endpoint : Candidate → ℕ → ℕ → Candidate
note_endpoint c address attributes =
    if attributes % 4 == 2
    then (if address / 128 % 2 == 1
        then record c { bulk_in_ep = address }
        else record c { bulk_out_ep = address })
    else if attributes % 4 == 3 && address / 128 % 2 == 1
    then record c { interrupt_in_ep = address }
    else c

-- One round of the loop, on a descriptor of `len` bytes and type `kind` at the cursor.
unfoldable pub visit : ℕ → Scan → ℕ → ℕ → Bytes → Scan
unfolding open_interface note_endpoint
visit max_candidates s len kind d =
    if kind == 0x04 && leb 9 len
    then open_interface max_candidates s d
    else if kind == 0x05 && leb 7 len && s.collecting
    then record s { current = note_endpoint s.current (get_or d 2 0) (get_or d 3 0) }
    else s

-- The loop, on fuel: a round takes two bytes at least.
unfoldable pub walk : ℕ → ℕ → Scan → Bytes → Scan
walk fuel max_candidates s [] = s
walk fuel max_candidates s (len ∷ []) = s
walk zero max_candidates s (len ∷ kind ∷ d) = s
walk (suc fuel) max_candidates s (len ∷ kind ∷ d) =
    let rest =
      walk fuel max_candidates (visit max_candidates s len kind (len ∷ kind ∷ d))
        (drop len (len ∷ kind ∷ d)) in
    if ltb len 2 || ltb (length (len ∷ kind ∷ d)) len then s else rest

-- modem_usb_find_serial_candidates; `none` is a NULL descriptor.
unfoldable pub find_serial_candidates : Option Bytes → ℕ → List Candidate
unfolding walk flush sort_candidates
find_serial_candidates none max_candidates = []
find_serial_candidates (some descriptor) zero = []
find_serial_candidates (some descriptor) (suc m) =
    let s =
      walk (length descriptor) (suc m)
        (record { candidates = []; current = no_candidate; collecting = false }) descriptor in
    sort_candidates (flush (suc m) s)
