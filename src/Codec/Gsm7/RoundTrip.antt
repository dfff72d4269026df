-- ===== src/Codec/Gsm7/RoundTrip.antt =====
-- A text that GSM-7 can express comes back from its septets.
use esp32_sms_gateway.Base.{
  ℕ, zero, suc, ◌+◌, ◌<◌, ◌≡◌, ap, sym, subst, ◌∙◌, false, none, some, [], ◌∷◌, ◌++◌, append-nil,
  append_assoc, length, length-append, Bytes, arith, IsText, IsChar, All-append_right, ltb,
  if◌then◌else◌, >>=-eq-some,
}
use esp32_sms_gateway.Codec.Utf8.{utf8_bytes, utf8_append, utf8_loop, utf8_each}
use esp32_sms_gateway.Codec.Utf8.Loop.{utf8_loop-eq-some}
use esp32_sms_gateway.Codec.Utf8.Canonical.{utf8_bytes-utf8_next}
use esp32_sms_gateway.Codec.Gsm7.Tables.{decode_from-gsm7_find}
use esp32_sms_gateway.Codec.Gsm7.{gsm7_find, encode_step, decode_from, gsm7_encode, gsm7_decode}

-- A step that has room appends the septets of the code point.
encode_step-eq-some :
    (capacity : ℕ) (out : Bytes) (cp : ℕ) {q : Bytes}
    → encode_step capacity out cp ≡ some q
    → (septets : Bytes) × (gsm7_find cp ≡ some septets) × (q ≡ out ++ septets)
encode_step-eq-some capacity out cp {q} h =
    let (septets, found, fits) =
      >>=-eq-some (gsm7_find cp)
        (λ p. if ltb capacity (length out + length p) then none else some (out ++ p)) h in
    (septets, found, ground arith)

pub utf8_append_room :
    (cp capacity : ℕ) (buffer : Bytes) {out : Bytes}
    → utf8_bytes cp ≡ some out
    → length buffer + length out < capacity
    → utf8_append cp capacity buffer ≡ some (buffer ++ out)
unfolding utf8_append
utf8_append_room cp capacity buffer e h = ground arith

abbrev ReadsBack : ℕ → Bytes → Bytes → Bytes → Bytes → Type 0
ReadsBack capacity out s done q =
    (septets : Bytes) × (q ≡ out ++ septets)
    × (decode_from false capacity septets done ≡ some (done ++ s))

-- One round of the encoder, undone by one round of the decoder.
ReadsBack-step :
    (capacity cp : ℕ) (out rest done q : Bytes) {p c : Bytes}
    → gsm7_find cp ≡ some p
    → utf8_bytes cp ≡ some c
    → length done + length (c ++ rest) < capacity
    → ReadsBack capacity (out ++ p) rest (done ++ c) q
    → ReadsBack capacity out (c ++ rest) done q
ReadsBack-step capacity cp out rest done q {p} {c} found bytes room (septets, split, reads) = (
  p ++ septets,
  split ∙ append_assoc out p septets,
  decode_from-gsm7_find cp capacity septets done found
      ∙ rw (utf8_append_room cp capacity done bytes (omega (arith, length-append c rest)))
          (reads ∙ ap some (append_assoc done c rest)),
)

encode_loop-ReadsBack :
    (room capacity fuel : ℕ) (s out done : Bytes) {q : Bytes}
    → IsText s
    → length done + length s < capacity
    → utf8_loop (encode_step room) fuel s out ≡ some q
    → ReadsBack capacity out s done q
unfolding utf8_loop decode_from
encode_loop-ReadsBack room capacity fuel [] out done {q} t fits h =
    ([], ground (arith, append-nil out), rw append-nil)
encode_loop-ReadsBack room capacity zero (c ∷ s) out done t fits h = cc
encode_loop-ReadsBack room capacity (suc fuel) (c ∷ s) out done {q} t fits h =
    let (cp, rest, out', read, stepped, looped) =
      utf8_loop-eq-some (encode_step room) fuel c s out h in
    let (p, found, grown) = encode_step-eq-some room out cp stepped in
    let (b, bytes, split, more) = utf8_bytes-utf8_next (c ∷ s) t read in
    subst (λ x. ReadsBack capacity out x done q) (sym split)
      (ReadsBack-step capacity cp out rest done q found bytes (omega (arith, ap length split)) (
        encode_loop-ReadsBack room capacity fuel rest (out ++ p) (done ++ b)
          (All-append_right IsChar b rest (subst IsText split t))
          (omega (arith, ap length split, length-append b rest, length-append done b))
          (subst (λ o. utf8_loop (encode_step room) fuel rest o ≡ some q) grown looped)))

-- Every text that sms_gsm7_encode accepts is what sms_gsm7_decode makes of the septets, given a
-- buffer that holds the text and its NUL.
pub gsm7_decode-gsm7_encode :
    (text : Bytes) (room capacity : ℕ) {septets : Bytes}
    → IsText text
    → length text < capacity
    → gsm7_encode (some text) room ≡ some septets
    → gsm7_decode septets capacity ≡ some text
unfolding gsm7_encode gsm7_decode utf8_each
gsm7_decode-gsm7_encode text room zero t fits h = elim fits [ ]
gsm7_decode-gsm7_encode text room (suc capacity) {septets} t fits h =
    let (q, same, reads) =
      encode_loop-ReadsBack room (suc capacity) (length text) text [] [] t (omega arith) h in
    rw same reads
