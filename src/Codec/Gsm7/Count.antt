-- ===== src/Codec/Gsm7/Count.antt =====
-- sms_gsm7_septet_count tells what sms_gsm7_encode needs.
use esp32_sms_gateway.Base.{
  ℕ, zero, suc, ◌+◌, ◌≤◌, ◌≡◌, refl, subst, ◌∙◌, some, [], ◌∷◌, ◌++◌, length, length-append, Bytes,
  arith, >>=-eq-some,
}
use esp32_sms_gateway.Codec.Utf8.Loop.{utf8_loop_round, utf8_loop-eq-some}
use esp32_sms_gateway.Codec.Utf8.{utf8_loop, utf8_each}
use esp32_sms_gateway.Codec.Gsm7.{
  gsm7_find, count_step, encode_step, gsm7_septet_count, gsm7_encode,
}

count_step-eq-some :
    (total cp : ℕ) {n : ℕ}
    → count_step total cp ≡ some n
    → (p : Bytes) × (gsm7_find cp ≡ some p) × (total + length p ≡ n)
count_step-eq-some total cp {n} h =
    let (p, found, sum) = >>=-eq-some (gsm7_find cp) (λ p. some (total + length p)) h in
    (p, found, ground arith)

count_loop-le :
    (fuel : ℕ) (s : Bytes) (total : ℕ) {n : ℕ}
    → utf8_loop count_step fuel s total ≡ some n
    → total ≤ n
unfolding utf8_loop
count_loop-le fuel [] total h = ground arith
count_loop-le zero (c ∷ s) total h = cc
count_loop-le (suc fuel) (c ∷ s) total h =
    let (cp, rest, total', _, stepped, looped) = utf8_loop-eq-some count_step fuel c s total h in
    let (p, _, sum) = count_step-eq-some total cp stepped in
    omega (arith, count_loop-le fuel rest total' looped)

encode_step_room :
    (capacity : ℕ) (out : Bytes) (cp : ℕ) {p : Bytes}
    → gsm7_find cp ≡ some p
    → length out + length p ≤ capacity
    → encode_step capacity out cp ≡ some (out ++ p)
encode_step_room capacity out cp found fits = rw found (ground arith)

-- The counting loop and the encoding loop in step, from any state.
count_loop-encode_loop :
    (capacity fuel : ℕ) (s out : Bytes) {n : ℕ}
    → utf8_loop count_step fuel s (length out) ≡ some n
    → n ≤ capacity
    → (q : Bytes) × (utf8_loop (encode_step capacity) fuel s out ≡ some q) × (length q ≡ n)
unfolding utf8_loop
count_loop-encode_loop capacity fuel [] out h fits = (out, refl, ground arith)
count_loop-encode_loop capacity zero (c ∷ s) out h fits = cc
count_loop-encode_loop capacity (suc fuel) (c ∷ s) out {n} h fits =
    let (cp, rest, total, read, stepped, looped) =
      utf8_loop-eq-some count_step fuel c s (length out) h in
    let (p, found, sum) = count_step-eq-some (length out) cp stepped in
    let grown : total ≡ length (out ++ p) = omega (arith, length-append out p) in
    let (q, encoded, size) =
      count_loop-encode_loop capacity fuel rest (out ++ p)
        (subst (λ t. utf8_loop count_step fuel rest t ≡ some n) grown looped) fits in
    let room =
      encode_step_room capacity out cp found
        (omega (arith, count_loop-le fuel rest total looped)) in
    (q, utf8_loop_round (encode_step capacity) fuel c s out read room ∙ encoded, size)

-- A counted text is encoded whenever there is room for the count, in exactly as many septets.
pub gsm7_encode-gsm7_septet_count :
    (text : Bytes) (capacity : ℕ) {n : ℕ}
    → gsm7_septet_count (some text) ≡ some n
    → n ≤ capacity
    → (q : Bytes) × (gsm7_encode (some text) capacity ≡ some q) × (length q ≡ n)
unfolding gsm7_septet_count gsm7_encode utf8_each
gsm7_encode-gsm7_septet_count text capacity h fits =
    count_loop-encode_loop capacity (length text) text [] h fits
