-- ===== src/Codec/Segments/Texts.antt =====
-- The texts of the segments of a message make its text.
use esp32_sms_gateway.Base.{
  ℕ, zero, suc, ◌+◌, ◌%◌, ◌≤◌, ◌≡◌, refl, sym, ap, subst, ◌∙◌, Bool, true, false, some, List, [],
  ◌∷◌, ◌++◌, append-nil, append_assoc, length, length-append, get_or, leb, ◌==◌, >>=-eq-some, Bytes,
  All, arith, Bool-cases, inl, inr,
}
use esp32_sms_gateway.Codec.Utf8.{utf8_bytes, utf8_append}
use esp32_sms_gateway.Codec.Gsm7.{
  gsm7_basic, gsm7_extension, escape_septet, extension_decode, decode_from, gsm7_decode,
}
use esp32_sms_gateway.Codec.Segments.{max_segments, split_gsm7}
use esp32_sms_gateway.Codec.Segments.Cut.{flatten, closed, IsSegment, split_gsm7_lem}

-- The escape septet, which opens a pair.
abbrev pub opens : ℕ → Bool
opens x = x == 0x1B

escape-closed : (x : ℕ) {cp : ℕ} → extension_decode gsm7_extension x ≡ some cp → opens x ≡ false
unfolding extension_decode gsm7_extension
escape-closed x h = elim (Bool-cases (x == 0x1B)) [ inr other ↦ other | inl escape ↦ ground arith ]

-- Septets that are decoded end behind their last pair.
decode_from-closed :
    (open' : Bool) (capacity : ℕ) (s buffer : Bytes) {out : Bytes}
    → decode_from open' capacity s buffer ≡ some out
    → closed opens open' s ≡ true
unfolding decode_from
decode_from-closed false capacity [] buffer h = refl
decode_from-closed true capacity [] buffer h = cc
decode_from-closed false capacity (x ∷ s) buffer h = elim (Bool-cases (x == escape_septet)) [
  | inl escape ↦ rw escape (decode_from-closed true capacity s buffer (rw escape at h))
  | inr basic ↦
      let (buffer', put, rest) =
        >>=-eq-some (utf8_append (get_or gsm7_basic (x % 128) 0) capacity buffer) _
          (rw basic at h) in
      rw basic (decode_from-closed false capacity s buffer' rest)
]
decode_from-closed true capacity (x ∷ s) buffer h =
    let (cp, found, h1) = >>=-eq-some (extension_decode gsm7_extension x) _ h in
    let (buffer', put, rest) = >>=-eq-some (utf8_append cp capacity buffer) _ h1 in
    rw (escape-closed x found) (decode_from-closed false capacity s buffer' rest)

utf8_append-eq-some :
    (cp capacity : ℕ) (front buffer : Bytes) {r : Bytes}
    → utf8_append cp capacity (front ++ buffer) ≡ some r
    → (b : Bytes) × (r ≡ front ++ b) × (utf8_append cp capacity buffer ≡ some b)
unfolding utf8_append
utf8_append-eq-some cp capacity front buffer {r} h =
    let size = length-append front buffer in
    elim (Bool-cases (leb capacity (length (front ++ buffer)))) [
      | inl full ↦ cc (rw full at h)
      | inr open' ↦
          let (out, bytes, h1) = >>=-eq-some (utf8_bytes cp) _ (rw open' at h) in
          elim (Bool-cases (leb capacity (length out + length (front ++ buffer)))) [
            | inl full ↦ cc (rw full at h1)
            | inr room ↦
                let here : leb capacity (length buffer) ≡ false = ground arith in
                let there : leb capacity (length out + length buffer) ≡ false = ground arith in
                let same : (front ++ buffer) ++ out ≡ r = cc (rw room at h1) in
                (
                  buffer ++ out,
                  sym same ∙ append_assoc front buffer out,
                  rw (here, bytes, there) refl,
                )
          ]
    ]

-- What is written does not depend on what stands in the buffer before, which leaves less room.
decode_from-front :
    (open' : Bool) (capacity : ℕ) (s front buffer : Bytes) {r : Bytes}
    → decode_from open' capacity s (front ++ buffer) ≡ some r
    → (b : Bytes) × (r ≡ front ++ b) × (decode_from open' capacity s buffer ≡ some b)
unfolding decode_from
decode_from-front false capacity [] front buffer h = (buffer, cc, refl)
decode_from-front true capacity [] front buffer h = cc
decode_from-front false capacity (x ∷ s) front buffer {r} h =
    elim (Bool-cases (x == escape_septet)) [
      | inl escape ↦ rw escape (decode_from-front true capacity s front buffer (rw escape at h))
      | inr basic ↦
          let (buffer', put, rest) =
            >>=-eq-some (utf8_append (get_or gsm7_basic (x % 128) 0) capacity (front ++ buffer)) _
              (rw basic at h) in
          let (b, same, put') =
            utf8_append-eq-some (get_or gsm7_basic (x % 128) 0) capacity front buffer put in
          rw (basic, put')
            (decode_from-front false capacity s front b
              (subst (λ t. decode_from false capacity s t ≡ some r) same rest))
    ]
decode_from-front true capacity (x ∷ s) front buffer {r} h =
    let (cp, found, h1) = >>=-eq-some (extension_decode gsm7_extension x) _ h in
    let (buffer', put, rest) = >>=-eq-some (utf8_append cp capacity (front ++ buffer)) _ h1 in
    let (b, same, put') = utf8_append-eq-some cp capacity front buffer put in
    rw (found, put')
      (decode_from-front false capacity s front b
        (subst (λ t. decode_from false capacity s t ≡ some r) same rest))

-- Septets whose pairs are whole are decoded before those behind them.
decode_from-append :
    (open' : Bool) (capacity : ℕ) (s t buffer : Bytes) {r : Bytes}
    → closed opens open' s ≡ true
    → decode_from open' capacity (s ++ t) buffer ≡ some r
    → (between : Bytes) × (decode_from open' capacity s buffer ≡ some between)
      × (decode_from false capacity t between ≡ some r)
unfolding decode_from
decode_from-append false capacity [] t buffer c h = (buffer, refl, h)
decode_from-append true capacity [] t buffer c h = cc
decode_from-append false capacity (x ∷ s) t buffer c h = elim (Bool-cases (x == escape_septet)) [
  | inl escape ↦
      rw escape (decode_from-append true capacity s t buffer (rw escape at c) (rw escape at h))
  | inr basic ↦
      let (buffer', put, rest) =
        >>=-eq-some (utf8_append (get_or gsm7_basic (x % 128) 0) capacity buffer) _
          (rw basic at h) in
      rw (basic, put) (decode_from-append false capacity s t buffer' (rw basic at c) rest)
]
decode_from-append true capacity (x ∷ s) t buffer c h =
    let (cp, found, h1) = >>=-eq-some (extension_decode gsm7_extension x) _ h in
    let (buffer', put, rest) = >>=-eq-some (utf8_append cp capacity buffer) _ h1 in
    rw (found, put)
      (decode_from-append false capacity s t buffer' (rw (escape-closed x found) at c) rest)

-- Texts that the segments are decoded to, one each.
abbrev pub DecodeTo : ℕ → List Bytes → List Bytes → Type 0
DecodeTo capacity [] [] = Unit
DecodeTo capacity [] (t ∷ texts) = ⊥
DecodeTo capacity (s ∷ segments) [] = ⊥
DecodeTo capacity (s ∷ segments) (t ∷ texts) =
    (gsm7_decode s capacity ≡ some t) × DecodeTo capacity segments texts

decode_from-segments :
    (per_segment capacity : ℕ) (segments : List Bytes) (buffer : Bytes) {r : Bytes}
    → All (IsSegment per_segment opens) segments
    → decode_from false (suc capacity) (flatten segments) buffer ≡ some r
    → (texts : List Bytes) × (r ≡ buffer ++ flatten texts) × DecodeTo (suc capacity) segments texts
unfolding gsm7_decode decode_from
decode_from-segments per_segment capacity [] buffer are h =
    ([], ground (arith, append-nil buffer), tt)
decode_from-segments per_segment capacity (s ∷ segments) buffer {r} ((some_of_it, few, whole), are)
      h =
    let (between, first, rest) =
      decode_from-append false (suc capacity) s (flatten segments) buffer whole h in
    let (t, same, alone) =
      decode_from-front false (suc capacity) s buffer [] (rw (append-nil buffer) first) in
    let (texts, joined, later) =
      decode_from-segments per_segment capacity segments between are rest in
    (
      t ∷ texts,
      joined ∙ ap (λ b. b ++ flatten texts) same ∙ append_assoc buffer t (flatten texts),
      (alone, later),
    )

-- A message of the default alphabet that is cut into segments is the texts of its segments, one behind the
-- other: each segment is decoded by itself, none is empty or longer than it may be, and there are at most as
-- many as SMS_MAX_SEGMENTS.
pub gsm7_decode-split_gsm7 :
    (septets text : Bytes) (per_segment capacity : ℕ) {segments : List Bytes}
    → gsm7_decode septets capacity ≡ some text
    → split_gsm7 septets per_segment ≡ some segments
    → (texts : List Bytes) × (text ≡ flatten texts)
      × DecodeTo capacity segments texts
      × All (IsSegment per_segment opens) segments
      × (length segments ≤ max_segments)
unfolding gsm7_decode
gsm7_decode-split_gsm7 septets text per_segment zero h split = cc
gsm7_decode-split_gsm7 septets text per_segment (suc capacity) {segments} h split =
    let whole = decode_from-closed false (suc capacity) septets [] h in
    let (joined, are, few) = split_gsm7_lem septets per_segment whole split in
    let (texts, same, decoded) =
      decode_from-segments per_segment capacity segments [] are
        (subst (λ s. decode_from false (suc capacity) s [] ≡ some text) (sym joined) h) in
    (texts, same, decoded, are, few)
