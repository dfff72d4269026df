-- ===== src/Codec/Address/RoundTrip.antt =====
-- An address comes back from its semi-octets.
use esp32_sms_gateway.Base.{
  ℕ, zero, suc, ◌+◌, ◌-◌, ◌*◌, ◌/◌, ◌%◌, ◌≤◌, ◌<◌, ◌≡◌, refl, sym, ap, subst, ◌∙◌, Bool, true,
  false, ◌||◌, some, [], ◌∷◌, ◌++◌, append-nil, append_assoc, length, length-append, get_or, all,
  ltb, leb, ◌==◌, if◌then◌else◌, >>=-eq-some, Bytes, is_digit, arith, Bool-cases, inl, inr,
}
use esp32_sms_gateway.Codec.Hex.RoundTrip.{IsOctets}
use esp32_sms_gateway.Codec.Address.{
  max_pdu_octets, buffer_put, valid_digits, address_validate, put_digits, address_encode,
  nibble_char, semi_octet, semi_octets_from, address_decode,
}

pub buffer_put-eq-some :
    (buffer : Bytes) (octet : ℕ) {out : Bytes}
    → buffer_put buffer octet ≡ some out
    → out ≡ buffer ++ octet ∷ []
unfolding buffer_put
buffer_put-eq-some buffer octet h = elim (Bool-cases (leb max_pdu_octets (length buffer))) [
  | inl full ↦ cc (rw full at h)
  | inr room ↦ cc (rw room at h)
]

-- The semi-octets of digits, two in an octet.
unfoldable pub paired : Bytes → Bytes
paired [] = []
paired (d ∷ []) = (d - b'0' + 15 * 16) ∷ []
paired (d ∷ e ∷ digits) = (d - b'0' + (e - b'0') * 16) ∷ paired digits

pub length-paired : (digits : Bytes) → length (paired digits) ≡ (length digits + 1) / 2
unfolding paired
length-paired [] = refl
length-paired (d ∷ []) = refl
length-paired (d ∷ e ∷ digits) = omega (arith, length-paired digits)

pub paired-IsOctets : (digits : Bytes) → all is_digit digits ≡ true → IsOctets (paired digits)
unfolding paired
paired-IsOctets [] h = tt
paired-IsOctets (d ∷ []) h = ground arith
paired-IsOctets (d ∷ e ∷ digits) h = (ground arith, paired-IsOctets digits (ground arith))

put_digits-eq-some :
    (buffer digits : Bytes) {out : Bytes}
    → put_digits buffer digits ≡ some out
    → out ≡ buffer ++ paired digits
unfolding put_digits paired
put_digits-eq-some buffer [] h = cc (append-nil buffer)
put_digits-eq-some buffer (d ∷ []) h = buffer_put-eq-some buffer (d - b'0' + 15 * 16) h
put_digits-eq-some buffer (d ∷ e ∷ digits) {out} h =
    let (buffer', put, rest) = >>=-eq-some (buffer_put buffer (d - b'0' + (e - b'0') * 16)) _ h in
    put_digits-eq-some buffer' digits rest
    ∙ ap (λ b. b ++ paired digits) (buffer_put-eq-some buffer (d - b'0' + (e - b'0') * 16) put)
    ∙ append_assoc buffer ((d - b'0' + (e - b'0') * 16) ∷ []) (paired digits)

semi_octet_later :
    (o : ℕ) (octets : Bytes) (i : ℕ) → semi_octet (o ∷ octets) (suc (suc i)) ≡ semi_octet octets i
unfolding semi_octet
semi_octet_later o octets i =
    let half : suc (suc i) / 2 ≡ suc (i / 2) = omega arith in
    let odd : suc (suc i) % 2 ≡ i % 2 = omega arith in rw (half, odd) refl

semi_octet-paired :
    (digits rest : Bytes) (i : ℕ)
    → all is_digit digits ≡ true
    → i < length digits
    → semi_octet (paired digits ++ rest) i ≡ get_or digits i 0 - b'0'
unfolding paired
semi_octet-paired [] rest i h small = absurd (omega arith)
semi_octet-paired (d ∷ []) rest zero h small = unfold semi_octet in ground arith
semi_octet-paired (d ∷ []) rest (suc i) h small = absurd (omega arith)
semi_octet-paired (d ∷ e ∷ digits) rest zero h small = unfold semi_octet in ground arith
semi_octet-paired (d ∷ e ∷ digits) rest (suc zero) h small = unfold semi_octet in ground arith
semi_octet-paired (d ∷ e ∷ digits) rest (suc (suc i)) h small =
    semi_octet_later (d - b'0' + (e - b'0') * 16) (paired digits ++ rest) i
    ∙ semi_octet-paired digits rest i (ground arith) (omega arith)

nibble_char-digit : (c : ℕ) → is_digit c ≡ true → nibble_char (c - b'0') ≡ some c
unfolding nibble_char
nibble_char-digit c h = ground arith

get_or-append : (front : Bytes) (c : ℕ) (s : Bytes) → get_or (front ++ c ∷ s) (length front) 0 ≡ c
get_or-append [] c s = refl
get_or-append (d ∷ front) c s = get_or-append front c s

-- The loop writes the digits that are left.
semi_octets_from-digits :
    (front digits octets out : Bytes) (cap : ℕ)
    → ((i : ℕ)
        → i < length (front ++ digits)
        → semi_octet octets i ≡ get_or (front ++ digits) i 0 - b'0')
    → all is_digit digits ≡ true
    → length out + length digits < cap
    → semi_octets_from cap octets (length digits) (length front) out ≡ some (out ++ digits)
unfolding semi_octets_from
semi_octets_from-digits front [] octets out cap reads h fits = rw append-nil refl
semi_octets_from-digits front (c ∷ digits) octets out cap reads h fits =
    let digit : is_digit c ≡ true = ground arith in
    let here : semi_octet octets (length front) ≡ c - b'0' =
      reads (length front) (omega (arith, length-append front (c ∷ digits)))
      ∙ ap (λ (t : ℕ). t - b'0') (get_or-append front c digits) in
    let room : leb cap (length out + 1) ≡ false = ground arith in
    let moved : length front + 1 ≡ length (front ++ c ∷ []) =
      omega (arith, length-append front (c ∷ [])) in
    rw (here, nibble_char-digit c digit, room, moved)
      (semi_octets_from-digits (front ++ c ∷ []) digits octets (out ++ c ∷ []) cap
          (rw (append_assoc front (c ∷ []) digits) reads) (ground arith)
          (omega (arith, length-append out (c ∷ [])))
        ∙ ap some (append_assoc out (c ∷ []) digits))

valid_digits-eq-some :
    (s digits : Bytes) (b international : Bool)
    → valid_digits s b ≡ some (digits, international)
    → (digits ≡ s)
      × (international ≡ b)
      × (all is_digit digits ≡ true)
      × (0 < length digits)
      × (length digits ≤ 20)
unfolding valid_digits
valid_digits-eq-some s digits b international h =
    elim (Bool-cases (length s == 0 || ltb 20 (length s))) [
      | inl bad ↦ cc (rw bad at h)
      | inr sized ↦ elim (Bool-cases (all is_digit s)) [
        | inr other ↦ cc (rw (sized, other) at h)
        | inl good ↦
            let same : s ≡ digits = cc (rw (sized, good) at h) in
            let kind : b ≡ international = cc (rw (sized, good) at h) in
            subst
              (λ t.
                (t ≡ s)
                × (international ≡ b)
                × (all is_digit t ≡ true)
                × (0 < length t)
                × (length t ≤ 20))
              same (refl, sym kind, good, ground (arith, sized), ground (arith, sized))
      ]
    ]

-- The digits of a valid address, and its sign if it has one.
pub address_validate-eq-some :
    (address digits : Bytes) (international : Bool)
    → address_validate (some address) ≡ some (digits, international)
    → (address ≡ (if international then b'+' ∷ digits else digits))
      × (all is_digit digits ≡ true)
      × (0 < length digits)
      × (length digits ≤ 20)
unfolding address_validate
address_validate-eq-some [] digits international h = unfold valid_digits in cc
address_validate-eq-some (c ∷ s) digits international h = elim (Bool-cases (c == b'+')) [
  | inl plus ↦
      let (same, kind, good, some_digits, few) =
        valid_digits-eq-some s digits true international (rw plus at h) in
      let sign : c ≡ b'+' = ground arith in (rw (kind, same, sign) refl, good, some_digits, few)
  | inr local ↦
      let (same, kind, good, some_digits, few) =
        valid_digits-eq-some (c ∷ s) digits false international (rw local at h) in
      (rw (kind, same) refl, good, some_digits, few)
]

-- Type-of-address of an encoded address.
abbrev pub toa_of : Bool → ℕ
toa_of international = if international then 0x91 else 0x81

pub address_decode-paired :
    (digits rest : Bytes) (international : Bool) (cap : ℕ)
    → all is_digit digits ≡ true
    → 0 < length digits
    → length (if international then b'+' ∷ digits else digits) < cap
    → address_decode (paired digits ++ rest) (length digits) (toa_of international) cap
      ≡ some (if international then b'+' ∷ digits else digits)
unfolding address_decode
address_decode-paired digits rest true cap good some_digits fits =
    let long : ltb (length (paired digits ++ rest)) ((length digits + 1) / 2) ≡ false =
      ground (arith, length-append (paired digits) rest, length-paired digits) in
    let open' : (cap == 0) ≡ false = ground arith in
    let sign : leb cap 1 ≡ false = ground arith in
    rw (open', long, sign)
      (semi_octets_from-digits [] digits (paired digits ++ rest) (b'+' ∷ []) cap
        (λ i small. semi_octet-paired digits rest i good small) good (omega arith))
address_decode-paired digits rest false cap good some_digits fits =
    let long : ltb (length (paired digits ++ rest)) ((length digits + 1) / 2) ≡ false =
      ground (arith, length-append (paired digits) rest, length-paired digits) in
    let open' : (cap == 0) ≡ false = ground arith in
    rw (open', long)
      (semi_octets_from-digits [] digits (paired digits ++ rest) [] cap
        (λ i small. semi_octet-paired digits rest i good small) good (omega arith))

-- What address_encode appends for an address: the count of its digits, the type, and their semi-octets.
abbrev pub IsAddress : Bytes → Bytes → Bool → Type 0
IsAddress address digits international =
    (address ≡ (if international then b'+' ∷ digits else digits))
    × (all is_digit digits ≡ true)
    × (0 < length digits)
    × (length digits ≤ 20)

pub address_encode-eq-some :
    (buffer address : Bytes) {out : Bytes}
    → address_encode buffer (some address) ≡ some out
    → (digits : Bytes) × (international : Bool) × IsAddress address digits international
      × (out ≡ buffer ++ length digits ∷ toa_of international ∷ paired digits)
unfolding address_encode
address_encode-eq-some buffer address {out} h =
    let ((digits, international), valid, h1) = >>=-eq-some (address_validate (some address)) _ h in
    let (buffer1, put1, h2) = >>=-eq-some (buffer_put buffer (length digits)) _ h1 in
    let (buffer2, put2, h3) = >>=-eq-some (buffer_put buffer1 (toa_of international)) _ h2 in
    let e1 = buffer_put-eq-some buffer (length digits) put1 in
    let e2 = buffer_put-eq-some buffer1 (toa_of international) put2 in
    (
      digits,
      international,
      address_validate-eq-some address digits international valid,
      put_digits-eq-some buffer2 digits h3
          ∙ ap (λ b. b ++ paired digits) (e2 ∙ ap (λ b. b ++ toa_of international ∷ []) e1)
          ∙ ap (λ b. b ++ paired digits)
              (append_assoc buffer (length digits ∷ []) (toa_of international ∷ []))
          ∙ append_assoc buffer (length digits ∷ toa_of international ∷ []) (paired digits),
    )

-- An address that was encoded is appended to the buffer as its count of digits, its type and their
-- semi-octets, and these are decoded to it, whatever follows them, given room for it and its NUL.
pub address_decode-address_encode :
    (buffer address rest : Bytes) (cap : ℕ) {out : Bytes}
    → length address < cap
    → address_encode buffer (some address) ≡ some out
    → (count toa : ℕ) × (semi : Bytes) × (out ≡ buffer ++ count ∷ toa ∷ semi)
      × (length semi ≡ (count + 1) / 2)
      × (address_decode (semi ++ rest) count toa cap ≡ some address)
address_decode-address_encode buffer address rest cap fits h =
    let (digits, international, is_address, e) = address_encode-eq-some buffer address h in
    let (same, good, some_digits, few) = is_address in
    (
      length digits,
      toa_of international,
      paired digits,
      e,
      length-paired digits,
      subst
          (λ a.
            address_decode (paired digits ++ rest) (length digits) (toa_of international) cap
            ≡ some a)
          (sym same)
          (address_decode-paired digits rest international cap good some_digits
            (subst (λ a. length a < cap) same fits)),
    )
