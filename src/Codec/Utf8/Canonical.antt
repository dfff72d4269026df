-- ===== src/Codec/Utf8/Canonical.antt =====
-- sms_utf8_next and sms_utf8_append are inverse on Unicode scalar values.
use esp32_sms_gateway.Base.{
  ℕ, ◌<◌, ◌/◌, ◌≡◌, false, ◌==◌, some, [], ◌∷◌, ◌++◌, length, Bytes, arith, IsText, ltb, Bool-cases,
  inl, inr,
}
use esp32_sms_gateway.Codec.Utf8.{
  utf8_next, utf8_bytes, is_surrogate, two_bytes, three_bytes, four_bytes,
}

-- Reading what was written for a scalar value gives the value, and the rest of the text.
pub utf8_next-utf8_bytes :
    (cp : ℕ) (rest : Bytes) {out : Bytes}
    → is_surrogate cp ≡ false
    → utf8_bytes cp ≡ some out
    → utf8_next (out ++ rest) ≡ some (cp, rest)
unfolding utf8_bytes utf8_next
utf8_next-utf8_bytes cp rest {out} h e = ground arith

abbrev IsShortest : Bytes → ℕ → Bytes → Type 0
IsShortest s cp rest =
    (out : Bytes) × (utf8_bytes cp ≡ some out) × (s ≡ out ++ rest) × (0 < length out)

two_bytes-IsShortest :
    (b0 : ℕ) (s : Bytes) {cp : ℕ} {rest : Bytes}
    → b0 / 32 ≡ 6
    → IsText s
    → two_bytes b0 s ≡ some (cp, rest)
    → IsShortest (b0 ∷ s) cp rest
unfolding two_bytes utf8_bytes
two_bytes-IsShortest b0 [] h t e = ground arith
two_bytes-IsShortest b0 (b1 ∷ s) h t e = (b0 ∷ b1 ∷ [], ground arith, ground arith, ground arith)

three_bytes-IsShortest :
    (b0 : ℕ) (s : Bytes) {cp : ℕ} {rest : Bytes}
    → b0 / 16 ≡ 14
    → IsText s
    → three_bytes b0 s ≡ some (cp, rest)
    → IsShortest (b0 ∷ s) cp rest
unfolding three_bytes utf8_bytes
three_bytes-IsShortest b0 [] h t e = ground arith
three_bytes-IsShortest b0 (b1 ∷ []) h t e = ground arith
three_bytes-IsShortest b0 (b1 ∷ b2 ∷ s) h t e =
    (b0 ∷ b1 ∷ b2 ∷ [], ground arith, ground arith, ground arith)

four_bytes-IsShortest :
    (b0 : ℕ) (s : Bytes) {cp : ℕ} {rest : Bytes}
    → b0 / 8 ≡ 30
    → IsText s
    → four_bytes b0 s ≡ some (cp, rest)
    → IsShortest (b0 ∷ s) cp rest
unfolding four_bytes utf8_bytes
four_bytes-IsShortest b0 [] h t e = ground arith
four_bytes-IsShortest b0 (b1 ∷ []) h t e = ground arith
four_bytes-IsShortest b0 (b1 ∷ b2 ∷ []) h t e = ground arith
four_bytes-IsShortest b0 (b1 ∷ b2 ∷ b3 ∷ s) h t e =
    (b0 ∷ b1 ∷ b2 ∷ b3 ∷ [], ground arith, ground arith, ground arith)

-- A text that was read is the shortest form of its code point, and the rest.
pub utf8_bytes-utf8_next :
    (s : Bytes) {cp : ℕ} {rest : Bytes}
    → IsText s
    → utf8_next s ≡ some (cp, rest)
    → (out : Bytes) × (utf8_bytes cp ≡ some out) × (s ≡ out ++ rest) × (0 < length out)
unfolding utf8_next
utf8_bytes-utf8_next [] t e = cc
utf8_bytes-utf8_next (b0 ∷ s) t e = elim (Bool-cases (ltb b0 0x80)) [
  | inl one ↦ (b0 ∷ [], unfold utf8_bytes in ground arith, ground arith, ground arith)
  | inr more ↦ elim (Bool-cases (b0 / 32 == 6)) [
    | inl two ↦ two_bytes-IsShortest b0 s (ground arith) t.1 (rw (more, two) at e)
    | inr not2 ↦ elim (Bool-cases (b0 / 16 == 14)) [
      | inl three ↦ three_bytes-IsShortest b0 s (ground arith) t.1 (rw (more, not2, three) at e)
      | inr not3 ↦ elim (Bool-cases (b0 / 8 == 30)) [
        | inl four ↦
            four_bytes-IsShortest b0 s (ground arith) t.1 (rw (more, not2, not3, four) at e)
        | inr not4 ↦ cc (rw (more, not2, not3, not4) at e)
      ]
    ]
  ]
]
