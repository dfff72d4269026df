-- ===== src/Codec/Utf8.antt =====
-- UTF-8 of components/sms_codec/sms_gsm7.c. A test `(p & mask) == value` on the leading bits of a
-- byte is written as a quotient, a mask of low bits as a remainder, and a union of disjoint bit
-- fields as a sum.
pub mod Canonical
pub mod Loop
use esp32_sms_gateway.Base.{
  ℕ, zero, suc, ◌+◌, ◌-◌, ◌*◌, ◌/◌, ◌%◌, ◌<◌, ◌≤◌, ◌≡◌, Bool, true, false, not, ◌&&◌, ◌||◌, Option,
  none, some, List, [], ◌∷◌, ◌++◌, length, ltb, leb, within, ◌==◌, if◌then◌else◌, ◌>>=◌, Bytes,
  peek, next,
}

abbrev pub is_surrogate : ℕ → Bool
is_surrogate cp = within 0xD800 0xDFFF cp

-- (p & 0xC0) == 0x80
abbrev pub is_continuation : ℕ → Bool
is_continuation b = b / 64 == 2

two_bytes : ℕ → Bytes → Option (ℕ × Bytes)
two_bytes b0 s =
    let b1 = peek s in
    let cp = b0 % 32 * 64 + b1 % 64 in
    if not (is_continuation b1) then none else if ltb cp 0x80 then none else some (cp, next s)

three_bytes : ℕ → Bytes → Option (ℕ × Bytes)
three_bytes b0 s =
    let b1 = peek s in
    let b2 = peek (next s) in
    let cp = b0 % 16 * 4096 + b1 % 64 * 64 + b2 % 64 in
    if not (is_continuation b1) || not (is_continuation b2)
    then none
    else if ltb cp 0x800 || is_surrogate cp
    then none
    else some (cp, next (next s))

four_bytes : ℕ → Bytes → Option (ℕ × Bytes)
four_bytes b0 s =
    let b1 = peek s in
    let b2 = peek (next s) in
    let b3 = peek (next (next s)) in
    let cp = b0 % 8 * 262144 + b1 % 64 * 4096 + b2 % 64 * 64 + b3 % 64 in
    if not (is_continuation b1) || not (is_continuation b2) || not (is_continuation b3)
    then none
    else if ltb cp 0x10000 || ltb 0x10FFFF cp
    then none
    else some (cp, next (next (next s)))

-- sms_utf8_next: the code point at the cursor, and the cursor behind it.
unfoldable pub utf8_next : Bytes → Option (ℕ × Bytes)
unfolding two_bytes three_bytes four_bytes
utf8_next [] = none
utf8_next (b0 ∷ s) =
    if ltb b0 0x80
    then some (b0, s)
    else if b0 / 32 == 6
    then two_bytes b0 s
    else if b0 / 16 == 14
    then three_bytes b0 s
    else if b0 / 8 == 30
    then four_bytes b0 s
    else none

-- The bytes that sms_utf8_append writes for a code point.
unfoldable pub utf8_bytes : ℕ → Option Bytes
utf8_bytes cp =
    if leb cp 0x7F
    then some (cp ∷ [])
    else if leb cp 0x7FF
    then some ((0xC0 + cp / 64) ∷ (0x80 + cp % 64) ∷ [])
    else if leb cp 0xFFFF && not (is_surrogate cp)
    then some ((0xE0 + cp / 4096) ∷ (0x80 + cp / 64 % 64) ∷ (0x80 + cp % 64) ∷ [])
    else if leb cp 0x10FFFF
    then some (
        (0xF0 + cp / 262144)
        ∷ (0x80 + cp / 4096 % 64)
        ∷ (0x80 + cp / 64 % 64)
        ∷ (0x80 + cp % 64)
        ∷ [])
    else none

-- sms_utf8_append: the buffer is the bytes written so far, and `capacity` counts the NUL.
unfoldable pub utf8_append : ℕ → ℕ → Bytes → Option Bytes
utf8_append cp capacity buffer = if leb capacity (length buffer) then none else do
  out ← utf8_bytes cp
  if leb capacity (length out + length buffer) then none else some (buffer ++ out)

-- `while (*cursor != '\0') { if (!sms_utf8_next(&cursor, &cp)) return failure; ... }`: the loop that
-- sms_gsm7_septet_count, sms_gsm7_encode and utf8_to_ucs2 share, on fuel.
module _ {S : Type 0} (body : S → ℕ → Option S) where
  unfoldable pub utf8_loop : ℕ → Bytes → S → Option S
  utf8_loop fuel [] st = some st
  utf8_loop zero (c ∷ s) st = none
  utf8_loop (suc fuel) (c ∷ s) st = do
    (cp, rest) ← utf8_next (c ∷ s)
    st' ← body st cp
    utf8_loop fuel rest st'

  -- Each round takes a byte at least.
  unfoldable pub utf8_each : Bytes → S → Option S
  unfolding utf8_loop
  utf8_each s st = utf8_loop (length s) s st
