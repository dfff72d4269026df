-- ===== src/Codec/Gsm7.antt =====
-- The GSM 03.38 alphabet of components/sms_codec/sms_gsm7.c: its tables, the search in them, and the
-- functions on whole texts. A texts' argument that may be NULL is an option.
pub mod Tables
pub mod RoundTrip
pub mod Count
use esp32_sms_gateway.Base.{
  ℕ, zero, suc, ◌+◌, ◌%◌, Bool, true, false, not, ◌&&◌, Option, none, some, List, [], ◌∷◌, ◌++◌,
  length, get_or, ltb, leb, ◌==◌, if◌then◌else◌, ◌>>=◌, Bytes,
}
use esp32_sms_gateway.Codec.Utf8.{utf8_append, utf8_each}

-- s_gsm7_basic
unfoldable pub gsm7_basic : List ℕ
gsm7_basic =
    0x0040 ∷ 0x00A3 ∷ 0x0024 ∷ 0x00A5 ∷ 0x00E8 ∷ 0x00E9 ∷ 0x00F9 ∷ 0x00EC ∷ 0x00F2 ∷ 0x00C7 ∷ 0x000A
    ∷ 0x00D8 ∷ 0x00F8 ∷ 0x000D ∷ 0x00C5 ∷ 0x00E5 ∷ 0x0394 ∷ 0x005F ∷ 0x03A6 ∷ 0x0393 ∷ 0x039B
    ∷ 0x03A9 ∷ 0x03A0 ∷ 0x03A8 ∷ 0x03A3 ∷ 0x0398 ∷ 0x039E ∷ 0x001B ∷ 0x00C6 ∷ 0x00E6 ∷ 0x00DF
    ∷ 0x00C9 ∷ 0x0020 ∷ 0x0021 ∷ 0x0022 ∷ 0x0023 ∷ 0x00A4 ∷ 0x0025 ∷ 0x0026 ∷ 0x0027 ∷ 0x0028
    ∷ 0x0029 ∷ 0x002A ∷ 0x002B ∷ 0x002C ∷ 0x002D ∷ 0x002E ∷ 0x002F ∷ 0x0030 ∷ 0x0031 ∷ 0x0032
    ∷ 0x0033 ∷ 0x0034 ∷ 0x0035 ∷ 0x0036 ∷ 0x0037 ∷ 0x0038 ∷ 0x0039 ∷ 0x003A ∷ 0x003B ∷ 0x003C
    ∷ 0x003D ∷ 0x003E ∷ 0x003F ∷ 0x00A1 ∷ 0x0041 ∷ 0x0042 ∷ 0x0043 ∷ 0x0044 ∷ 0x0045 ∷ 0x0046
    ∷ 0x0047 ∷ 0x0048 ∷ 0x0049 ∷ 0x004A ∷ 0x004B ∷ 0x004C ∷ 0x004D ∷ 0x004E ∷ 0x004F ∷ 0x0050
    ∷ 0x0051 ∷ 0x0052 ∷ 0x0053 ∷ 0x0054 ∷ 0x0055 ∷ 0x0056 ∷ 0x0057 ∷ 0x0058 ∷ 0x0059 ∷ 0x005A
    ∷ 0x00C4 ∷ 0x00D6 ∷ 0x00D1 ∷ 0x00DC ∷ 0x00A7 ∷ 0x00BF ∷ 0x0061 ∷ 0x0062 ∷ 0x0063 ∷ 0x0064
    ∷ 0x0065 ∷ 0x0066 ∷ 0x0067 ∷ 0x0068 ∷ 0x0069 ∷ 0x006A ∷ 0x006B ∷ 0x006C ∷ 0x006D ∷ 0x006E
    ∷ 0x006F ∷ 0x0070 ∷ 0x0071 ∷ 0x0072 ∷ 0x0073 ∷ 0x0074 ∷ 0x0075 ∷ 0x0076 ∷ 0x0077 ∷ 0x0078
    ∷ 0x0079 ∷ 0x007A ∷ 0x00E4 ∷ 0x00F6 ∷ 0x00F1 ∷ 0x00FC ∷ 0x00E0 ∷ []

-- s_gsm7_extension: code point and extension septet
unfoldable pub gsm7_extension : List (ℕ × ℕ)
gsm7_extension =
    (0x000C, 0x0A)
    ∷ (0x005E, 0x14)
    ∷ (0x007B, 0x28)
    ∷ (0x007D, 0x29)
    ∷ (0x005C, 0x2F)
    ∷ (0x005B, 0x3C)
    ∷ (0x007E, 0x3D)
    ∷ (0x005D, 0x3E)
    ∷ (0x007C, 0x40)
    ∷ (0x20AC, 0x65)
    ∷ []

abbrev pub escape_septet : ℕ
escape_septet = 0x1B

-- The first loop of gsm7_find, from index `i` on.
unfoldable pub find_basic : ℕ → List ℕ → ℕ → Option ℕ
find_basic i [] cp = none
find_basic i (t ∷ table) cp =
    let rest = find_basic (i + 1) table cp in
    if not (i == escape_septet) && t == cp then some i else rest

-- The second loop of gsm7_find.
unfoldable pub find_extension : List (ℕ × ℕ) → ℕ → Option ℕ
find_extension [] cp = none
find_extension ((c, e) ∷ table) cp =
    let rest = find_extension table cp in if c == cp then some e else rest

-- gsm7_find: the one or two septets of a code point.
unfoldable pub gsm7_find : ℕ → Option Bytes
gsm7_find cp = elim (find_basic 0 gsm7_basic cp) [
  | some i ↦ some (i ∷ [])
  | none ↦ elim (find_extension gsm7_extension cp) [
    | some e ↦ some (escape_septet ∷ e ∷ [])
    | none ↦ none
  ]
]

-- gsm7_extension_decode
unfoldable pub extension_decode : List (ℕ × ℕ) → ℕ → Option ℕ
extension_decode [] value = none
extension_decode ((c, e) ∷ table) value =
    let rest = extension_decode table value in if e == value then some c else rest

abbrev pub count_step : ℕ → ℕ → Option ℕ
count_step total cp = do septets ← gsm7_find cp; some (total + length septets)

-- sms_gsm7_septet_count: `none` is SIZE_MAX, which the sum of a text that fits memory never reaches.
unfoldable pub gsm7_septet_count : Option Bytes → Option ℕ
gsm7_septet_count none = none
gsm7_septet_count (some text) = utf8_each count_step text 0

abbrev pub encode_step : ℕ → Bytes → ℕ → Option Bytes
encode_step capacity out cp = do
  septets ← gsm7_find cp
  if ltb capacity (length out + length septets) then none else some (out ++ septets)

-- sms_gsm7_encode: the septets that it writes.
unfoldable pub gsm7_encode : Option Bytes → ℕ → Option Bytes
gsm7_encode none capacity = none
gsm7_encode (some text) capacity = utf8_each (encode_step capacity) text []

-- The loop of sms_gsm7_decode; the flag is set behind an escape septet, where the loop looks at
-- the next one.
unfoldable pub decode_from : Bool → ℕ → Bytes → Bytes → Option Bytes
decode_from false capacity [] buffer = some buffer
decode_from true capacity [] buffer = none
decode_from false capacity (x ∷ septets) buffer =
    let escaped = decode_from true capacity septets buffer in
    if x == escape_septet then escaped else do
      buffer' ← utf8_append (get_or gsm7_basic (x % 128) 0) capacity buffer
      decode_from false capacity septets buffer'
decode_from true capacity (x ∷ septets) buffer = do
  cp ← extension_decode gsm7_extension x
  buffer' ← utf8_append cp capacity buffer
  decode_from false capacity septets buffer'

-- sms_gsm7_decode
unfoldable pub gsm7_decode : Bytes → ℕ → Option Bytes
unfolding decode_from
gsm7_decode septets zero = none
gsm7_decode septets capacity = decode_from false capacity septets []
