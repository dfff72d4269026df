-- ===== src/Api/Rules.antt =====
-- components/api_common/api_common.c, but for the rate limiter, which computes in floating point.
pub mod Accepted
use esp32_sms_gateway.Base.{
  ℕ, ◌+◌, ◌-◌, Bool, true, false, not, ◌&&◌, ◌||◌, Option, none, some, List, [], ◌∷◌, ◌++◌, length,
  all, take, drop, ltb, leb, ◌==◌, within, if◌then◌else◌, Bytes, codes, peek, next, contains,
  is_digit, is_alnum, is_lower, to_upper, str_eq,
}

-- The loop of gateway_e164_valid behind the '+': `first` is i == 1.
unfoldable pub digits_from : Bool → ℕ → Bytes → Bool
digits_from first digits [] = leb 2 digits
digits_from first digits (c ∷ s) =
    let rest = digits_from false (digits + 1) s in
    if ltb c b'0' || ltb b'9' c
    then false
    else if first && c == b'0'
    then false
    else if ltb 15 (digits + 1)
    then false
    else rest

-- gateway_e164_valid
unfoldable pub e164_valid : Option Bytes → Bool
e164_valid none = false
e164_valid (some value) =
    if not (peek value == b'+') then false else digits_from true 0 (next value)

-- A byte that an idempotency key may have.
abbrev pub key_byte : ℕ → Bool
key_byte c = is_alnum c || c == b'-' || c == b'_' || c == b'.' || c == b':'

-- gateway_idempotency_key_valid
unfoldable pub idempotency_key_valid : Option Bytes → Bool
idempotency_key_valid none = false
idempotency_key_valid (some value) =
    if ltb (length value) 8 || ltb 128 (length value) then false else all key_byte value

-- starts_with_ignore_case
unfoldable pub starts_with_ignore_case : Bytes → Bytes → Bool
starts_with_ignore_case value [] = true
starts_with_ignore_case value (c ∷ prefix) =
    let rest = starts_with_ignore_case (next value) prefix in
    if not (to_upper (peek value) == to_upper c) then false else rest

-- The bytes that end a command line or its data: CR, LF and Ctrl-Z.
abbrev pub ends_line : ℕ → Bool
ends_line c = c == b'\r' || c == b'\n' || c == 0x1a

-- gateway_at_command_allowed
unfoldable pub at_command_allowed : Option Bytes → ℕ → Bool
at_command_allowed none max_length = false
at_command_allowed (some command) max_length =
    if not (starts_with_ignore_case command (codes "AT"))
    then false
    else if leb max_length (length command) || not (all (λ c. not (ends_line c)) command)
    then false
    else not (starts_with_ignore_case command (codes "AT+CMGS"))
      && not (starts_with_ignore_case command (codes "AT+CMGW"))

-- The bytes in front of '=' or '?', as many as strcspn counts.
unfoldable pub command_name : Bytes → Bytes
command_name [] = []
command_name (c ∷ s) = let rest = command_name s in if c == b'=' || c == b'?' then [] else c ∷ rest

abbrev pub upper : Bytes → Bytes
upper [] = []
upper (c ∷ s) = to_upper c ∷ upper s

-- gateway_at_response_prefix into a buffer of `out_size` bytes, NUL included; `none` is false.
unfoldable pub at_response_prefix : Option Bytes → ℕ → Option Bytes
at_response_prefix none out_size = none
at_response_prefix (some command) out_size =
    let rest = next (next command) in
    let name = command_name rest in
    if out_size == 0
      || not (starts_with_ignore_case command (codes "AT"))
      || (not (peek rest == b'+') && not (peek rest == b'^'))
    then none
    else if ltb (length name) 2 || ltb out_size (length name + 2)
    then none
    else some (upper name ++ b':' ∷ [])
