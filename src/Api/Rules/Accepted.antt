-- ===== src/Api/Rules/Accepted.antt =====
-- What the rules let through.
use esp32_sms_gateway.Base.{
  ℕ, ◌+◌, ◌≤◌, ◌≡◌, refl, Bool, true, false, Option, none, some, [], ◌∷◌, length, length-append,
  Bytes, next, arith,
}
use esp32_sms_gateway.Mqtt.Config
use esp32_sms_gateway.Api.Rules.{digits_from, e164_valid, command_name, at_response_prefix, upper}

digits_from_lem :
    (first : Bool) (n : ℕ) (s : Bytes) → digits_from first n s ≡ Config.e164_digits first n s
unfolding digits_from Config.e164_digits
digits_from_lem first n [] = refl
digits_from_lem first n (c ∷ s) = ground (arith, digits_from_lem false (n + 1) s)

-- The recipients that the interfaces take are those that the settings take.
pub e164_valid_lem : (value : Option Bytes) → e164_valid value ≡ Config.e164_valid value
unfolding e164_valid Config.e164_valid
e164_valid_lem none = refl
e164_valid_lem (some value) = rw (digits_from_lem true 0 (next value))

length-upper : (s : Bytes) → length (upper s) ≡ length s
length-upper [] = refl
length-upper (c ∷ s) = omega (arith, length-upper s)

-- A response prefix fits its buffer with its NUL.
pub length-at_response_prefix :
    (command : Option Bytes) (out_size : ℕ) {out : Bytes}
    → at_response_prefix command out_size ≡ some out
    → length out + 1 ≤ out_size
unfolding at_response_prefix
length-at_response_prefix none out_size h = cc
length-at_response_prefix (some command) out_size {out} h = ground (
  arith,
  length-append (upper (command_name (next (next command)))) (b':' ∷ []),
  length-upper (command_name (next (next command))),
)
