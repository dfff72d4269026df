-- ===== src/Codec/Types.antt =====
-- The types of components/sms_codec/include/sms_codec.h that the codec and the store share.
use esp32_sms_gateway.Base.{ℕ, Bool}

-- sms_encoding_t
pub data Encoding : Type 0 where
  gsm7 ucs2 eight_bit unknown : Encoding

-- sms_concat_info_t
pub record ConcatInfo : Type 0 where
  pub present : Bool
  pub is_16bit : Bool
  pub reference : ℕ
  pub total_parts : ℕ
  pub part_number : ℕ
