-- ===== src/Codec.antt =====
-- components/sms_codec: text encodings and SMS PDUs.
pub mod Utf8
pub mod Gsm7
pub mod Types
pub mod Hex
pub mod Septets
pub mod Address
pub mod Header
pub mod Segments
pub mod Submit
pub mod Timestamp
pub mod UserData
pub mod Deliver
