-- ===== src/Tests.antt =====
-- Tests of the definitions on inputs of the repository's own tests, and the theorems at inputs that
-- meet their hypotheses.
mod Codec
mod Pdu
mod Idempotency
mod At
mod Modem
mod Core
mod Diag
mod Ota
mod Usb
mod Store
mod Settings
