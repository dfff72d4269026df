-- ===== src/Lib.antt =====
-- esp32-sms-gateway: a gateway on an ESP32 that sends and receives SMS through a USB modem and offers them
-- over HTTP and MQTT. This library models the parts of the firmware that decide: parsers, encoders,
-- policies, and the durable store of messages.
--
-- How the parts interact. The bytes of the modem go through the token parser of components/at_engine,
-- which makes lines, prompts and overflows of them; the router sends each line to the active command or to
-- the handlers of unsolicited lines, by the prefixes of the protocol; components/modem_manager reads the
-- status lines and, on failures, asks the recovery policy what to do. components/sms_codec makes septets
-- of texts and back, packs them into PDUs for the modem, in as many segments as a text needs, and reads
-- the PDUs that come; components/sms_store keeps the messages over resets. Before all that,
-- components/usb_modem_transport switches the modem's mode and looks for its serial interfaces. Requests
-- from outside pass the rules of components/api_common, components/gateway_settings and
-- components/mqtt_service, components/api_idempotency keeps the keys of the last requests, and a new
-- firmware passes the version policy of components/ota_service.
--
-- Files, and the code they model (functions keep their names, less the prefix of their component):
--   Base        lists over native numbers, C strings as lists of bytes (skip_space, has_prefix, strcmp),
--               int and long with strtol, and decimal text as printf writes it
--   Codec/Utf8  components/sms_codec/sms_gsm7.c: sms_utf8_next, sms_utf8_append
--   Codec/Gsm7  components/sms_codec/sms_gsm7.c: the alphabet, sms_gsm7_septet_count, sms_gsm7_encode,
--               sms_gsm7_decode
--   Codec/Hex, Codec/Septets, Codec/Address, Codec/Header, Codec/Segments, Codec/Submit,
--   Codec/Timestamp, Codec/UserData, Codec/Deliver
--               components/sms_codec/sms_pdu.c: hex digits, septets in octets, semi-octets of addresses,
--               headers of parts, the cut into segments, sms_submit_encode and sms_submit_preflight, and
--               sms_deliver_decode and sms_status_report_decode with their parts
--   At/Parser   components/at_engine/at_parser.c: the state machine, one byte at a time; the tokens that
--               the callback gets are part of the result
--   At/Protocol components/at_engine/at_protocol.c
--   At/Router   components/at_engine/at_router.c: the count of announced lines, and a route per line
--   Modem/Status, Modem/Recovery
--               components/modem_manager/modem_status.c, modem_recovery_policy.c
--   Modem/Core  components/modem_core/modem_core.c: the state that is shown, and what the handlers of events
--               call in the other components
--   Mqtt/Command, Mqtt/Config
--               components/mqtt_service/mqtt_command_policy.c, components/gateway_settings/mqtt_config.c
--   Ota/SemVer, Ota/Policy
--               components/ota_service/ota_version_policy.c
--   Usb/Descriptor, Usb/ModeSwitch
--               components/usb_modem_transport/usb_modem_descriptor.c, huawei_mode_switch.c
--   Store/Message, Store/Slots, Store/Operations, Store/Listing
--               components/sms_store/sms_store.c: records, slots, and the operations, which pass the
--               store's variables on explicitly
--   Idempotency, Idempotency/Operations, Idempotency/Upkeep
--               components/api_idempotency/api_idempotency.c: the loop over the slots, the operations of a
--               request, and those of upkeep
--   Diag        components/gateway_diag/gateway_diag.c: the count of crashes and the safe mode
--   Api/Rules   components/api_common/api_common.c
--   Tests       runs on inputs of tests/, and an input for each theorem that has hypotheses
--
-- Conventions. A pointer that may be NULL is an option, a function that fails gives none or an error, and
-- an out parameter is a part of the result. Enumerations are data types; a width of an unsigned integer is
-- written out where a value can pass it. The storage of ESP-IDF (nvs.h) is the interface Store.Slots.Nvs,
-- with what its documentation promises as Store.Slots.NvsLaws; a packed record is stored as such, with its
-- size in place of its layout in bytes. The idempotency table has an interface of the same kind,
-- Idempotency.IdemNvs, with Idempotency.Once.IdemNvsLaws and Idempotency.Clear.EraseLaws. The mutex of a store makes each operation one
-- step.
--
-- Fuel. utf8_loop and walk take fuel for each byte of their input: a round takes one byte of a text, and
-- two of a descriptor, at least; elements_loop and shift_loop take two octets of a header a round. All
-- other loops are recursion on their input or on the count of slots.
--
-- Not modelled: the rate limiter (floating point), the engine of
-- commands, the manager's tasks, and the services that are calls of ESP-IDF: HTTP, Wi-Fi, MQTT client, USB
-- host, display, board, security, and the texts of the diagnostics.
pub mod Base
pub mod Codec
pub mod At
pub mod Modem
pub mod Mqtt
pub mod Ota
pub mod Usb
pub mod Store
pub mod Idempotency
pub mod Diag
pub mod Api
pub mod Tests
