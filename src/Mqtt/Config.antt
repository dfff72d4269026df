-- ===== src/Mqtt/Config.antt =====
-- components/gateway_settings/mqtt_config.c. Fields are the C strings in the buffers of
-- gateway_mqtt_config_t; a config that may be NULL is an option.
pub mod Accepted
use esp32_sms_gateway.Base.{
  ℕ, zero, suc, ◌+◌, ◌-◌, Bool, true, false, not, ◌&&◌, ◌||◌, Option, none, some, List, [], ◌∷◌,
  ◌++◌, length, all, ltb, leb, ◌==◌, if◌then◌else◌, Bytes, take, codes, peek, next, has_prefix,
  contains, drop, is_digit,
}

-- esp_err_t, as far as this component uses it
pub data Result : Type 0 where
  ok invalid_arg : Result

-- The loop of e164_valid behind the '+': `first` is i == 1.
unfoldable pub e164_digits : Bool → ℕ → Bytes → Bool
e164_digits first digits [] = leb 2 digits
e164_digits first digits (c ∷ s) =
    let rest = e164_digits false (digits + 1) s in
    if not (is_digit c) || (first && c == b'0')
    then false
    else if ltb 15 (digits + 1)
    then false
    else rest

-- e164_valid
unfoldable pub e164_valid : Option Bytes → Bool
unfolding e164_digits
e164_valid none = false
e164_valid (some value) =
    if not (peek value == b'+') then false else e164_digits true 0 (next value)

-- value[len - 1]
abbrev pub last_byte : Bytes → ℕ
last_byte [] = 0
last_byte (c ∷ []) = c
last_byte (c ∷ d ∷ s) = last_byte (d ∷ s)

-- A byte that the loop of topic_valid lets pass.
abbrev pub topic_byte : ℕ → Bool
topic_byte c = not (ltb c 0x21 || ltb 0x7e c || c == b'#' || c == b'+')

-- topic_valid
unfoldable pub topic_valid : Option Bytes → ℕ → Bool
topic_valid none max_len = false
topic_valid (some value) max_len =
    if length value == 0
      || leb max_len (length value)
      || peek value == b'/'
      || last_byte value == b'/'
    then false
    else all topic_byte value

-- gateway_mqtt_uri_is_tls
unfoldable pub uri_is_tls : Option Bytes → Bool
uri_is_tls none = false
uri_is_tls (some uri) = has_prefix uri (codes "mqtts://")

-- gateway_mqtt_config_t
pub record Config : Type 0 where
  pub enabled : Bool
  pub broker_uri : Bytes
  pub username : Bytes
  pub password : Bytes
  pub base_topic : Bytes
  pub home_assistant_enabled : Bool
  pub discovery_prefix : Bytes
  pub default_recipient : Bytes
  pub ca_pem : Bytes

-- strstr(text, part) != NULL
unfoldable pub holds : Bytes → Bytes → Bool
unfolding has_prefix
holds part [] = length part == 0
holds part (c ∷ s) = has_prefix (c ∷ s) part || holds part s

abbrev pub base_topic_max : ℕ
base_topic_max = 128

abbrev pub discovery_prefix_max : ℕ
discovery_prefix_max = 64

-- gateway_mqtt_config_defaults: snprintf cuts the topic to its buffer; a NULL or empty id is "gateway".
unfoldable pub config_defaults : Option Bytes → Config
config_defaults device_id = record {
  enabled = false;
  broker_uri = [];
  username = [];
  password = [];
  base_topic = take (base_topic_max - 1) (
      codes "sms-gateway/" ++ (elim device_id [
        | none ↦ codes "gateway"
        | some id ↦ if not (peek id == 0) then id else codes "gateway"
      ]));
  home_assistant_enabled = true;
  discovery_prefix = codes "homeassistant";
  default_recipient = [];
  ca_pem = [];
}

-- The checks of gateway_mqtt_config_validate on an enabled broker.
unfoldable pub broker_valid : Config → Bool
broker_valid c =
    let mqtt = has_prefix c.broker_uri (codes "mqtt://") in
    let mqtts = uri_is_tls (some c.broker_uri) in
    let host = drop (if mqtts then 8 else 7) c.broker_uri in
    if (not mqtt && not mqtts) || contains c.broker_uri b'@' || contains c.broker_uri b' '
    then false
    else if peek host == 0 || peek host == b'/'
    then false
    else if not mqtts && not (peek c.ca_pem == 0)
    then false
    else if not (peek c.ca_pem == 0) && not (holds (codes "-----BEGIN CERTIFICATE-----") c.ca_pem)
    then false
    else true

-- gateway_mqtt_config_validate
unfoldable pub config_validate : Option Config → Result
config_validate none = invalid_arg
config_validate (some c) =
    if not (topic_valid (some c.base_topic) base_topic_max)
      || not (topic_valid (some c.discovery_prefix) discovery_prefix_max)
    then invalid_arg
    else if not (peek c.default_recipient == 0) && not (e164_valid (some c.default_recipient))
    then invalid_arg
    else if not c.enabled
    then ok
    else if broker_valid c
    then ok
    else invalid_arg
