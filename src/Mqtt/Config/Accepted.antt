-- ===== src/Mqtt/Config/Accepted.antt =====
-- Which settings are accepted.
use esp32_sms_gateway.Base.{
  ℕ, zero, suc, ◌+◌, ◌≤◌, ◌≡◌, ◌≢◌, ◌↔◌, ◌⊎◌, inl, inr, refl, Bool, true, false, not, ◌&&◌, ◌||◌,
  some, [], ◌∷◌, length, all, Bool-cases, ◌==◌, if◌then◌else◌, Bytes, codes, peek, drop, is_digit,
  arith, contains, has_prefix,
}
use esp32_sms_gateway.Mqtt.Config.{
  Config, holds, ok, invalid_arg, e164_digits, e164_valid, topic_valid, config_validate,
  broker_valid, uri_is_tls, base_topic_max, discovery_prefix_max,
}

-- A number in international form: a plus, then 2 to 15 digits, the first of which is not 0.
abbrev pub IsE164 : Bytes → Type 0
IsE164 [] = ⊥
IsE164 (plus ∷ digits) =
    (plus ≡ b'+')
    × (all is_digit digits ≡ true)
    × (peek digits ≢ b'0')
    × (2 ≤ length digits)
    × (length digits ≤ 15)

e164_digits_iff :
    (n : ℕ) (s : Bytes)
    → n ≤ 15
    → (e164_digits false n s ≡ true)
      ↔ ((all is_digit s ≡ true) × (2 ≤ n + length s) × (n + length s ≤ 15))
unfolding e164_digits
e164_digits_iff n [] h = ground arith
e164_digits_iff n (c ∷ s) h = ground (arith, e164_digits_iff (n + 1) s)

-- e164_valid accepts exactly the numbers in international form.
pub e164_valid_iff : (value : Bytes) → (e164_valid (some value) ≡ true) ↔ IsE164 value
unfolding e164_valid e164_digits
e164_valid_iff [] = ground arith
e164_valid_iff (p ∷ []) = ground arith
e164_valid_iff (p ∷ c ∷ s) = ground (arith, e164_digits_iff 1 s (omega arith))

-- The host of a broker address, behind its scheme.
abbrev pub host : Config → Bytes
host c = drop (if has_prefix c.broker_uri (codes "mqtts://") then 8 else 7) c.broker_uri

-- A broker that can be connected to: an mqtt or mqtts address with a host and with no user part or
-- blank, and a certificate only for mqtts, where it is one.
pub record IsBroker (c : Config) : Type 0 where
  pub scheme :
      (has_prefix c.broker_uri (codes "mqtt://") || has_prefix c.broker_uri (codes "mqtts://"))
      ≡ true
  pub no_user : contains c.broker_uri b'@' ≡ false
  pub no_blank : contains c.broker_uri b' ' ≡ false
  pub has_host : peek (host c) ≢ 0
  pub host_first : peek (host c) ≢ b'/'
  pub certificate :
      (peek c.ca_pem ≡ 0)
      ⊎ ((has_prefix c.broker_uri (codes "mqtts://") ≡ true)
          × (holds (codes "-----BEGIN CERTIFICATE-----") c.ca_pem ≡ true))

IsBroker-broker_valid : (c : Config) → broker_valid c ≡ true → IsBroker c
unfolding broker_valid uri_is_tls
IsBroker-broker_valid c h = ground arith

broker_valid-IsBroker : (c : Config) → IsBroker c → broker_valid c ≡ true
unfolding broker_valid uri_is_tls
broker_valid-IsBroker c h = ground arith

-- The guards of config_validate, over what their tests stand for.
module _ {P Q : Type 0} {number broker : Bool} (p : (number ≡ true) ↔ P)
    (q : (broker ≡ true) ↔ Q) where
  enabled_iff :
      (enabled : Bool)
      → ((if not enabled then ok else if broker then ok else invalid_arg) ≡ ok)
        ↔ ((enabled ≡ false) ⊎ Q)
  enabled_iff false = (λ h. inl refl, λ h. refl)
  enabled_iff true =
      (λ h. inr (q.0 (ground arith)), λ h. elim h [ inl off ↦ cc | inr on ↦ rw (q.1 on) ])

  guards_iff :
      (base prefix : Bool) (first : ℕ) (enabled : Bool)
      → ((if not base || not prefix
            then invalid_arg
            else if not (first == 0) && not number
            then invalid_arg
            else if not enabled
            then ok
            else if broker
            then ok
            else invalid_arg)
          ≡ ok)
        ↔ ((base ≡ true) × (prefix ≡ true) × ((first ≡ 0) ⊎ P) × ((enabled ≡ false) ⊎ Q))
  guards_iff false prefix first enabled = ground arith
  guards_iff true false first enabled = ground arith
  guards_iff true true zero enabled = ground (arith, enabled_iff enabled)
  guards_iff true true (suc n) enabled = elim (Bool-cases number) [
    | inl good ↦ rw good (ground (arith, enabled_iff enabled, p.0 good))
    | inr bad ↦ rw bad (
      λ h. ground arith,
      λ h. elim (h.2) [ inl zero_first ↦ cc | inr holds_it ↦ cc (bad, p.1 holds_it) ],
    )
  ]

-- Settings are accepted exactly if both topics are valid, the default recipient is empty or a number in
-- international form, and the broker is disabled or can be connected to.
pub config_validate_iff :
    (c : Config)
    → (config_validate (some c) ≡ ok) ↔ (
        (topic_valid (some c.base_topic) base_topic_max ≡ true)
        × (topic_valid (some c.discovery_prefix) discovery_prefix_max ≡ true)
        × ((peek c.default_recipient ≡ 0) ⊎ IsE164 c.default_recipient)
        × ((c.enabled ≡ false) ⊎ IsBroker c))
unfolding config_validate
config_validate_iff c =
    guards_iff (e164_valid_iff c.default_recipient)
      (IsBroker-broker_valid c, broker_valid-IsBroker c)
      (topic_valid (some c.base_topic) base_topic_max)
      (topic_valid (some c.discovery_prefix) discovery_prefix_max) (peek c.default_recipient)
      c.enabled
