-- ===== src/Codec/Submit/Units.antt =====
-- The octets of UCS-2 units, counted and joined.
use esp32_sms_gateway.Base.{◌*◌, ◌/◌, ◌%◌, ◌≡◌, refl, ap, [], ◌∷◌, ◌++◌, length, Bytes, arith}
use esp32_sms_gateway.Codec.Submit.{units_octets}

pub length-units_octets : (units : Bytes) → length (units_octets units) ≡ 2 * length units
unfolding units_octets
length-units_octets [] = refl
length-units_octets (u ∷ units) = omega (arith, length-units_octets units)

pub units_octets-append :
    (us vs : Bytes) → units_octets (us ++ vs) ≡ units_octets us ++ units_octets vs
unfolding units_octets
units_octets-append [] vs = refl
units_octets-append (u ∷ us) vs = ap (λ t. (u / 256) ∷ (u % 256) ∷ t) (units_octets-append us vs)
