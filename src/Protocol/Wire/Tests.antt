-- ===== src/Protocol/Wire/Tests.antt =====
-- Two beacons of one node, sent at different times.

use glycoprotein_rs.Protocol.Wire.Signature.{beacon_signature_iff, IsBeacon}
use glycoprotein_rs.Protocol.Wire.Compact.{value_codes-injective, compact}
use glycoprotein_rs.Prelude.Text.{text}
use glycoprotein_rs.Protocol.Wire.{beacon_signature}
use glycoprotein_rs.Json.{Value}
use glycoprotein_rs.Protocol.{method, protocol_version, new_method_field, Beacon}
use glycoprotein_rs.Prelude.{
  pair_has_eq, list_has_eq, nat_has_eq, arith, ◌∷◌, [], some, none, ◌↔◌, ◌≡◌, ℕ,
}

abbrev sample_beacon : ℕ → Beacon
sample_beacon now = record {
  id = text "beta";
  vendor = none;
  protocol_version = some protocol_version;
  fields = method (new_method_field (text "echo")) ∷ [];
  timestamp = now;
}

compact_injective : (v w : Value) → compact.to_string v ≡ compact.to_string w → v ≡ w
compact_injective v w h = (value_codes-injective v w [] [] h).0

sample-IsBeacon : (now : ℕ) → IsBeacon (sample_beacon now)
unfolding new_method_field
sample-IsBeacon now = record { version = λ n h. ground arith; schemas = ((tt, tt), tt) }

beacon_signature_iff_example :
    (beacon_signature compact (sample_beacon 1) ≡ beacon_signature compact (sample_beacon 2))
    ↔ (record (sample_beacon 1) { timestamp = 2 } ≡ sample_beacon 2)
beacon_signature_iff_example =
    beacon_signature_iff compact (sample_beacon 1) (sample_beacon 2) compact_injective
      (sample-IsBeacon 1) (sample-IsBeacon 2)
