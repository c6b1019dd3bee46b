-- ===== src/Protocol/Wire/Signature.antt =====
-- When two beacons have one signature.
use glycoprotein_rs.Protocol.Wire.{
  Printer, beacon_signature, integer, field_values, itself, optional, field_value,
}
use glycoprotein_rs.Prelude.Text.{Str}
use glycoprotein_rs.Protocol.{Beacon, event, event, method, Field}
use glycoprotein_rs.Json.{string, null, Value}
use glycoprotein_rs.Prelude.{
  All, ap, sym, pair_has_eq, list_has_eq, nat_has_eq, arith, ◌∷◌, [], List, some, none, Option, ◌↔◌,
  ◌≢◌, refl, ◌≡◌, ◌<◌, ◌^◌, ℕ,
}

-- A schema that is `null` is written as an absent one; the others are told apart.
abbrev pub NotNull : Option Value → Type 0
NotNull none = Unit
NotNull (some v) = v ≢ null

abbrev pub FieldNotNull : Field → Type 0
FieldNotNull (method f) = NotNull f.query_schema × NotNull f.receipt_schema
FieldNotNull (event f) = NotNull f.call_arg_schema

optional_string_injective : (a b : Option Str) → optional string a ≡ optional string b → a ≡ b
optional_string_injective a b h = ground arith

optional-itself_injective :
    (a b : Option Value) → NotNull a → NotNull b → optional itself a ≡ optional itself b → a ≡ b
optional-itself_injective none none x y h = refl
optional-itself_injective none (some w) x y h = absurd (y (sym h))
optional-itself_injective (some v) none x y h = absurd (x h)
optional-itself_injective (some v) (some w) x y h = ap some h

field_value_injective :
    (f g : Field) → FieldNotNull f → FieldNotNull g → field_value f ≡ field_value g → f ≡ g
unfolding field_value
field_value_injective (method f) (method g) x y h = ground (
  arith,
  optional_string_injective f.friendly_name g.friendly_name,
  optional_string_injective f.description g.description,
  optional-itself_injective f.query_schema g.query_schema x.0 y.0,
  optional-itself_injective f.receipt_schema g.receipt_schema x.1 y.1,
)
field_value_injective (method f) (event g) x y h = cc
field_value_injective (event f) (method g) x y h = cc
field_value_injective (event f) (event g) x y h = ground (
  arith,
  optional_string_injective f.friendly_name g.friendly_name,
  optional_string_injective f.description g.description,
  optional-itself_injective f.call_arg_schema g.call_arg_schema x y,
)

field_values_injective :
    (fs gs : List Field)
    → All FieldNotNull fs
    → All FieldNotNull gs
    → field_values fs ≡ field_values gs
    → fs ≡ gs
unfolding field_values
field_values_injective [] [] x y h = refl
field_values_injective [] (g ∷ gs) x y h = cc
field_values_injective (f ∷ fs) [] x y h = cc
field_values_injective (f ∷ fs) (g ∷ gs) x y h =
    ground (arith, field_value_injective f g x.0 y.0, field_values_injective fs gs x.1 y.1)

integer_injective : (a b : ℕ) → a < 2 ^ 32 → b < 2 ^ 32 → integer a ≡ integer b → a ≡ b
integer_injective a b x y h = ground arith

optional-integer_injective :
    (a b : Option ℕ)
    → ((n : ℕ) → a ≡ some n → n < 2 ^ 32)
    → ((n : ℕ) → b ≡ some n → n < 2 ^ 32)
    → optional integer a ≡ optional integer b
    → a ≡ b
optional-integer_injective none none x y h = refl
optional-integer_injective none (some b) x y h = cc
optional-integer_injective (some a) none x y h = cc
optional-integer_injective (some a) (some b) x y h =
    ap some (integer_injective a b (x a refl) (y b refl) h)

-- What the Rust types and the registrations guarantee of a beacon.
pub record IsBeacon (b : Beacon) : Type 0 where
  pub version : (n : ℕ) → b.protocol_version ≡ some n → n < 2 ^ 32
  pub schemas : All FieldNotNull b.fields

-- If the JSON printer prints different values differently, two beacons with an `i32` version and
-- without `null` schemas have one signature exactly if they agree in all but the timestamp.
pub beacon_signature_iff :
    (printer : Printer) (a b : Beacon)
    → ((v w : Value) → printer.to_string v ≡ printer.to_string w → v ≡ w)
    → IsBeacon a
    → IsBeacon b
    → (beacon_signature printer a ≡ beacon_signature printer b)
      ↔ (record a { timestamp = b.timestamp } ≡ b)
unfolding beacon_signature
beacon_signature_iff printer a b injective x y = (same, ap (beacon_signature printer))
  where
    same :
        beacon_signature printer a ≡ beacon_signature printer b
        → record a { timestamp = b.timestamp } ≡ b
    same h =
        let e = injective _ _ h in
        ground (
          arith,
          e,
          optional_string_injective a.vendor b.vendor,
          optional-integer_injective a.protocol_version b.protocol_version x.version y.version,
          field_values_injective a.fields b.fields x.schemas y.schemas,
        )
