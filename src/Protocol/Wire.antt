-- ===== src/Protocol/Wire.antt =====
-- The JSON of a beacon, as the serde attributes of src/protocol.rs give it (PascalCase names, the
-- tag `Type`, `null` for an absent value), and `beacon_signature` of src/node.rs. The printer of
-- JSON values and that of timestamps are parameters.
pub mod Signature
pub mod Compact
mod Tests
use glycoprotein_rs.Protocol.{event, method, Beacon, Field}
use glycoprotein_rs.Json.{
  array, end, neg_int, cons, string, pos_int, member, nil, member, object, Values, number, null,
  Members, Value,
}
use glycoprotein_rs.Prelude.Text.{list_cmp, text, Str}
use glycoprotein_rs.Prelude.{
  Ordering, ltb, pair_has_eq, list_has_eq, nat_has_eq, ◌==◌, if◌then◌else◌, arith, ◌++◌, ◌∷◌, [],
  List, some, none, Option, ◌||◌, ◌&&◌, false, true, Bool, inr, inl, ◌⊎◌, ◌↔◌, ◌≢◌, ◌∙◌, refl, ◌≡◌,
  ◌<◌, ◌≤◌, ◌^◌, ◌%◌, ◌/◌, ◌*◌, ◌-◌, ◌+◌, suc, zero, ℕ,
}

-- `Map::insert` of serde_json: the members stand in ascending order of their keys.
unfoldable pub insert_member : Str → Value → Members → Members
insert_member k v end = member k v end
insert_member k v (member j w ms) =
    let rest = member j w (insert_member k v ms) in
    elim (list_cmp k j) [
      | Ordering.lt ↦ member k v (member j w ms)
      | Ordering.eq ↦ member k v ms
      | Ordering.gt ↦ rest
    ]

-- `Map::remove`
unfoldable pub remove_member : Str → Members → Members
remove_member k end = end
remove_member k (member j w ms) =
    let rest = remove_member k ms in if j == k then rest else member j w rest

abbrev pub optional {ℓ} : {A : Type ℓ} → (A → Value) → Option A → Value
optional f none = null
optional f (some a) = f a

abbrev pub integer : ℕ → Value
integer w = number (if ltb w (2 ^ 31) then pos_int w else neg_int (2 ^ 32 - w))

abbrev pub itself : Value → Value
itself v = v

-- The members of a struct, in the order of its fields.
abbrev pub members : List (Str × Value) → Members → Members
members [] ms = ms
members ((k, v) ∷ rest) ms = members rest (insert_member k v ms)

unfoldable pub field_value : Field → Value
unfolding insert_member
field_value (method f) = object (
    members
      ((text "Type", string (text "Method"))
        ∷ (text "Id", string f.id)
        ∷ (text "FriendlyName", optional string f.friendly_name)
        ∷ (text "Description", optional string f.description)
        ∷ (text "QuerySchema", optional itself f.query_schema)
        ∷ (text "ReceiptSchema", optional itself f.receipt_schema)
        ∷ [])
      end)
field_value (event f) = object (
    members
      ((text "Type", string (text "Event"))
        ∷ (text "Id", string f.id)
        ∷ (text "FriendlyName", optional string f.friendly_name)
        ∷ (text "Description", optional string f.description)
        ∷ (text "CallArgSchema", optional itself f.call_arg_schema)
        ∷ [])
      end)

unfoldable pub field_values : List Field → Values
unfolding field_value
field_values [] = nil
field_values (f ∷ fs) = cons (field_value f) (field_values fs)

-- What `serde_json` and `chrono` print.
pub record Printer : Type 0 where
  pub to_string : Value → Str
  pub show_timestamp : ℕ → Str

unfoldable pub beacon_members : Printer → Beacon → Members
unfolding insert_member field_values
beacon_members printer b =
    members
      ((text "Id", string b.id)
        ∷ (text "Vendor", optional string b.vendor)
        ∷ (text "ProtocolVersion", optional integer b.protocol_version)
        ∷ (text "Fields", array (field_values b.fields))
        ∷ (text "Timestamp", string (printer.show_timestamp b.timestamp))
        ∷ [])
      end

unfoldable pub beacon_signature : Printer → Beacon → Str
unfolding beacon_members remove_member
beacon_signature printer b =
    printer.to_string (object (remove_member (text "Timestamp") (beacon_members printer b)))
