-- ===== src/Protocol/Decode/Tests.antt =====
-- Some JSON texts, by their trees.

use glycoprotein_rs.Protocol.Decode.RoundTrip.{from_members-message_members, as_read}
use glycoprotein_rs.Prelude.Result.{err, ok}
use glycoprotein_rs.Json.{null, bool, string, object}
use glycoprotein_rs.Protocol.{method, query, protocol_version, beacon, Glycosyl}
use glycoprotein_rs.Protocol.Content.{from_content}
use glycoprotein_rs.Protocol.Decode.{repeated_field, unknown_variant, read_query, from_members}
use glycoprotein_rs.Protocol.Encode.{message_members, members_of, Formats}
use glycoprotein_rs.Prelude.Text.{text, Str}
use glycoprotein_rs.Prelude.{
  pair_has_eq, list_has_eq, nat_has_eq, arith, ◌∷◌, [], some, none, Option, false, true, refl, ◌≡◌,
  ℕ,
}

abbrev one_char : Str → Option ℕ
one_char (n ∷ []) = some n
one_char _ = none

abbrev formats : Formats
formats = record {
  show_uuid = λ n. n ∷ [];
  parse_uuid = one_char;
  show_timestamp = λ n. n ∷ [];
  parse_timestamp = one_char;
}

-- A query without the members that have a default, and with one that is not known
short_query :
    from_members formats 9 (
      members_of (
        (text "Gid", string (text "beta"))
        ∷ (text "Type", string (text "Query"))
        ∷ (text "Extra", bool true)
        ∷ (text "Fid", string (text "echo"))
        ∷ []))
    ≡ ok (
        query (record {
          gid = text "beta";
          source_gid = none;
          fid = text "echo";
          payload = none;
          qid = 9;
        }))
unfolding from_members read_query
short_query = refl

two_ids :
    from_members formats 9 (
      members_of (
        (text "Type", string (text "Heartbeat"))
        ∷ (text "Id", string (text "beta"))
        ∷ (text "Id", string (text "beta"))
        ∷ []))
    ≡ err (repeated_field (text "Id"))
unfolding from_members
two_ids = refl

unknown_kind :
    from_members formats 9 (members_of ((text "Type", string (text "Ping")) ∷ []))
    ≡ err (unknown_variant (text "Ping"))
unfolding from_members
unknown_kind = refl

-- A payload whose keys are read in order, the last of two equal ones counting
reordered :
    from_content
      (object (members_of ((text "b", bool true) ∷ (text "a", null) ∷ (text "b", bool false) ∷ [])))
    ≡ object (members_of ((text "a", null) ∷ (text "b", bool false) ∷ []))
unfolding from_content
reordered = refl

-- A method whose query schema is `null`, at an instant that is printed as one char
abbrev a_beacon : Glycosyl
a_beacon = beacon (record {
  id = text "beta";
  vendor = some (text "maker");
  protocol_version = some protocol_version;
  fields =
      method (record {
        id = text "echo";
        friendly_name = none;
        description = some (text "says it again");
        query_schema = some null;
        receipt_schema = some (object (members_of ((text "type", string (text "string")) ∷ [])));
      })
      ∷ [];
  timestamp = 5;
})

from_members-message_members_example :
    from_members formats 9 (message_members formats a_beacon) ≡ ok (as_read a_beacon)
from_members-message_members_example =
    from_members-message_members formats 9 a_beacon (omega arith, ((tt, (tt, tt, tt)), tt), refl)
