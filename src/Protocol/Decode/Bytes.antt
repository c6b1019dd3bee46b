-- ===== src/Protocol/Decode/Bytes.antt =====
-- `Glycosyl::to_bytes` and `Glycosyl::from_bytes` of src/protocol.rs, over serde_json's printer and
-- parser of texts.
use glycoprotein_rs.Protocol.Decode.RoundTrip.{from_members-message_members, as_read, IsPrintable}
use glycoprotein_rs.Prelude.Text.{Str}
use glycoprotein_rs.Protocol.{Glycosyl}
use glycoprotein_rs.Prelude.Result.{map_err, ◌>>=◌, ok, Result}
use glycoprotein_rs.Protocol.Decode.{DecodeError, from_members}
use glycoprotein_rs.Protocol.Encode.{Formats, message_members}
use glycoprotein_rs.Json.{Members}
use glycoprotein_rs.Prelude.{pair_has_eq, list_has_eq, nat_has_eq, List, refl, ◌≡◌, ℕ}

-- What serde_json does with the members of an object, and how it words the errors of derivations.
pub record JsonLibrary : Type 0 where
  pub to_vec : Members → Result (List ℕ) Str
  pub from_slice : List ℕ → Result Members Str
  pub show_decode : DecodeError → Str

unfoldable pub to_bytes : JsonLibrary → Formats → Glycosyl → Result (List ℕ) Str
unfolding message_members
to_bytes json formats m = json.to_vec (message_members formats m)

unfoldable pub from_bytes : JsonLibrary → Formats → ℕ → List ℕ → Result Glycosyl Str
unfolding from_members
from_bytes json formats fresh bytes = do
  ms ← json.from_slice bytes
  map_err json.show_decode (from_members formats fresh ms)

-- The library prints the tree of the message, and parses the text as that tree.
abbrev pub Rereads : JsonLibrary → Formats → Glycosyl → List ℕ → Type 0
Rereads json formats m bytes =
    (json.to_vec (message_members formats m) ≡ ok bytes)
    × (json.from_slice bytes ≡ ok (message_members formats m))

pub from_bytes-to_bytes :
    (json : JsonLibrary) (formats : Formats) (fresh : ℕ) (m : Glycosyl) (bytes : List ℕ)
    → IsPrintable formats m
    → Rereads json formats m bytes
    → (to_bytes json formats m ≡ ok bytes) × (from_bytes json formats fresh bytes ≡ ok (as_read m))
unfolding to_bytes from_bytes
from_bytes-to_bytes json formats fresh m bytes printable (printed, parsed) =
    (printed, rw (from_bytes, parsed, from_members-message_members formats fresh m printable) refl)
