-- ===== src/Json.antt =====
-- JSON values, as `serde_json::Value` has them: an object holds its members in ascending order of
-- their keys, and a number is an unsigned integer, a negative integer (given by its absolute
-- value) or the bit pattern of a float.
use glycoprotein_rs.Prelude.{ℕ, Bool}
use glycoprotein_rs.Prelude.Text.{Str}

pub data Number : Type 0 where
  pos_int : ℕ → Number
  neg_int : ℕ → Number
  float : ℕ → Number

mutual
  pub data Value : Type 0 where
    null : Value
    bool : Bool → Value
    number : Number → Value
    string : Str → Value
    array : Values → Value
    object : Members → Value

  pub data Values : Type 0 where
    nil : Values
    cons : Value → Values → Values

  pub data Members : Type 0 where
    end : Members
    member : Str → Value → Members → Members
