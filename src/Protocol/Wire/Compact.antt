-- ===== src/Protocol/Wire/Compact.antt =====
-- A concrete printer for the tests: each value starts with a tag, and each string with its length.

use glycoprotein_rs.Protocol.Wire.{Printer}
use glycoprotein_rs.Json.{
  end, nil, null, member, Members, cons, Values, object, array, string, string, number, number,
  bool, bool, Value, float, neg_int, pos_int,
}
use glycoprotein_rs.Prelude.Text.{Str}
use glycoprotein_rs.Prelude.{
  pair_has_eq, list_has_eq, nat_has_eq, arith, refl, ◌≡◌, length, if◌then◌else◌, ◌++◌, ◌∷◌, [],
}

unfoldable mutual
  -- The codes of a value, in front of those of what follows.
  pub value_codes : Value → Str → Str
  value_codes null rest = 0 ∷ rest
  value_codes (bool b) rest = 1 ∷ (if b then 1 else 0) ∷ rest
  value_codes (number (pos_int n)) rest = 2 ∷ n ∷ rest
  value_codes (number (neg_int n)) rest = 3 ∷ n ∷ rest
  value_codes (number (float n)) rest = 4 ∷ n ∷ rest
  value_codes (string s) rest = 5 ∷ length s ∷ s ++ rest
  value_codes (array vs) rest = 6 ∷ values_codes vs rest
  value_codes (object ms) rest = 7 ∷ members_codes ms rest

  pub values_codes : Values → Str → Str
  values_codes nil rest = 0 ∷ rest
  values_codes (cons v vs) rest = 1 ∷ value_codes v (values_codes vs rest)

  pub members_codes : Members → Str → Str
  members_codes end rest = 0 ∷ rest
  members_codes (member k v ms) rest = 1 ∷ length k ∷ k ++ value_codes v (members_codes ms rest)

abbrev pub compact : Printer
compact = record { to_string = λ v. value_codes v []; show_timestamp = λ n. n ∷ [] }

append-injective : (s t x y : Str) → length s ≡ length t → s ++ x ≡ t ++ y → (s ≡ t) × (x ≡ y)
append-injective [] [] x y n h = (refl, h)
append-injective [] (c ∷ t) x y n h = ground arith
append-injective (c ∷ s) [] x y n h = ground arith
append-injective (c ∷ s) (d ∷ t) x y n h = ground (arith, append-injective s t x y)

mutual
  unfolding value_codes

  pub value_codes-injective :
      (v w : Value) (x y : Str) → value_codes v x ≡ value_codes w y → (v ≡ w) × (x ≡ y)
  value_codes-injective null null x y h = ground arith
  value_codes-injective null (bool b) x y h = ground arith
  value_codes-injective null (number (pos_int b)) x y h = ground arith
  value_codes-injective null (number (neg_int b)) x y h = ground arith
  value_codes-injective null (number (float b)) x y h = ground arith
  value_codes-injective null (string b) x y h = ground arith
  value_codes-injective null (array b) x y h = ground arith
  value_codes-injective null (object b) x y h = ground arith
  value_codes-injective (bool a) null x y h = ground arith
  value_codes-injective (bool a) (bool b) x y h = ground arith
  value_codes-injective (bool a) (number (pos_int b)) x y h = ground arith
  value_codes-injective (bool a) (number (neg_int b)) x y h = ground arith
  value_codes-injective (bool a) (number (float b)) x y h = ground arith
  value_codes-injective (bool a) (string b) x y h = ground arith
  value_codes-injective (bool a) (array b) x y h = ground arith
  value_codes-injective (bool a) (object b) x y h = ground arith
  value_codes-injective (number (pos_int a)) null x y h = ground arith
  value_codes-injective (number (pos_int a)) (bool b) x y h = ground arith
  value_codes-injective (number (pos_int a)) (number (pos_int b)) x y h = ground arith
  value_codes-injective (number (pos_int a)) (number (neg_int b)) x y h = ground arith
  value_codes-injective (number (pos_int a)) (number (float b)) x y h = ground arith
  value_codes-injective (number (pos_int a)) (string b) x y h = ground arith
  value_codes-injective (number (pos_int a)) (array b) x y h = ground arith
  value_codes-injective (number (pos_int a)) (object b) x y h = ground arith
  value_codes-injective (number (neg_int a)) null x y h = ground arith
  value_codes-injective (number (neg_int a)) (bool b) x y h = ground arith
  value_codes-injective (number (neg_int a)) (number (pos_int b)) x y h = ground arith
  value_codes-injective (number (neg_int a)) (number (neg_int b)) x y h = ground arith
  value_codes-injective (number (neg_int a)) (number (float b)) x y h = ground arith
  value_codes-injective (number (neg_int a)) (string b) x y h = ground arith
  value_codes-injective (number (neg_int a)) (array b) x y h = ground arith
  value_codes-injective (number (neg_int a)) (object b) x y h = ground arith
  value_codes-injective (number (float a)) null x y h = ground arith
  value_codes-injective (number (float a)) (bool b) x y h = ground arith
  value_codes-injective (number (float a)) (number (pos_int b)) x y h = ground arith
  value_codes-injective (number (float a)) (number (neg_int b)) x y h = ground arith
  value_codes-injective (number (float a)) (number (float b)) x y h = ground arith
  value_codes-injective (number (float a)) (string b) x y h = ground arith
  value_codes-injective (number (float a)) (array b) x y h = ground arith
  value_codes-injective (number (float a)) (object b) x y h = ground arith
  value_codes-injective (string a) null x y h = ground arith
  value_codes-injective (string a) (bool b) x y h = ground arith
  value_codes-injective (string a) (number (pos_int b)) x y h = ground arith
  value_codes-injective (string a) (number (neg_int b)) x y h = ground arith
  value_codes-injective (string a) (number (float b)) x y h = ground arith
  value_codes-injective (string a) (string b) x y h = ground (arith, append-injective a b x y)
  value_codes-injective (string a) (array b) x y h = ground arith
  value_codes-injective (string a) (object b) x y h = ground arith
  value_codes-injective (array a) null x y h = ground arith
  value_codes-injective (array a) (bool b) x y h = ground arith
  value_codes-injective (array a) (number (pos_int b)) x y h = ground arith
  value_codes-injective (array a) (number (neg_int b)) x y h = ground arith
  value_codes-injective (array a) (number (float b)) x y h = ground arith
  value_codes-injective (array a) (string b) x y h = ground arith
  value_codes-injective (array a) (array b) x y h = ground (arith, values_codes-injective a b x y)
  value_codes-injective (array a) (object b) x y h = ground arith
  value_codes-injective (object a) null x y h = ground arith
  value_codes-injective (object a) (bool b) x y h = ground arith
  value_codes-injective (object a) (number (pos_int b)) x y h = ground arith
  value_codes-injective (object a) (number (neg_int b)) x y h = ground arith
  value_codes-injective (object a) (number (float b)) x y h = ground arith
  value_codes-injective (object a) (string b) x y h = ground arith
  value_codes-injective (object a) (array b) x y h = ground arith
  value_codes-injective (object a) (object b) x y h =
      ground (arith, members_codes-injective a b x y)

  values_codes-injective :
      (a b : Values) (x y : Str) → values_codes a x ≡ values_codes b y → (a ≡ b) × (x ≡ y)
  values_codes-injective nil nil x y h = ground arith
  values_codes-injective nil (cons w ws) x y h = ground arith
  values_codes-injective (cons v vs) nil x y h = ground arith
  values_codes-injective (cons v vs) (cons w ws) x y h = ground (
    arith,
    value_codes-injective v w (values_codes vs x) (values_codes ws y),
    values_codes-injective vs ws x y,
  )

  members_codes-injective :
      (a b : Members) (x y : Str) → members_codes a x ≡ members_codes b y → (a ≡ b) × (x ≡ y)
  members_codes-injective end end x y h = ground arith
  members_codes-injective end (member k w ws) x y h = ground arith
  members_codes-injective (member k v vs) end x y h = ground arith
  members_codes-injective (member k v vs) (member l w ws) x y h = ground (
    arith,
    append-injective k l (value_codes v (members_codes vs x)) (value_codes w (members_codes ws y)),
    value_codes-injective v w (members_codes vs x) (members_codes ws y),
    members_codes-injective vs ws x y,
  )
