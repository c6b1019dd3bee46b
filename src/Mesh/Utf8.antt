-- ===== src/Mesh/Utf8.antt =====
-- UTF-8, as `str::as_bytes` writes it and `String::from_utf8` reads it: the handshake of
-- src/transport/unix_mesh.rs carries a node's id so.
use glycoprotein_rs.Mesh.Ordinal.{IsScalar}
use glycoprotein_rs.Prelude.Text.{Str}
use glycoprotein_rs.Prelude.{
  All, Bool-cases, ap, leb, ltb, pair_has_eq, list_has_eq, nat_has_eq, ◌==◌, if◌then◌else◌, arith,
  ◌++◌, ◌∷◌, [], List, some, none, Option, ◌||◌, ◌&&◌, true, Bool, inr, inl, ◌∙◌, refl, ◌≡◌, ◌<◌,
  ◌%◌, ◌/◌, ◌*◌, ◌-◌, ◌+◌, suc, zero, ℕ,
}

unfoldable pub encode_char : ℕ → List ℕ
encode_char c =
    if ltb c 0x80
    then c ∷ []
    else if ltb c 0x800
    then (0xc0 + c / 0x40) ∷ (0x80 + c % 0x40) ∷ []
    else if ltb c 0x10000
    then (0xe0 + c / 0x1000) ∷ (0x80 + c / 0x40 % 0x40) ∷ (0x80 + c % 0x40) ∷ []
    else (0xf0 + c / 0x40000)
      ∷ (0x80 + c / 0x1000 % 0x40)
      ∷ (0x80 + c / 0x40 % 0x40)
      ∷ (0x80 + c % 0x40)
      ∷ []

unfoldable pub as_bytes : Str → List ℕ
as_bytes [] = []
as_bytes (c ∷ cs) = encode_char c ++ as_bytes cs

-- How many bytes follow a first byte, the bits that it holds, and the least char of that length.
unfoldable pub lead : ℕ → Option (ℕ × ℕ × ℕ)
lead b =
    if ltb b 0x80
    then some (0, b, 0)
    else if ltb b 0xc0
    then none
    else if ltb b 0xe0
    then some (1, b - 0xc0, 0x80)
    else if ltb b 0xf0
    then some (2, b - 0xe0, 0x800)
    else if ltb b 0xf8
    then some (3, b - 0xf0, 0x10000)
    else none

-- Neither overlong nor a surrogate nor too large
unfoldable pub is_char : ℕ → ℕ → Bool
is_char least c = leb least c && ltb c 0x110000 && (ltb c 0xd800 || leb 0xe000 c)

abbrev pub prepend_char : ℕ → Option Str → Option Str
prepend_char c none = none
prepend_char c (some cs) = some (c ∷ cs)

-- The bytes behind `missing` bytes of a char, of which `c` is read.
unfoldable pub decode : List ℕ → ℕ → ℕ → ℕ → Option Str
decode [] zero c least = some []
decode [] (suc missing) c least = none
decode (b ∷ bs) zero c least = elim (lead b) [
  | none ↦ none
  | some (missing, first, least') ↦
      let rest = decode bs missing first least' in
      if missing == 0 then prepend_char first rest else rest
]
decode (b ∷ bs) (suc missing) c least =
    let c' = c * 0x40 + (b - 0x80) in
    let rest = decode bs missing c' least in
    if ltb b 0x80 || leb 0xc0 b
    then none
    else if missing == 0
    then if is_char least c' then prepend_char c' rest else none
    else rest

unfoldable pub from_utf8 : List ℕ → Option Str
unfolding decode
from_utf8 bytes = decode bytes 0 0 0

decode_fresh : (bs : List ℕ) (c least : ℕ) → decode bs 0 c least ≡ decode bs 0 0 0
unfolding decode
decode_fresh [] c least = refl
decode_fresh (b ∷ bs) c least = refl

decode-lead :
    (b missing first least : ℕ) (bs : List ℕ)
    → lead b ≡ some (suc missing, first, least)
    → decode (b ∷ bs) 0 0 0 ≡ decode bs (suc missing) first least
unfolding decode
decode-lead b missing first least bs h = ground (arith, h)

decode_more :
    (x missing c least : ℕ) (bs : List ℕ)
    → x < 0x40
    → decode ((0x80 + x) ∷ bs) (suc (suc missing)) c least
      ≡ decode bs (suc missing) (c * 0x40 + x) least
unfolding decode
decode_more x missing c least bs h =
    let e : c * 0x40 + (0x80 + x - 0x80) ≡ c * 0x40 + x = omega arith in
    ground (arith, ap (λ d. decode bs (suc missing) d least) e)

decode_last :
    (x c least d : ℕ) (bs : List ℕ)
    → x < 0x40
    → c * 0x40 + x ≡ d
    → is_char least d ≡ true
    → decode ((0x80 + x) ∷ bs) 1 c least ≡ prepend_char d (decode bs 0 0 0)
unfolding decode
decode_last x c least d bs h e v =
    let e' : c * 0x40 + (0x80 + x - 0x80) ≡ d = omega arith in
    rw e' (ground (arith, v, decode_fresh bs d least))

decode-encode_char :
    (c : ℕ) (bs : List ℕ)
    → IsScalar c
    → decode (encode_char c ++ bs) 0 0 0 ≡ prepend_char c (decode bs 0 0 0)
unfolding encode_char
decode-encode_char c bs v = elim (Bool-cases (ltb c 0x80)) [
  | inl t ↦ rw (encode_char, t) (unfold decode lead in ground (arith, t, decode_fresh bs c 0))
  | inr f ↦ elim (Bool-cases (ltb c 0x800)) [
    | inl t ↦
        rw (encode_char, f, t)
          (decode-lead (0xc0 + c / 0x40) 0 (c / 0x40) 0x80 ((0x80 + c % 0x40) ∷ bs)
              (unfold lead in ground arith)
            ∙ decode_last (c % 0x40) (c / 0x40) 0x80 c bs (omega arith) (omega arith)
                (unfold is_char in ground arith))
    | inr g ↦ elim (Bool-cases (ltb c 0x10000)) [
      | inl t ↦
          rw (encode_char, f, g, t)
            (decode-lead (0xe0 + c / 0x1000) 1 (c / 0x1000) 0x800
                ((0x80 + c / 0x40 % 0x40) ∷ (0x80 + c % 0x40) ∷ bs) (unfold lead in ground arith)
              ∙ decode_more (c / 0x40 % 0x40) 0 (c / 0x1000) 0x800 ((0x80 + c % 0x40) ∷ bs)
                  (omega arith)
              ∙ decode_last (c % 0x40) (c / 0x1000 * 0x40 + c / 0x40 % 0x40) 0x800 c bs
                  (omega arith) (omega arith) (unfold is_char in ground (arith, v)))
      | inr h ↦
          rw (encode_char, f, g, h)
            (decode-lead (0xf0 + c / 0x40000) 2 (c / 0x40000) 0x10000
                ((0x80 + c / 0x1000 % 0x40) ∷ (0x80 + c / 0x40 % 0x40) ∷ (0x80 + c % 0x40) ∷ bs)
                (unfold lead in ground (arith, v))
              ∙ decode_more (c / 0x1000 % 0x40) 1 (c / 0x40000) 0x10000
                  ((0x80 + c / 0x40 % 0x40) ∷ (0x80 + c % 0x40) ∷ bs) (omega arith)
              ∙ decode_more (c / 0x40 % 0x40) 0 (c / 0x40000 * 0x40 + c / 0x1000 % 0x40) 0x10000
                  ((0x80 + c % 0x40) ∷ bs) (omega arith)
              ∙ decode_last (c % 0x40)
                  ((c / 0x40000 * 0x40 + c / 0x1000 % 0x40) * 0x40 + c / 0x40 % 0x40) 0x10000 c bs
                  (omega arith) (omega arith) (unfold is_char in ground (arith, v)))
    ]
  ]
]

-- The bytes of a text read back as the text.
pub from_utf8-as_bytes : (s : Str) → All IsScalar s → from_utf8 (as_bytes s) ≡ some s
unfolding from_utf8 as_bytes
from_utf8-as_bytes [] v = unfold decode in refl
from_utf8-as_bytes (c ∷ cs) (v, vs) =
    decode-encode_char c (as_bytes cs) v ∙ ap (prepend_char c) (from_utf8-as_bytes cs vs)
