-- ===== src/Mesh/Ordinal.antt =====
-- `dotnet_ordinal_cmp` of src/transport/unix_mesh.rs: the order of UTF-16 code units, which
-- decides which of two nodes opens the connection between them.
pub mod Laws
mod Tests
use glycoprotein_rs.Prelude.Text.{list_cmp, Str}
use glycoprotein_rs.Prelude.{
  ltb, ◌==◌, if◌then◌else◌, arith, ◌++◌, ◌∷◌, [], some, none, Option, ◌||◌, ◌&&◌, false, true, Bool,
  inr, inl, ◌↔◌, ◌≢◌, ◌∙◌, refl, ◌≡◌, ◌^◌, ◌%◌, ◌/◌, ◌*◌, ◌-◌, ◌+◌, suc, zero, ◌≤◌, ◌⊎◌, ◌<◌,
  Ordering, List, ℕ,
}

-- A char of Rust: a Unicode scalar value, which is no surrogate.
abbrev pub IsScalar : ℕ → Type 0
IsScalar c = (c < 0x110000) × ((c < 0xd800) ⊎ (0xe000 ≤ c))

-- `str::encode_utf16`
unfoldable pub encode_utf16 : Str → List ℕ
encode_utf16 [] = []
encode_utf16 (c ∷ cs) =
    if ltb c 0x10000
    then c ∷ encode_utf16 cs
    else (0xd800 + (c - 0x10000) / 0x400) ∷ (0xdc00 + (c - 0x10000) % 0x400) ∷ encode_utf16 cs

unfoldable pub dotnet_ordinal_cmp : Str → Str → Ordering
unfolding encode_utf16
dotnet_ordinal_cmp left right = list_cmp (encode_utf16 left) (encode_utf16 right)
