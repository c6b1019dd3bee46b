-- ===== src/Mesh/Ordinal/Laws.antt =====
-- The ordinal order is a total order on the strings of Rust.
use glycoprotein_rs.Prelude.{arith, ◌∷◌, [], refl, Ordering, ◌≡◌, ◌≡◌, All}
use glycoprotein_rs.Prelude.Text.{list_cmp_trans, list_cmp-flip, list_cmp_eq, flip, Str}
use glycoprotein_rs.Mesh.Ordinal.{IsScalar, dotnet_ordinal_cmp, encode_utf16}

encode_utf16_injective :
    (a b : Str) → All IsScalar a → All IsScalar b → encode_utf16 a ≡ encode_utf16 b → a ≡ b
unfolding encode_utf16
encode_utf16_injective [] [] ha hb h = refl
encode_utf16_injective [] (y ∷ ys) ha hb h = ground arith
encode_utf16_injective (x ∷ xs) [] ha hb h = ground arith
encode_utf16_injective (x ∷ xs) (y ∷ ys) ha hb h =
    ground (arith, encode_utf16_injective xs ys ha.1 hb.1)

pub dotnet_ordinal_cmp_eq :
    (a b : Str) → All IsScalar a → All IsScalar b → dotnet_ordinal_cmp a b ≡ Ordering.eq → a ≡ b
dotnet_ordinal_cmp_eq a b ha hb h =
    encode_utf16_injective a b ha hb (unfold dotnet_ordinal_cmp in list_cmp_eq _ _ h)

pub dotnet_ordinal_cmp-flip : (a b : Str) → dotnet_ordinal_cmp b a ≡ flip (dotnet_ordinal_cmp a b)
unfolding dotnet_ordinal_cmp
dotnet_ordinal_cmp-flip a b = list_cmp-flip (encode_utf16 a) (encode_utf16 b)

pub dotnet_ordinal_cmp_trans :
    (a b c : Str)
    → dotnet_ordinal_cmp a b ≡ Ordering.lt
    → dotnet_ordinal_cmp b c ≡ Ordering.lt
    → dotnet_ordinal_cmp a c ≡ Ordering.lt
unfolding dotnet_ordinal_cmp
dotnet_ordinal_cmp_trans a b c h k = list_cmp_trans _ (encode_utf16 b) _ h k
