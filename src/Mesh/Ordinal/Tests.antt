-- ===== src/Mesh/Ordinal/Tests.antt =====
-- The comparisons of the source's own test, and one in which UTF-16 and the scalar values differ.
use glycoprotein_rs.Prelude.Text.{text}
use glycoprotein_rs.Mesh.Ordinal.{dotnet_ordinal_cmp}
use glycoprotein_rs.Prelude.{Ordering, pair_has_eq, list_has_eq, nat_has_eq, ◌∷◌, [], refl, ◌≡◌}

orders :
    (dotnet_ordinal_cmp (text "alpha") (text "beta") ≡ Ordering.lt)
    × (dotnet_ordinal_cmp (text "beta") (text "alpha") ≡ Ordering.gt)
    × (dotnet_ordinal_cmp (text "same") (text "same") ≡ Ordering.eq)
unfolding dotnet_ordinal_cmp
orders = (refl, refl, refl)

surrogates_first : dotnet_ordinal_cmp (0xffff ∷ []) (0x10000 ∷ []) ≡ Ordering.gt
unfolding dotnet_ordinal_cmp
surrogates_first = refl
