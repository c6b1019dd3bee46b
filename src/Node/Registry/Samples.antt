-- ===== src/Node/Registry/Samples.antt =====
-- The registry of "beta" is in order.
use glycoprotein_rs.Prelude.Text.{text}
use glycoprotein_rs.Node.Samples.{beta}
use glycoprotein_rs.Node.Registry.Fields.{IsRegistry}
use glycoprotein_rs.Protocol.{new_event_field, new_method_field}
use glycoprotein_rs.Prelude.Map.{lookup}
use glycoprotein_rs.Prelude.{
  list_beq_iff, Bool-cases, ◌==◌, arith, inr, inl, refl, pair_has_eq, list_has_eq, nat_has_eq,
}

pub beta-IsRegistry : IsRegistry beta
unfolding lookup new_method_field new_event_field
beta-IsRegistry = record {
  methods_keyed = (refl, tt);
  events_keyed = (refl, tt);
  methods_ordered = (tt, tt);
  events_ordered = (tt, tt);
  disjoint = λ id. elim (Bool-cases (text "echo" == id)) [
    | inl t ↦ inr (rw⁻¹ ((list_beq_iff (text "echo") id).0 t) refl)
    | inr f ↦ inl (ground (arith, f))
  ];
}
