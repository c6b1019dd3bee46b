-- ===== src/Node/Registry/Tests.antt =====
-- The fields of "beta".

use glycoprotein_rs.Node.Registry.Samples.{beta-IsRegistry}
use glycoprotein_rs.Prelude.Map.{lookup}
use glycoprotein_rs.Node.{NodeInner}
use glycoprotein_rs.Error.{duplicate_field}
use glycoprotein_rs.Prelude.Result.{ok, err}
use glycoprotein_rs.Protocol.{new_method_field}
use glycoprotein_rs.Prelude.Text.{Str, text}
use glycoprotein_rs.Node.Samples.{echo, beta}
use glycoprotein_rs.Node.Presenters.{find_field}
use glycoprotein_rs.Node.Registry.Published.{
  build_beacon-fields, as_event_field, as_method_field, or_field, IsAscending,
}
use glycoprotein_rs.Node.Registry.{insert_method, build_beacon, remove_field, is_taken}
use glycoprotein_rs.Node.Registry.Fields.{
  insert_method-IsRegistry, remove_field-IsRegistry, IsRegistry,
}
use glycoprotein_rs.Prelude.{
  pair_has_eq, list_has_eq, nat_has_eq, ◌==◌, if◌then◌else◌, some, false, true, ◌⊎◌, ◌≡◌,
}

insert_method-IsRegistry_example :
    ((is_taken (text "tick") beta ≡ true)
      × (insert_method (new_method_field (text "tick")) echo.handler beta
          ≡ err (duplicate_field (text "tick"))))
    ⊎ ((after : NodeInner) × (is_taken (text "tick") beta ≡ false)
        × (insert_method (new_method_field (text "tick")) echo.handler beta ≡ ok after)
        × IsRegistry after
        × (lookup (text "tick") after.methods
            ≡ some (record { field = new_method_field (text "tick"); handler = echo.handler })))
unfolding new_method_field
insert_method-IsRegistry_example =
    insert_method-IsRegistry (new_method_field (text "tick")) echo.handler beta beta-IsRegistry

remove_field-IsRegistry_example :
    IsRegistry (remove_field (text "echo") beta).0
    × ((remove_field (text "echo") beta).1 ≡ is_taken (text "echo") beta)
    × ((id : Str)
        → is_taken id (remove_field (text "echo") beta).0
          ≡ (if text "echo" == id then false else is_taken id beta))
remove_field-IsRegistry_example = remove_field-IsRegistry (text "echo") beta beta-IsRegistry

build_beacon-fields_example :
    IsAscending (build_beacon 9 beta).fields
    × ((id : Str)
        → find_field id (build_beacon 9 beta).fields
          ≡ or_field
              (as_method_field (lookup id beta.methods))
              (as_event_field (lookup id beta.emitted_events)))
build_beacon-fields_example = build_beacon-fields 9 beta beta-IsRegistry
