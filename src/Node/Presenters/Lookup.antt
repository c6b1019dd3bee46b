-- ===== src/Node/Presenters/Lookup.antt =====
-- The record that `process_beacon` leaves, and the lookup of a remote method in it.

use glycoprotein_rs.Error.{field_not_found}
use glycoprotein_rs.Prelude.Result.{◌>>=◌, ok_or}
use glycoprotein_rs.Prelude.Map.{lookup-insert_ordered, lookup}
use glycoprotein_rs.Node.{PresenterRecord, PresenterEvent, NodeInner}
use glycoprotein_rs.Prelude.Text.{Str}
use glycoprotein_rs.Protocol.{Beacon}
use glycoprotein_rs.Node.Presenters.{
  as_method, find_field, send_optional, process_beacon, find_remote_method,
}
use glycoprotein_rs.Protocol.Wire.{beacon_signature, Printer}
use glycoprotein_rs.Prelude.{
  beq_refl, pair_has_eq, list_has_eq, nat_has_eq, some, none, Option, refl, ◌≡◌, ℕ,
}

module _ (printer : Printer) (now : ℕ) (b : Beacon) (inner : NodeInner) where
  presenters-send_optional :
      (e : Option PresenterEvent) (s : NodeInner) → (send_optional e s).presenters ≡ s.presenters
  presenters-send_optional none s = refl
  presenters-send_optional (some e) s = refl

  pub lookup-process_beacon :
      lookup b.id (process_beacon printer now b inner).presenters
      ≡ some (record { beacon = b; signature = beacon_signature printer b; last_seen = now })
  unfolding process_beacon
  lookup-process_beacon =
      let r : PresenterRecord = record {
        beacon = b;
        signature = beacon_signature printer b;
        last_seen = now;
      } in
      rw
        (
          process_beacon,
          presenters-send_optional,
          lookup-insert_ordered b.id b.id r inner.presenters,
          beq_refl b.id,
        )
        refl

pub find_remote_method_known :
    (gid fid : Str) (inner : NodeInner) (r : PresenterRecord)
    → lookup gid inner.presenters ≡ some r
    → find_remote_method gid fid inner
      ≡ (ok_or (find_field fid r.beacon.fields) (field_not_found gid fid) >>= as_method gid fid)
unfolding find_remote_method
find_remote_method_known gid fid inner r e = rw (find_remote_method, e)
