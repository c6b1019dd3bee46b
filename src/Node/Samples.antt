-- ===== src/Node/Samples.antt =====
-- Concrete nodes for the tests.

use glycoprotein_rs.Prelude.Result.{ok}
use glycoprotein_rs.Prelude.Text.{text}
use glycoprotein_rs.Node.{
  default_presenter_expiry, default_full_beacon_ticks, default_max_concurrent_handlers,
  default_query_timeout, RegisteredEvent, RegisteredMethod, NodeInner, PresenterRecord,
}
use glycoprotein_rs.Protocol.{
  method, new_event_field, new_method_field, new_beacon, MethodField, Beacon,
}
use glycoprotein_rs.Prelude.{pair_has_eq, list_has_eq, nat_has_eq, ◌∷◌, [], some, none, false, true}

abbrev pub beta_beacon : Beacon
beta_beacon = new_beacon (text "beta") (method (new_method_field (text "echo")) ∷ []) 5

abbrev pub beta_record : PresenterRecord
beta_record = record { beacon = beta_beacon; signature = text "signature"; last_seen = 5 }

abbrev pub alpha : NodeInner
alpha = record {
  id = text "alpha";
  vendor = none;
  methods = [];
  emitted_events = [];
  event_handlers = [];
  presenters = [];
  pending = [];
  channels = [];
  next_channel = 0;
  active = false;
  started = false;
  query_timeout = some default_query_timeout;
  loopback_presenter = true;
  permits = default_max_concurrent_handlers;
  presenter_events = [];
  beacon_revision = 0;
  full_beacon_ticks = default_full_beacon_ticks;
  presenter_expiry = default_presenter_expiry;
}

abbrev pub knows_beta : NodeInner
knows_beta = record alpha { presenters = (text "beta", beta_record) ∷ [] }

abbrev pub echo_field : MethodField
echo_field = new_method_field (text "echo")

abbrev pub echo : RegisteredMethod
echo = record { field = echo_field; handler = λ payload context. ok payload }

abbrev pub tick : RegisteredEvent
tick = record { field = new_event_field (text "tick"); argument_type = none }

-- "beta" serves the method "echo" and the event "tick".
abbrev pub beta : NodeInner
beta = record alpha {
  id = text "beta";
  methods = (text "echo", echo) ∷ [];
  emitted_events = (text "tick", tick) ∷ [];
  started = true;
}
