-- ===== src/Node/Options.antt =====
-- The plain setters of src/node.rs: `CallOptions`, those of the builder and those of a node.
use glycoprotein_rs.Prelude.Text.{Str}
use glycoprotein_rs.Node.Registry.{mark_beacon_changed}
use glycoprotein_rs.Node.{NodeInner, GlycoComplexBuilder, default_query_timeout}
use glycoprotein_rs.Prelude.{pair_has_eq, list_has_eq, nat_has_eq, some, Option, Bool, ℕ}

-- `cancellation` names the token.
pub record CallOptions : Type 0 where
  pub timeout : Option ℕ
  pub cancellation : ℕ

-- `CallOptions::default`, whose token is new.
unfoldable pub default_options : ℕ → CallOptions
default_options token = record { timeout = some default_query_timeout; cancellation = token }

unfoldable pub with_timeout : CallOptions → Option ℕ → CallOptions
with_timeout options timeout = record options { timeout = timeout }

unfoldable pub with_cancellation : CallOptions → ℕ → CallOptions
with_cancellation options token = record options { cancellation = token }

-- `GlycoComplexBuilder::vendor`, `query_timeout` and `loopback_presenter`
unfoldable pub with_vendor : GlycoComplexBuilder → Str → GlycoComplexBuilder
with_vendor b vendor = record b { vendor = some vendor }

unfoldable pub with_query_timeout : GlycoComplexBuilder → Option ℕ → GlycoComplexBuilder
with_query_timeout b timeout = record b { query_timeout = timeout }

unfoldable pub with_loopback_presenter : GlycoComplexBuilder → Bool → GlycoComplexBuilder
with_loopback_presenter b enabled = record b { loopback_presenter = enabled }

unfoldable pub set_query_timeout : Option ℕ → NodeInner → NodeInner
set_query_timeout timeout inner = record inner { query_timeout = timeout }

unfoldable pub set_loopback_presenter : Bool → NodeInner → NodeInner
set_loopback_presenter enabled inner = record inner { loopback_presenter = enabled }

unfoldable pub refresh_beacon : NodeInner → NodeInner
unfolding mark_beacon_changed
refresh_beacon inner = mark_beacon_changed inner

-- `call_raw`: a new token, the timeout of the node, and the call with these options, which is an
-- argument.
unfoldable pub call_raw : {R : Type 0} → (CallOptions → NodeInner → R) → ℕ → NodeInner → R
unfolding default_options
call_raw call_raw_with_options token inner =
    call_raw_with_options (record (default_options token) { timeout = inner.query_timeout }) inner
