-- ===== src/Node.antt =====
-- The state of a node (`NodeInner` of src/node.rs) with the operations on it that are one step
-- under its locks. The clock, fresh ids and the printers are arguments; locks and atomics are
-- plain fields, since each operation here holds what it needs while it runs. The connexon, the list
-- of tasks and the intervals of the timers are left out.
pub mod Presenters
pub mod Samples
pub mod Registry
pub mod Calls
pub mod Requests
pub mod Handlers
pub mod Beacons
pub mod Typed
pub mod Events
pub mod Options
pub mod Lifecycle
pub mod Remote
use glycoprotein_rs.Prelude.Map.{Map}
use glycoprotein_rs.Error.{invalid_node_id, GlycoError, RemoteError, HandlerError}
use glycoprotein_rs.Protocol.{EventField, MethodField, Beacon}
use glycoprotein_rs.Prelude.Result.{ok, err, Result}
use glycoprotein_rs.Json.{Value}
use glycoprotein_rs.Prelude.Text.{text, Str}
use glycoprotein_rs.Prelude.{
  not, max, pair_has_eq, list_has_eq, nat_has_eq, ◌==◌, if◌then◌else◌, arith, ◌++◌, ◌∷◌, [], List,
  some, none, Option, ◌||◌, ◌&&◌, false, true, Bool, inr, inl, ◌⊎◌, ◌↔◌, ◌≢◌, ◌∙◌, refl, ◌≡◌, ◌<◌,
  ◌≤◌, ◌^◌, ◌%◌, ◌/◌, ◌*◌, ◌-◌, ◌+◌, suc, zero, ℕ,
}

-- Durations are nanoseconds.
abbrev pub seconds : ℕ → ℕ
seconds n = n * 1_000_000_000

abbrev pub default_query_timeout : ℕ
default_query_timeout = seconds 30

abbrev pub default_heartbeat_interval : ℕ
default_heartbeat_interval = seconds 1

abbrev pub default_full_beacon_ticks : ℕ
default_full_beacon_ticks = 5

abbrev pub default_presenter_expiry : ℕ
default_presenter_expiry = seconds 3

abbrev pub default_cleanup_interval : ℕ
default_cleanup_interval = seconds 1

abbrev pub default_max_concurrent_handlers : ℕ
default_max_concurrent_handlers = 64

-- `cancellation` names the token.
pub record RequestContext : Type 0 where
  pub qid : ℕ
  pub source_gid : Option Str
  pub cancellation : ℕ

-- A handler is the result that its future yields.
abbrev pub RawMethodHandler : Type 0
RawMethodHandler = Option Value → RequestContext → Result (Option Value) HandlerError

abbrev pub RawEventHandler : Type 0
RawEventHandler = Option Value → Result (Unit {0}) HandlerError

abbrev pub PendingReply : Type 0
PendingReply = Result (Option Value) RemoteError

-- What the receiver of a oneshot channel finds: nothing yet, a reply, or that the sender is gone.
pub data ChannelState : Type 0 where
  waiting : ChannelState
  sent : PendingReply → ChannelState
  dropped : ChannelState

pub data PresenterEvent : Type 0 where
  discovered : Beacon → PresenterEvent
  changed : (previous current : Beacon) → PresenterEvent
  expired : Beacon → PresenterEvent

pub record RegisteredMethod : Type 0 where
  pub field : MethodField
  pub handler : RawMethodHandler

-- A `TypeId` is a number.
pub record RegisteredEvent : Type 0 where
  pub field : EventField
  pub argument_type : Option ℕ

pub record PresenterRecord : Type 0 where
  pub beacon : Beacon
  pub signature : Str
  pub last_seen : ℕ

pub record NodeInner : Type 0 where
  pub id : Str
  pub vendor : Option Str
  pub methods : Map Str RegisteredMethod
  pub emitted_events : Map Str RegisteredEvent
  pub event_handlers : Map (Str × Str) RawEventHandler
  pub presenters : Map Str PresenterRecord
  -- the sender of the reply channel of each call that waits, by the number of the channel
  pub pending : Map ℕ ℕ
  pub channels : Map ℕ ChannelState
  pub next_channel : ℕ
  -- whether `active_cancellation` is set
  pub active : Bool
  pub started : Bool
  pub query_timeout : Option ℕ
  pub loopback_presenter : Bool
  -- the free permits of the handler semaphore
  pub permits : ℕ
  -- every presenter event that was sent, oldest first
  pub presenter_events : List PresenterEvent
  pub beacon_revision : ℕ
  pub full_beacon_ticks : ℕ
  pub presenter_expiry : ℕ

-- What `GlycoComplexBuilder` collects, for a connexon whose id is `connexon_id`.
pub record GlycoComplexBuilder : Type 0 where
  pub id : Str
  pub vendor : Option Str
  pub query_timeout : Option ℕ
  pub loopback_presenter : Bool
  pub max_concurrent_handlers : ℕ

unfoldable pub new_builder : Str → GlycoComplexBuilder
new_builder id = record {
  id = id;
  vendor = none;
  query_timeout = some default_query_timeout;
  loopback_presenter = true;
  max_concurrent_handlers = default_max_concurrent_handlers;
}

-- `GlycoComplexBuilder::max_concurrent_handlers`
unfoldable pub with_max_concurrent_handlers : GlycoComplexBuilder → ℕ → GlycoComplexBuilder
with_max_concurrent_handlers b maximum = record b { max_concurrent_handlers = max maximum 1 }

-- `GlycoComplexBuilder::build`, given the id of its connexon
unfoldable pub build : GlycoComplexBuilder → Str → Result NodeInner GlycoError
build b connexon_id =
    if not (connexon_id == b.id)
    then err (
        invalid_node_id (
          text "builder id '"
          ++ b.id
          ++ text "' does not match connexon id '"
          ++ connexon_id
          ++ text "'"))
    else ok (record {
      id = b.id;
      vendor = b.vendor;
      methods = [];
      emitted_events = [];
      event_handlers = [];
      presenters = [];
      pending = [];
      channels = [];
      next_channel = 0;
      active = false;
      started = false;
      query_timeout = b.query_timeout;
      loopback_presenter = b.loopback_presenter;
      permits = b.max_concurrent_handlers;
      presenter_events = [];
      beacon_revision = 0;
      full_beacon_ticks = default_full_beacon_ticks;
      presenter_expiry = default_presenter_expiry;
    })
