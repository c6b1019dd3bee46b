-- ===== src/Node/Handlers/Permits.antt =====
-- The handler semaphore: at most `max_concurrent_handlers` handlers run at a time.
use glycoprotein_rs.Node.Registry.{mark_beacon_changed, add_event, add_method, remove_field}
use glycoprotein_rs.Prelude.Text.{Str}
use glycoprotein_rs.Error.{HandlerError}
use glycoprotein_rs.Json.{Value}
use glycoprotein_rs.Prelude.Result.{Result}
use glycoprotein_rs.Protocol.Wire.{Printer}
use glycoprotein_rs.Node.Calls.{clear_pending, remove_pending, insert_pending, process_reply}
use glycoprotein_rs.Node.Presenters.{take_expired, process_heartbeat, process_beacon}
use glycoprotein_rs.Protocol.{
  EventField, MethodField, event, query, reply, heartbeat, beacon, Glycosyl, Query,
}
use glycoprotein_rs.Node.Handlers.{
  release, acquire, awaits, finish_query, dispatch_message, start_query,
}
use glycoprotein_rs.Node.{RequestContext, RawMethodHandler, NodeInner}
use glycoprotein_rs.Prelude.{
  [], false, true, ◌≢◌, pair_has_eq, list_has_eq, nat_has_eq, arith, Option, ◌∙◌, refl, ◌≡◌, ◌+◌,
  suc, ℕ,
}

-- A step of the tasks of a node, with the number of permits that they hold: the task of a query takes
-- a permit, and then either has found its handler, or gives the permit back and refuses; or it finds
-- no permit; a handler yields, another message comes in, a field is added or removed, a call of the
-- node itself begins, ends or sets its pending entry back, the presenters are cleaned up, the node is
-- started or stopped.
pub data Step : NodeInner × ℕ → NodeInner × ℕ → Type 0 where
  starts :
      (token : ℕ) (q : Query) (s t : NodeInner) (n : ℕ) (handler : RawMethodHandler)
      (context : RequestContext)
      → start_query token q s ≡ (awaits handler context, t)
      → Step (s, n) (t, suc n)
  acquires : (s : NodeInner) (n : ℕ) → s.permits ≢ 0 → Step (s, n) (acquire s, suc n)
  releases : (s : NodeInner) (n : ℕ) → Step (s, suc n) (release s, n)
  finishes :
      (q : Query) (result : Result (Option Value) HandlerError) (s : NodeInner) (n : ℕ)
      → Step (s, suc n) ((finish_query q result s).1, n)
  receives :
      (printer : Printer) (now : ℕ) (message : Glycosyl) (s : NodeInner) (n : ℕ)
      → Step (s, n) ((dispatch_message printer now message s).1, n)
  adds_method :
      (field : MethodField) (handler : RawMethodHandler) (s : NodeInner) (n : ℕ)
      → Step (s, n) (add_method field handler s, n)
  adds_event :
      (field : EventField) (argument_type : Option ℕ) (s : NodeInner) (n : ℕ)
      → Step (s, n) (add_event field argument_type s, n)
  removes : (fid : Str) (s : NodeInner) (n : ℕ) → Step (s, n) ((remove_field fid s).0, n)
  begins : (qid : ℕ) (s : NodeInner) (n : ℕ) → Step (s, n) (insert_pending qid s, n)
  ends : (qid : ℕ) (s : NodeInner) (n : ℕ) → Step (s, n) (remove_pending qid s, n)
  cleans : (now : ℕ) (s : NodeInner) (n : ℕ) → Step (s, n) ((take_expired now s).1, n)
  goes_up : (s : NodeInner) (n : ℕ) → Step (s, n) (record s { active = true; started = true }, n)
  goes_down :
      (s : NodeInner) (n : ℕ) → Step (s, n) (record s { started = false; active = false }, n)
  clears : (s : NodeInner) (n : ℕ) → Step (s, n) (clear_pending (record s { presenters = [] }), n)

pub data Steps (x : NodeInner × ℕ) : NodeInner × ℕ → Type 0 where
  done : Steps x x
  after : {y z : NodeInner × ℕ} → Steps x y → Step y z → Steps x z

start_query-awaits :
    (token : ℕ) (q : Query) (s t : NodeInner) (handler : RawMethodHandler)
    (context : RequestContext)
    → start_query token q s ≡ (awaits handler context, t)
    → suc t.permits ≡ s.permits
unfolding start_query
start_query-awaits token q s t handler context h = ground (arith)

dispatch_message-permits :
    (printer : Printer) (now : ℕ) (message : Glycosyl) (s : NodeInner)
    → (dispatch_message printer now message s).1.permits ≡ s.permits
unfolding dispatch_message process_beacon process_heartbeat process_reply
dispatch_message-permits printer now (beacon b) s = ground arith
dispatch_message-permits printer now (heartbeat h) s = ground arith
dispatch_message-permits printer now (reply r) s = ground arith
dispatch_message-permits printer now (query q) s = refl
dispatch_message-permits printer now (event e) s = ground arith

remove_field-permits : (fid : Str) (s : NodeInner) → (remove_field fid s).0.permits ≡ s.permits
unfolding remove_field
remove_field-permits fid s = ground arith

-- Free permits and those that are held.
abbrev capacity : NodeInner × ℕ → ℕ
capacity (s, n) = s.permits + n

Step-capacity : {x y : NodeInner × ℕ} → Step x y → capacity y ≡ capacity x
unfolding finish_query acquire release add_method add_event mark_beacon_changed insert_pending
    remove_pending take_expired clear_pending
Step-capacity (starts token q s t n handler context h) =
    ground (arith, start_query-awaits token q s t handler context h)
Step-capacity (acquires s n free) = omega (arith, free)
Step-capacity (releases s n) = omega arith
Step-capacity (finishes q result s n) = omega arith
Step-capacity (receives printer now message s n) =
    ground (arith, dispatch_message-permits printer now message s)
Step-capacity (adds_method field handler s n) = refl
Step-capacity (adds_event field argument_type s n) = refl
Step-capacity (removes fid s n) = ground (arith, remove_field-permits fid s)
Step-capacity (begins qid s n) = refl
Step-capacity (ends qid s n) = refl
Step-capacity (cleans now s n) = refl
Step-capacity (goes_up s n) = refl
Step-capacity (goes_down s n) = refl
Step-capacity (clears s n) = refl

pub Steps-capacity : {x y : NodeInner × ℕ} → Steps x y → capacity y ≡ capacity x
Steps-capacity done = refl
Steps-capacity (after before step) = Step-capacity step ∙ Steps-capacity before
