-- ===== src/Core/Events/Waterfall.antt =====
-- crates/cordis-core/src/events/dispatch.rs, `waterfall_inner`: the continuations that the selected
-- Mappers and Arounds build around the caller's tail, and what becomes of one that is not called.
-- The callbacks, the tail and the destructors are parameters. A destructor answers the message of
-- its panic; `none` in the place of a result is a reached `unreachable!`, which unwinds.
pub mod Mappers
pub mod Failures
use Prim.Native.String.{◌++◌}
use cordis_rs.Base.{
  ℕ, Bool, true, false, Option, none, some, List, [], ◌∷◌, String, reverse, Result, ok, err,
}
use cordis_rs.Core.Events.{
  HookSnap, HookKind, plain, around, Event, EventState, EventOperation, Routing, DispatchError,
  invocation,
}
use cordis_rs.Core.Events.Dispatch.{
  InvocationFailure, panic, returned_error, correlate, CallbackValue, mapped, World, Runtime,
  claim_hook, correlated, context_preflight,
}

-- `InvocationFailure::panic` and `InvocationFailure::returned`
abbrev pub panicked : String → InvocationFailure
panicked diagnostic = record { registration = none; kind = panic; diagnostic = diagnostic }

abbrev pub returned : String → InvocationFailure
returned diagnostic = record { registration = none; kind = returned_error; diagnostic = diagnostic }

-- How the caller's tail ran: an output, an error with what its `to_string` did, or a panic.
pub data TailRun (Payload : Type 0) : Type 0 where
  completed : Payload → TailRun Payload
  failed : Result String String → TailRun Payload
  unwound : String → TailRun Payload

-- The match on the result of the tail.
pub tail_result : {Payload : Type 0} → TailRun Payload → Result Payload InvocationFailure
tail_result (completed output) = ok output
tail_result (failed (ok diagnostic)) = err (returned diagnostic)
tail_result (failed (err message)) = err (panicked message)
tail_result (unwound message) = err (panicked message)

abbrev pub Called : Type 0 → Type 0 → Type 0 → Type 0
Called Callback Payload Rest = Option (Result Payload InvocationFailure) × World Callback Rest

-- `NextFn`: what a call of the continuation does, and its drop while the diagnostics are collected.
pub record Next (Callback Payload Rest : Type 0) : Type 0 where
  pub call : Payload → World Callback Rest → Called Callback Payload Rest
  pub dropped : World Callback Rest → (List String × Option String) × World Callback Rest

-- A callback of an Around runs to a result or a panic; it may call its continuation or not.
pub record Waterfall (Callback Payload Rest : Type 0) : Type 0 where
  pub runtime : Runtime Callback Payload Payload Rest
  pub run_around :
      Callback
      → Payload
      → Next Callback Payload Rest
      → World Callback Rest
      → Result (Result Payload InvocationFailure) String × World Callback Rest
  pub drop_callback : Callback → World Callback Rest → Option String × World Callback Rest
  pub drop_output : Payload → World Callback Rest → Option String × World Callback Rest
  pub drop_hook : HookSnap Callback → World Callback Rest → Option String × World Callback Rest
  pub tail : Payload → World Callback Rest → TailRun Payload × World Callback Rest
  pub drop_tail : World Callback Rest → Option String × World Callback Rest
  pub contain_tail : World Callback Rest → World Callback Rest

abbrev pub push_str : String → String → InvocationFailure → InvocationFailure
push_str label diagnostic failure = record failure {
  diagnostic = failure.diagnostic ++ label ++ diagnostic;
}

abbrev output_panicked : String → Option String → String
output_panicked diagnostic none = diagnostic
output_panicked diagnostic (some secondary) =
    diagnostic ++ "; listener output destruction panicked: " ++ secondary

abbrev pub collect : Option String → List String → List String
collect none diagnostics = diagnostics
collect (some diagnostic) diagnostics = diagnostic ∷ diagnostics

abbrev pub uncalled_label : String
uncalled_label = "; uncalled waterfall continuation destruction panicked: "

-- The loop over the collected diagnostics and then the panic of the tail.
abbrev pub push_uncalled : InvocationFailure → List String → Option String → InvocationFailure
push_uncalled failure [] none = failure
push_uncalled failure [] (some message) = push_str uncalled_label message failure
push_uncalled failure (diagnostic ∷ diagnostics) message =
    push_uncalled (push_str uncalled_label diagnostic failure) diagnostics message

module _ {Callback Payload Rest : Type 0} (waterfall : Waterfall Callback Payload Rest) where
  -- `drop_callback_contained`, for the output of an Around.
  pub drop_callback_contained :
      Callback
      → Result Payload InvocationFailure
      → World Callback Rest
      → Result Payload InvocationFailure × World Callback Rest
  drop_callback_contained callback outcome w =
      let (unwinding, w1) = waterfall.drop_callback callback w in
      elim unwinding [
        | none ↦ (outcome, w1)
        | some diagnostic ↦ elim outcome [
          | ok value ↦
              let (secondary, w2) = waterfall.drop_output value w1 in
              (err (panicked (output_panicked diagnostic secondary)), w2)
          | err failure ↦
              (err (push_str "; listener destruction panicked: " diagnostic failure), w1)
        ]
      ]

  abbrev caught :
      Result (Result Payload InvocationFailure) String → Result Payload InvocationFailure
  caught (ok outcome) = outcome
  caught (err message) = err (panicked message)

  -- `invoke_around`, with `invoke_and_drop_callback`
  pub invoke_around :
      Callback
      → Payload
      → Next Callback Payload Rest
      → World Callback Rest
      → Result Payload InvocationFailure × World Callback Rest
  unfolding drop_callback_contained
  invoke_around callback payload next w =
      let (ran, w1) = waterfall.run_around callback payload next w in
      drop_callback_contained callback (caught ran) w1

  -- The innermost continuation.
  pub tail_next : Next Callback Payload Rest
  unfolding tail_result
  tail_next = record {
    call = λ payload w. let (ran, w1) = waterfall.tail payload w in (some (tail_result ran), w1);
    dropped = λ w. let (message, w1) = waterfall.drop_tail w in (([], message), w1);
  }

  -- `WaterfallHook::drop` of a hook and then of the hooks that follow it.
  pub drop_next :
      HookSnap Callback
      → Next Callback Payload Rest
      → World Callback Rest
      → (List String × Option String) × World Callback Rest
  drop_next hook downstream w =
      let (message, w1) = waterfall.drop_hook hook w in
      let ((diagnostics, tail_panic), w2) = downstream.dropped w1 in
      ((collect message diagnostics, tail_panic), w2)

  -- The arm of a failed Mapper: its continuation is dropped uncalled.
  abbrev pub abandon_next :
      InvocationFailure
      → (List String × Option String) × World Callback Rest
      → Called Callback Payload Rest
  abandon_next failure ((diagnostics, tail_panic), w) =
      (some (err (push_uncalled failure diagnostics tail_panic)), w)

  -- What a Mapper's value does with the continuation.
  abbrev pub after_mapper :
      Next Callback Payload Rest
      → Result (CallbackValue Payload) InvocationFailure
      → World Callback Rest
      → Called Callback Payload Rest
  after_mapper downstream (ok (mapped payload)) w = downstream.call payload w
  after_mapper downstream (ok _) w = (none, w)
  after_mapper downstream (err failure) w = abandon_next failure (downstream.dropped w)

  abbrev pub correlate_output :
      ℕ → Result Payload InvocationFailure → Result Payload InvocationFailure
  correlate_output id (ok output) = ok output
  correlate_output id (err failure) = err (correlate failure id)

  -- The body of the closure that one hook wraps around the next continuation.
  pub call_next :
      String
      → HookSnap Callback
      → Next Callback Payload Rest
      → Payload
      → World Callback Rest
      → Called Callback Payload Rest
  unfolding invoke_around
  call_next event hook downstream payload w =
      let (claimed, w1) = claim_hook waterfall.runtime event hook w in
      elim claimed [
        | false ↦ downstream.call payload (waterfall.runtime.discard hook w1)
        | true ↦ elim hook.kind [
          | plain role callback ↦
              let (result, w2) = waterfall.runtime.invoke callback payload w1 in
              after_mapper downstream (correlated waterfall.runtime hook.id result) w2
          | around callback ↦
              let (result, w2) = invoke_around callback payload downstream w1 in
              (some (correlate_output hook.id result), w2)
        ]
      ]

  -- One round of the loop over the reversed hooks.
  pub wrap : String → HookSnap Callback → Next Callback Payload Rest → Next Callback Payload Rest
  unfolding call_next drop_next
  wrap event hook downstream = record {
    call = λ payload w. call_next event hook downstream payload w;
    dropped = λ w. drop_next hook downstream w;
  }

  pub wrap_all :
      String → List (HookSnap Callback) → Next Callback Payload Rest → Next Callback Payload Rest
  unfolding wrap
  wrap_all event [] next = next
  wrap_all event (hook ∷ hooks) next = wrap_all event hooks (wrap event hook next)

  abbrev pub outcome :
      Called Callback Payload Rest
      → Option (Result Payload (DispatchError InvocationFailure)) × World Callback Rest
  outcome (none, w) = (none, w)
  outcome (some (ok output), w) = (some (ok output), w)
  outcome (some (err failure), w) = (some (err (invocation failure)), w)

  -- What follows the preflight, for a way to call the selected hooks.
  abbrev pub after_selection :
      (List (HookSnap Callback) → World Callback Rest → Called Callback Payload Rest)
      → World Callback Rest
      → Result (List (HookSnap Callback)) (DispatchError InvocationFailure) × EventState Callback
      → Option (Result Payload (DispatchError InvocationFailure)) × World Callback Rest
  after_selection run w (err failure, events) =
      (some (err failure), waterfall.contain_tail (record w { events = events }))
  after_selection run w (ok hooks, events) = outcome (run hooks (record w { events = events }))

  -- `waterfall_inner`
  pub waterfall_inner :
      Event
      → Routing
      → Payload
      → World Callback Rest
      → Option (Result Payload (DispatchError InvocationFailure)) × World Callback Rest
  unfolding wrap_all tail_next
  waterfall_inner e routing args w =
      after_selection (λ hooks. λ x. (wrap_all e.name (reverse hooks) tail_next).call args x) w
        (context_preflight waterfall.runtime.scope_membership e routing EventOperation.waterfall
          w.events)
