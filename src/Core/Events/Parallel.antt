-- ===== src/Core/Events/Parallel.antt =====
-- events/dispatch.rs, `emit_parallel`: every selected listener is claimed before one of them runs.
-- `join_all` of the futures crate is a parameter: it runs the invocations in any interleaving and
-- answers their results in the order of the invocations.
pub mod Delivery
use mathlib.Core.Option
use mathlib.Core.Option.{none-ne-some}
use cordis_rs.Base.{
  ◌≡◌, ◌≢◌, ◌⊎◌, ap, subst, refl, inl, inr, true, false, Option, none, some, List, [], ◌∷◌, String,
  Bool-cases, Result, ok, err,
}
use cordis_rs.Core.Events.{
  HookSnap, plain, around, ListenerRole, Event, EventState, EventOperation, Routing, DispatchError,
  parallel,
}
use cordis_rs.Core.Events.Blame.{IsNamed, correlate-IsNamed}
use cordis_rs.Core.Events.Dispatch.{
  World, Runtime, InvocationFailure, CallbackValue, Answer, claim_hook, invoke_listener, correlated,
  after_preflight, context_preflight,
}
use cordis_rs.Core.Events.Dispatch.Returns.{
  Compatible, kind-cases, AnswersCompatible, context_preflight-AnswersCompatible,
}

abbrev pub Invocation : Type 0 → Type 0 → Type 0 → Type 0
Invocation Callback Payload Rest =
    World Callback Rest → Result (CallbackValue Payload) InvocationFailure × World Callback Rest

-- `filter_map(Result::err)`
abbrev pub failures_of :
    {Value : Type 0} → List (Result Value InvocationFailure) → List InvocationFailure
failures_of [] = []
failures_of (ok value ∷ results) = failures_of results
failures_of (err failure ∷ results) = failure ∷ failures_of results

-- No failures is a success, and any are reported together.
abbrev pub parallel_outcome :
    List InvocationFailure → Result (Unit {0}) (DispatchError InvocationFailure)
parallel_outcome [] = ok tt
parallel_outcome (failure ∷ failures) = err (parallel (failure ∷ failures))

module _ {Callback Args Payload Rest : Type 0} (runtime : Runtime Callback Args Payload Rest)
    (join_all : List (Invocation Callback Payload Rest)
      → World Callback Rest
      → List (Result (CallbackValue Payload) InvocationFailure) × World Callback Rest) where
  -- The first loop.
  pub claim_all :
      String
      → List (HookSnap Callback)
      → World Callback Rest
      → List (HookSnap Callback) × World Callback Rest
  claim_all event [] w = ([], w)
  claim_all event (hook ∷ hooks) w = elim (claim_hook runtime event hook w).0 [
    | true ↦
        let rest = claim_all event hooks (claim_hook runtime event hook w).1 in
        (hook ∷ rest.0, rest.1)
    | false ↦ claim_all event hooks (runtime.discard hook (claim_hook runtime event hook w).1)
  ]

  -- The invocations of the claimed listeners. `none`: an Around is among them.
  pub invocations :
      Args → List (HookSnap Callback) → Option (List (Invocation Callback Payload Rest))
  invocations args [] = some []
  invocations args (hook ∷ hooks) = elim hook.kind [
    | around callback ↦ none
    | plain role callback ↦
        Option.map (◌∷◌ (invoke_listener runtime callback args hook.id)) (invocations args hooks)
  ]

  abbrev pub joined :
      World Callback Rest
      → Option (List (Invocation Callback Payload Rest))
      → Answer runtime (Unit {0})
  joined w none = none
  joined w (some calls) =
      some (parallel_outcome (failures_of (join_all calls w).0), (join_all calls w).1)

  pub parallel_loop :
      String → Args → List (HookSnap Callback) → World Callback Rest → Answer runtime (Unit {0})
  unfolding claim_all invocations
  parallel_loop event args hooks w =
      let (claimed, w') = claim_all event hooks w in joined w' (invocations args claimed)

  -- `emit_parallel_inner`
  pub emit_parallel : Event → Routing → Args → World Callback Rest → Answer runtime (Unit {0})
  unfolding parallel_loop
  emit_parallel e routing args w =
      after_preflight runtime (parallel_loop e.name args) w
        (context_preflight runtime.scope_membership e routing EventOperation.emit_parallel w.events)
