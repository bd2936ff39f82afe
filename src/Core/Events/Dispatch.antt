-- ===== src/Core/Events/Dispatch.antt =====
-- crates/cordis-core/src/events/dispatch.rs: the sequential dispatches `emit` and `query`.
-- A callback is run by the parameter `invoke`, which has its panics already turned into failures and
-- may change the Runtime in any way, its listeners included. `none` is a reached `unreachable!`.
pub mod Returns
use cordis_rs.Base.{
  ℕ, ◌≡◌, ◌≢◌, refl, sym, ap, subst, ◌∙◌, ◌⊎◌, inl, inr, Bool, true, false, not, Option, none, some,
  List, [], ◌∷◌, String, String_eq, nat_eq, ℕ_eq, if◌then◌else◌, lookup, Result, ok, err, filter,
  map, Bool-cases, Option-cases, Result-split, All,
}
use mathlib.Core.Option.{none-ne-some}
use cordis_rs.Core.Events.{
  Hook, HookSnap, HookKind, plain, around, Event, EventState, EventOperation, ListenerRole,
  observer, responder, Routing, unscoped, scoped, DispatchError, invocation, parallel,
  event_contract_mismatch, foreign_scope, incompatible_role, select, preflight, claim, compatible,
  role_of, eligible, first_incompatible, iter, hooks_of, snap,
}
use cordis_rs.Core.Events.Preflight.{conflicts, Selects, preflight-Selects}

pub data InvocationFailureKind : Type 0 where
  returned_error panic : InvocationFailureKind

pub record InvocationFailure : Type 0 where
  pub registration : Option ℕ
  pub kind : InvocationFailureKind
  pub diagnostic : String

abbrev or_else : Option ℕ → ℕ → Option ℕ
or_else none id = some id
or_else (some other) id = some other

abbrev pub correlate : InvocationFailure → ℕ → InvocationFailure
correlate failure id = record failure { registration = or_else failure.registration id }

pub data CallbackValue (Payload : Type 0) : Type 0 where
  observed : CallbackValue Payload
  responded : Option Payload → CallbackValue Payload
  mapped : Payload → CallbackValue Payload

pub data QueryOutcome (Payload : Type 0) : Type 0 where
  miss : QueryOutcome Payload
  answer : Payload → QueryOutcome Payload

pub record World (Callback Rest : Type 0) : Type 0 where
  pub events : EventState Callback
  pub rest : Rest

-- `invoke_plain`, the observation of a claim that unregistered, and a contained destruction.
pub record Runtime (Callback Args Payload Rest : Type 0) : Type 0 where
  pub scope_membership : ℕ
  pub invoke :
      Callback
      → Args
      → World Callback Rest
      → Result (CallbackValue Payload) InvocationFailure × World Callback Rest
  pub unregistered : String → HookSnap Callback → World Callback Rest → World Callback Rest
  pub discard : HookSnap Callback → World Callback Rest → World Callback Rest

module _ {Callback Failure : Type 0} where
  -- `Context::preflight`, with the Runtime's scope membership.
  unfoldable pub context_preflight :
      ℕ
      → Event
      → Routing
      → EventOperation
      → EventState Callback
      → Result (List (HookSnap Callback)) (DispatchError Failure) × EventState Callback
  context_preflight membership e unscoped operation state = preflight e unscoped operation state
  context_preflight membership e (scoped scope) operation state =
      if not (nat_eq scope.membership membership)
      then (err foreign_scope, state)
      else preflight e (scoped scope) operation state

module _ {Callback Args Payload Rest : Type 0} (runtime : Runtime Callback Args Payload Rest) where
  -- `drop_unclaimed_hooks`
  abbrev pub drop_unclaimed_hooks :
      List (HookSnap Callback) → World Callback Rest → World Callback Rest
  drop_unclaimed_hooks [] w = w
  drop_unclaimed_hooks (hook ∷ hooks) w = drop_unclaimed_hooks hooks (runtime.discard hook w)

  pub claim_hook : String → HookSnap Callback → World Callback Rest → Bool × World Callback Rest
  claim_hook event hook w =
      let (claimed, events) = claim event hook.id w.events in
      let w' : World Callback Rest = record w { events = events } in
      (claimed.0, if claimed.1 then runtime.unregistered event hook w' else w')

  abbrev pub correlated :
      ℕ
      → Result (CallbackValue Payload) InvocationFailure
      → Result (CallbackValue Payload) InvocationFailure
  correlated id (ok value) = ok value
  correlated id (err failure) = err (correlate failure id)

  unfoldable pub invoke_listener :
      Callback
      → Args
      → ℕ
      → World Callback Rest
      → Result (CallbackValue Payload) InvocationFailure × World Callback Rest
  invoke_listener callback args id w =
      let (result, w') = runtime.invoke callback args w in (correlated id result, w')

  abbrev pub Answer : Type 0 → Type 0
  Answer A = Option (Result A (DispatchError InvocationFailure) × World Callback Rest)

  -- The loop of `emit_inner`.
  pub emit_loop : String → Args → List (HookSnap Callback) → World Callback Rest → Answer (Unit {0})
  unfolding claim_hook invoke_listener
  emit_loop event args [] w = some (ok tt, w)
  emit_loop event args (hook ∷ hooks) w =
      let (claimed, w1) = claim_hook event hook w in
      elim claimed [
        | false ↦ emit_loop event args hooks (runtime.discard hook w1)
        | true ↦ elim hook.kind [
          | around callback ↦ none
          | plain role callback ↦
              let (result, w2) = invoke_listener callback args hook.id w1 in
              elim result [
                | err failure ↦ some (err (invocation failure), drop_unclaimed_hooks hooks w2)
                | ok value ↦ emit_loop event args hooks w2
              ]
        ]
      ]

  -- The match on the role and the value of a query listener.
  abbrev pub query_step :
      ListenerRole
      → CallbackValue Payload
      → Answer (QueryOutcome Payload)
      → World Callback Rest
      → Answer (QueryOutcome Payload)
  query_step observer observed rest dropped = rest
  query_step responder (responded none) rest dropped = rest
  query_step responder (responded (some output)) rest dropped = some (ok (answer output), dropped)
  query_step _ _ rest dropped = none

  -- The loop of `query_inner`.
  pub query_loop :
      String → Args → List (HookSnap Callback) → World Callback Rest → Answer (QueryOutcome Payload)
  unfolding claim_hook invoke_listener
  query_loop event args [] w = some (ok miss, w)
  query_loop event args (hook ∷ hooks) w =
      let (claimed, w1) = claim_hook event hook w in
      elim claimed [
        | false ↦ query_loop event args hooks (runtime.discard hook w1)
        | true ↦ elim hook.kind [
          | around callback ↦ none
          | plain role callback ↦
              let (result, w2) = invoke_listener callback args hook.id w1 in
              elim result [
                | err failure ↦ some (err (invocation failure), drop_unclaimed_hooks hooks w2)
                | ok value ↦
                    query_step role value (query_loop event args hooks w2)
                      (drop_unclaimed_hooks hooks w2)
              ]
        ]
      ]

  abbrev pub after_preflight :
      {A : Type 0}
      → (List (HookSnap Callback) → World Callback Rest → Answer A)
      → World Callback Rest
      → Result (List (HookSnap Callback)) (DispatchError InvocationFailure) × EventState Callback
      → Answer A
  after_preflight loop w (err failure, events) = some (err failure, record w { events = events })
  after_preflight loop w (ok hooks, events) = loop hooks (record w { events = events })

  -- `emit_inner`
  pub emit : Event → Routing → Args → World Callback Rest → Answer (Unit {0})
  unfolding emit_loop
  emit e routing args w =
      after_preflight (emit_loop e.name args) w
        (context_preflight runtime.scope_membership e routing EventOperation.emit w.events)

  -- `query_inner`
  pub query : Event → Routing → Args → World Callback Rest → Answer (QueryOutcome Payload)
  unfolding query_loop
  query e routing args w =
      after_preflight (query_loop e.name args) w
        (context_preflight runtime.scope_membership e routing EventOperation.query w.events)
