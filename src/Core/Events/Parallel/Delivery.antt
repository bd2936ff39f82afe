-- ===== src/Core/Events/Parallel/Delivery.antt =====
-- events/dispatch.rs, `emit_parallel`: which listeners run, and what becomes of their failures.
use cordis_rs.Base.{
  ◌≡◌, ◌≢◌, ◌⊎◌, ap, subst, refl, inl, inr, true, false, some, List, [], ◌∷◌, String, Bool-cases,
  Result, ok, err,
}
use cordis_rs.Core.Events.{
  HookSnap, plain, ListenerRole, Event, EventState, EventOperation, Routing, DispatchError,
  parallel,
}
use cordis_rs.Core.Events.Blame.{IsNamed, correlate-IsNamed}
use cordis_rs.Core.Events.Dispatch.{
  World, Runtime, InvocationFailure, CallbackValue, claim_hook, invoke_listener, correlated,
  after_preflight, context_preflight,
}
use cordis_rs.Core.Events.Dispatch.Returns.{
  Compatible, kind-cases, AnswersCompatible, context_preflight-AnswersCompatible,
}
use cordis_rs.Core.Events.Parallel.{
  Invocation, failures_of, parallel_outcome, claim_all, invocations, joined, parallel_loop,
  emit_parallel,
}

-- One result of each invocation, given in some world.
abbrev pub Answered :
    {Callback Payload Rest : Type 0}
    → List (Invocation Callback Payload Rest)
    → List (Result (CallbackValue Payload) InvocationFailure)
    → Type 0
Answered [] [] = Unit
Answered {Callback} {Payload} {Rest} (call ∷ calls) (result ∷ results) =
    ((x : World Callback Rest) × ((call x).0 ≡ result)) × Answered calls results
Answered _ _ = ⊥

module _ {Callback Args Payload Rest : Type 0} (runtime : Runtime Callback Args Payload Rest)
    (join_all : List (Invocation Callback Payload Rest)
      → World Callback Rest
      → List (Result (CallbackValue Payload) InvocationFailure) × World Callback Rest) where
  claim_all-Compatible :
      (event : String) (hooks : List (HookSnap Callback)) (w : World Callback Rest)
      → Compatible EventOperation.emit_parallel hooks
      → Compatible EventOperation.emit_parallel (claim_all runtime join_all event hooks w).0
  unfolding claim_all
  claim_all-Compatible event [] w c = tt
  claim_all-Compatible event (hook ∷ hooks) w c =
      elim (Bool-cases (claim_hook runtime event hook w).0) [
        | inl b ↦
            rw (b, claim_all)
              (c.0, claim_all-Compatible event hooks (claim_hook runtime event hook w).1 c.1)
        | inr b ↦
            rw (b, claim_all)
              (claim_all-Compatible event hooks
                (runtime.discard hook (claim_hook runtime event hook w).1) c.1)
      ]

  -- The claims of the selected listeners, each in its turn: the claimed ones, in order, and the world
  -- behind the last claim.
  abbrev pub Claims :
      String
      → List (HookSnap Callback)
      → World Callback Rest
      → List (HookSnap Callback)
      → World Callback Rest
      → Type 0
  Claims event [] w claimed end = (claimed ≡ []) × (end ≡ w)
  Claims event (hook ∷ hooks) w claimed end =
      (((claim_hook runtime event hook w).0 ≡ true)
        × ((rest : List (HookSnap Callback)) × (claimed ≡ hook ∷ rest)
            × Claims event hooks (claim_hook runtime event hook w).1 rest end))
      ⊎ (((claim_hook runtime event hook w).0 ≡ false)
          × Claims event hooks (runtime.discard hook (claim_hook runtime event hook w).1) claimed
              end)

  -- A result that the callback of a listener gave in some world, with its failure named.
  abbrev pub Gave :
      Args → HookSnap Callback → Result (CallbackValue Payload) InvocationFailure → Type 0
  Gave args hook (ok value) =
      (role : ListenerRole) × (callback : Callback) × (x : World Callback Rest) × (hook.kind
        ≡ plain role callback)
      × ((runtime.invoke callback args x).0 ≡ ok value)
  Gave args hook (err failure) =
      (role : ListenerRole) × (callback : Callback) × (x : World Callback Rest)
      × (raw : InvocationFailure) × (hook.kind ≡ plain role callback)
      × ((runtime.invoke callback args x).0 ≡ err raw)
      × IsNamed failure raw hook.id

  -- One result for each claimed listener, in order.
  abbrev pub Gathers :
      Args
      → List (HookSnap Callback)
      → List (Result (CallbackValue Payload) InvocationFailure)
      → Type 0
  Gathers args [] [] = Unit
  Gathers args (hook ∷ hooks) (result ∷ results) =
      Gave args hook result × Gathers args hooks results
  Gathers args _ _ = ⊥

  -- The failures among the results, in order and with none left out.
  abbrev pub Collects :
      List (Result (CallbackValue Payload) InvocationFailure) → List InvocationFailure → Type 0
  Collects [] failures = failures ≡ []
  Collects (ok value ∷ results) failures = Collects results failures
  Collects (err failure ∷ results) failures =
      (rest : List InvocationFailure) × (failures ≡ failure ∷ rest) × Collects results rest

  abbrev pub Outcome :
      Result (Unit {0}) (DispatchError InvocationFailure) → List InvocationFailure → Type 0
  Outcome (ok _) failures = failures ≡ []
  Outcome (err (parallel reported)) failures = (reported ≡ failures) × (failures ≢ [])
  Outcome (err _) failures = ⊥

  -- What an answer for the selected listeners says.
  pub record Delivers (event : String) (args : Args) (hooks : List (HookSnap Callback))
      (w : World Callback Rest) (answer : Result (Unit {0}) (DispatchError InvocationFailure))
      (end : World Callback Rest) : Type 0 where
    pub claimed : List (HookSnap Callback)
    pub behind : World Callback Rest
    pub results : List (Result (CallbackValue Payload) InvocationFailure)
    pub calls : List (Invocation Callback Payload Rest)
    pub ran : join_all calls behind ≡ (results, end)
    pub failures : List InvocationFailure
    pub claims : Claims event hooks w claimed behind
    pub gathers : Gathers args claimed results
    pub collects : Collects results failures
    pub outcome : Outcome answer failures

  claim_all-Claims :
      (event : String) (hooks : List (HookSnap Callback)) (w : World Callback Rest)
      → Claims event hooks w
          (claim_all runtime join_all event hooks w).0
          (claim_all runtime join_all event hooks w).1
  unfolding claim_all
  claim_all-Claims event [] w = (refl, refl)
  claim_all-Claims event (hook ∷ hooks) w = elim (Bool-cases (claim_hook runtime event hook w).0) [
    | inl b ↦
        rw (b, claim_all)
          (inl (refl, (_, refl, claim_all-Claims event hooks (claim_hook runtime event hook w).1)))
    | inr b ↦
        rw (b, claim_all)
          (inr (
            refl,
            claim_all-Claims event hooks (runtime.discard hook (claim_hook runtime event hook w).1),
          ))
  ]

  failures_of-Collects :
      (results : List (Result (CallbackValue Payload) InvocationFailure))
      → Collects results (failures_of results)
  failures_of-Collects [] = refl
  failures_of-Collects (ok value ∷ results) = failures_of-Collects results
  failures_of-Collects (err failure ∷ results) = (_, refl, failures_of-Collects results)

  parallel_outcome-Outcome :
      (failures : List InvocationFailure) → Outcome (parallel_outcome failures) failures
  parallel_outcome-Outcome [] = refl
  parallel_outcome-Outcome (failure ∷ failures) = (refl, λ h. cc)

  invoke_listener-Gave :
      (hook : HookSnap Callback) (role : ListenerRole) (callback : Callback) (args : Args)
      (x : World Callback Rest) (result : Result (CallbackValue Payload) InvocationFailure)
      → hook.kind ≡ plain role callback
      → (runtime.invoke callback args x).0 ≡ result
      → Gave args hook (correlated runtime hook.id result)
  invoke_listener-Gave hook role callback args x (ok value) k i = (role, callback, x, k, i)
  invoke_listener-Gave hook role callback args x (err raw) k i =
      (role, callback, x, raw, k, i, correlate-IsNamed raw hook.id)

  abbrev Gathered :
      Args → List (HookSnap Callback) → List (Invocation Callback Payload Rest) → Type 0
  Gathered args hooks calls =
      (results : List (Result (CallbackValue Payload) InvocationFailure))
      → Answered calls results
      → Gathers args hooks results

  first-Gathered :
      (args : Args) (hook : HookSnap Callback) (hooks : List (HookSnap Callback))
      (role : ListenerRole) (callback : Callback) (calls : List (Invocation Callback Payload Rest))
      → hook.kind ≡ plain role callback
      → Gathered args hooks calls
      → Gathered args (hook ∷ hooks) (invoke_listener runtime callback args hook.id ∷ calls)
  unfolding invoke_listener
  first-Gathered args hook hooks role callback calls k g [] j = absurd j
  first-Gathered args hook hooks role callback calls k g (result ∷ results) ((x, q), j) = (
    subst (Gave args hook) q
        (invoke_listener-Gave hook role callback args x (runtime.invoke callback args x).0 k refl),
    g results j,
  )

  invocations-Gathered :
      (args : Args) (hooks : List (HookSnap Callback))
      → Compatible EventOperation.emit_parallel hooks
      → (calls : List (Invocation Callback Payload Rest)) × (invocations runtime join_all args hooks
          ≡ some calls)
        × Gathered args hooks calls
  unfolding invocations
  invocations-Gathered args [] c = ([], refl, none_left)
    where
      none_left : Gathered args [] []
      none_left [] j = tt
      none_left (result ∷ results) j = absurd j
  invocations-Gathered args (hook ∷ hooks) c = elim (kind-cases hook.kind) [
    | inr (callback, k) ↦ absurd (not-around (rw k at c.0))
    | inl (role, callback, k) ↦
        let (calls, e, g) = invocations-Gathered args hooks c.1 in
        (
          invoke_listener runtime callback args hook.id ∷ calls,
          rw (k, invocations, e) refl,
          first-Gathered args hook hooks role callback calls k g,
        )
  ]
    where
      not-around : false ≡ true → ⊥
      not-around h = cc

  abbrev pub ParallelDelivers :
      Event
      → Args
      → World Callback Rest
      → Result (List (HookSnap Callback)) (DispatchError InvocationFailure) × EventState Callback
      → Result (Unit {0}) (DispatchError InvocationFailure) × World Callback Rest
      → Type 0
  ParallelDelivers e args w (ok hooks, events) (answer, end) =
      Delivers e.name args hooks (record w { events = events }) answer end
  ParallelDelivers e args w (err failure, events) s =
      s ≡ (err failure, record w { events = events })

  module _
      (joins : (calls : List (Invocation Callback Payload Rest)) (w : World Callback Rest)
        → Answered calls (join_all calls w).0) where
    parallel_loop-Delivers :
        (event : String) (args : Args) (hooks : List (HookSnap Callback)) (w : World Callback Rest)
        → Compatible EventOperation.emit_parallel hooks
        → (s : Result (Unit {0}) (DispatchError InvocationFailure) × World Callback Rest)
          × (parallel_loop runtime join_all event args hooks w ≡ some s)
          × Delivers event args hooks w s.0 s.1
    unfolding parallel_loop
    parallel_loop-Delivers event args hooks w c =
        let claimed = (claim_all runtime join_all event hooks w).0 in
        let w1 = (claim_all runtime join_all event hooks w).1 in
        let (calls, e, g) =
          invocations-Gathered args claimed (claim_all-Compatible event hooks w c) in
        let results = (join_all calls w1).0 in
        (
          (parallel_outcome (failures_of results), (join_all calls w1).1),
          ap (joined runtime join_all w1) e,
          record {
            claimed = claimed;
            behind = w1;
            results = results;
            calls = calls;
            ran = refl;
            failures = failures_of results;
            claims = claim_all-Claims event hooks w;
            gathers = g results (joins calls w1);
            collects = failures_of-Collects results;
            outcome = parallel_outcome-Outcome (failures_of results);
          },
        )

    after_preflight-delivers :
        (e : Event) (args : Args) (w : World Callback Rest)
        (p : Result (List (HookSnap Callback)) (DispatchError InvocationFailure)
          × EventState Callback)
        → AnswersCompatible EventOperation.emit_parallel p.0
        → (s : Result (Unit {0}) (DispatchError InvocationFailure) × World Callback Rest)
          × (after_preflight runtime (parallel_loop runtime join_all e.name args) w p ≡ some s)
          × ParallelDelivers e args w p s
    after_preflight-delivers e args w (ok hooks, events) c =
        parallel_loop-Delivers e.name args hooks (record w { events = events }) c
    after_preflight-delivers e args w (err failure, events) c = (_, refl, refl)

    -- When `join_all` answers a result of each invocation, in their order: a parallel notification
    -- never reaches an `unreachable!`, and a refusal of the preflight is its answer. Otherwise each
    -- selected listener whose claim succeeds in its turn gives one result, and the answer reports
    -- every failure among these in that order, each under its listener's occurrence unless it names
    -- another; it is a success only when there is none.
    pub emit_parallel-returns :
        (e : Event) (routing : Routing) (args : Args) (w : World Callback Rest)
        → (s : Result (Unit {0}) (DispatchError InvocationFailure) × World Callback Rest)
          × (emit_parallel runtime join_all e routing args w ≡ some s)
          × ParallelDelivers e args w
              (context_preflight runtime.scope_membership e routing EventOperation.emit_parallel
                w.events)
              s
    unfolding emit_parallel
    emit_parallel-returns e routing args w = after_preflight-delivers e args w _ (
        context_preflight-AnswersCompatible runtime.scope_membership e routing
          EventOperation.emit_parallel w.events)
