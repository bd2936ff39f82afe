-- ===== src/Core/Events/Dispatch/Returns.antt =====
-- events/dispatch.rs: what a preflight lets through, and that `emit` reaches no `unreachable!`.
use cordis_rs.Base.{
  ℕ, ◌≡◌, refl, sym, ap, subst, ◌⊎◌, inl, inr, Bool, true, false, Option, none, some, List, [], ◌∷◌,
  String, String_eq, nat_eq, ℕ_eq, lookup, Result, ok, err, filter, map, Bool-cases, Option-cases,
  Result-split, All,
}
use mathlib.Core.Option.{none-ne-some}
use cordis_rs.Core.Events.{
  Hook, HookSnap, HookKind, plain, around, Event, EventState, EventOperation, ListenerRole, Routing,
  unscoped, scoped, DispatchError, invocation, parallel, event_contract_mismatch, foreign_scope,
  incompatible_role, select, preflight, compatible, role_of, eligible, first_incompatible, iter,
  hooks_of, snap,
}
use cordis_rs.Core.Events.Blame.{
  IsNamed, correlate-IsNamed, pass_all, Stops, Stops-here, Stops-later,
}
use cordis_rs.Core.Events.Preflight.{conflicts, Chooses, preflight-Chooses}
use cordis_rs.Core.Events.Dispatch.{
  InvocationFailure, correlate, World, Runtime, drop_unclaimed_hooks, claim_hook, invoke_listener,
  emit_loop, after_preflight, emit, context_preflight, Answer,
}

-- Snapshots with a role that the operation may invoke.
abbrev pub Compatible : {Callback : Type 0} → EventOperation → List (HookSnap Callback) → Type 0
Compatible operation = All (λ h. compatible operation (role_of h.kind) ≡ true)

first_incompatible-Compatible :
    {Callback : Type 0} (operation : EventOperation) (hooks : List (Hook Callback))
    → first_incompatible operation hooks ≡ none
    → Compatible operation (map snap hooks)
first_incompatible-Compatible operation [] h = tt
first_incompatible-Compatible operation (x ∷ hooks) h =
    elim (Bool-cases (compatible operation (role_of x.kind))) [
      | inl b ↦ (b, first_incompatible-Compatible operation hooks (rw b at h))
      | inr b ↦ absurd (none-ne-some _ (sym (rw b at h)))
    ]

-- A preflight answers only snapshots that its operation may invoke, and no failed invocation.
abbrev pub AnswersCompatible :
    {Callback : Type 0}
    → EventOperation
    → Result (List (HookSnap Callback)) (DispatchError InvocationFailure)
    → Type 0
AnswersCompatible operation (ok hooks) = Compatible operation hooks
AnswersCompatible operation (err (invocation failure)) = ⊥
AnswersCompatible operation (err (parallel failures)) = ⊥
AnswersCompatible operation (err _) = Unit

select-AnswersCompatible :
    {Callback : Type 0} (routing : Routing) (operation : EventOperation)
    (hooks : List (Hook Callback))
    → AnswersCompatible operation (select routing operation hooks)
select-AnswersCompatible routing operation hooks =
    elim (Option-cases (first_incompatible operation (filter (eligible routing) hooks))) [
      | inl e ↦
          rw (e, AnswersCompatible)
            (first_incompatible-Compatible operation (filter (eligible routing) hooks) e)
      | inr (role, e) ↦ rw (e, AnswersCompatible) tt
    ]

preflight-AnswersCompatible :
    {Callback : Type 0} (e : Event) (routing : Routing) (operation : EventOperation)
    (state : EventState Callback)
    → AnswersCompatible operation
        (preflight {Failure = InvocationFailure} e routing operation state).0
preflight-AnswersCompatible e routing operation state =
    from (conflicts e.contract (lookup e.name state.contracts))
      (preflight-Chooses InvocationFailure e routing operation state)
  where
    from :
        (c : Bool)
        → Chooses InvocationFailure e routing operation state c
        → AnswersCompatible operation
            (preflight {Failure = InvocationFailure} e routing operation state).0
    from true h = subst (λ r. AnswersCompatible operation r.0) (sym h) tt
    from false (h, _, _) =
        subst (AnswersCompatible operation) (sym h)
          (select-AnswersCompatible routing operation (iter (hooks_of e.name state)))

pub context_preflight-AnswersCompatible :
    {Callback : Type 0} (membership : ℕ) (e : Event) (routing : Routing)
    (operation : EventOperation) (state : EventState Callback)
    → AnswersCompatible operation
        (context_preflight {Failure = InvocationFailure} membership e routing operation state).0
unfolding context_preflight
context_preflight-AnswersCompatible membership e unscoped operation state =
    preflight-AnswersCompatible e unscoped operation state
context_preflight-AnswersCompatible membership e (scoped scope) operation state =
    elim (Bool-cases (nat_eq scope.membership membership)) [
      | inl b ↦ rw b (preflight-AnswersCompatible e (scoped scope) operation state)
      | inr b ↦ rw b tt
    ]

pub kind-cases :
    {Callback : Type 0} (kind : HookKind Callback)
    → ((role : ListenerRole) × (callback : Callback) × (kind ≡ plain role callback))
      ⊎ ((callback : Callback) × (kind ≡ around callback))
kind-cases (plain role callback) = inl (role, callback, refl)
kind-cases (around callback) = inr (callback, refl)

module _ {Callback Args Payload Rest : Type 0} (runtime : Runtime Callback Args Payload Rest)
    (event : String) (args : Args) where
  -- The world behind a listener that is gone or succeeds.
  abbrev pub passes : HookSnap Callback → World Callback Rest → Option (World Callback Rest)
  passes hook w =
      let (claimed, w1) = claim_hook runtime event hook w in
      elim claimed [
        | false ↦ some (runtime.discard hook w1)
        | true ↦ elim hook.kind [
          | around callback ↦ none
          | plain role callback ↦
              let (result, w2) = runtime.invoke callback args w1 in
              elim result [ ok value ↦ some w2 | err failure ↦ none ]
        ]
      ]

  -- A listener that is claimed and fails; the ones behind it are destroyed.
  pub record Fails (failure : InvocationFailure) (end : World Callback Rest)
      (hook : HookSnap Callback) (after : List (HookSnap Callback)) (w : World Callback Rest)
      : Type 0 where
    pub role : ListenerRole
    pub callback : Callback
    pub raw : InvocationFailure
    pub claimed : (claim_hook runtime event hook w).0 ≡ true
    pub is_plain : hook.kind ≡ plain role callback
    pub raised : (runtime.invoke callback args (claim_hook runtime event hook w).1).0 ≡ err raw
    pub named : IsNamed failure raw hook.id
    pub dropped :
        end
        ≡ drop_unclaimed_hooks runtime after
            (runtime.invoke callback args (claim_hook runtime event hook w).1).1

  -- What the answer for the selected listeners says: all passed, or the first that failed is named.
  abbrev pub Reports :
      List (HookSnap Callback)
      → World Callback Rest
      → Result (Unit {0}) (DispatchError InvocationFailure) × World Callback Rest
      → Type 0
  Reports hooks w (ok _, end) = pass_all passes hooks w ≡ some end
  Reports hooks w (err (invocation failure), end) = Stops passes (Fails failure end) hooks w
  Reports hooks w (err _, end) = ⊥

  later-Reports :
      (hook : HookSnap Callback) (hooks : List (HookSnap Callback)) (w v : World Callback Rest)
      (r : Result (Unit {0}) (DispatchError InvocationFailure) × World Callback Rest)
      → passes hook w ≡ some v
      → Reports hooks v r
      → Reports (hook ∷ hooks) w r
  unfolding pass_all
  later-Reports hook hooks w v (ok _, end) e h = rw (e, pass_all) h
  later-Reports hook hooks w v (err (invocation failure), end) e h =
      Stops-later passes (Fails failure end) hook hooks w v e h
  later-Reports hook hooks w v (err (parallel failures), end) e h = absurd h
  later-Reports hook hooks w v (err (event_contract_mismatch name), end) e h = absurd h
  later-Reports hook hooks w v (err foreign_scope, end) e h = absurd h
  later-Reports hook hooks w v (err (incompatible_role operation role), end) e h = absurd h

  abbrev Returns :
      List (HookSnap Callback) → World Callback Rest → Answer runtime (Unit {0}) → Type 0
  Returns hooks w answer =
      (r : Result (Unit {0}) (DispatchError InvocationFailure) × World Callback Rest) × (answer
        ≡ some r)
      × Reports hooks w r

  later-Returns :
      (hook : HookSnap Callback) (hooks : List (HookSnap Callback)) (w v : World Callback Rest)
      (answer : Answer runtime (Unit {0}))
      → passes hook w ≡ some v
      → Returns hooks v answer
      → Returns (hook ∷ hooks) w answer
  later-Returns hook hooks w v answer e (r, q, h) = (r, q, later-Reports hook hooks w v r e h)

  -- The turn of one listener, before those whose turns are known.
  turn-Returns :
      (hook : HookSnap Callback) (hooks : List (HookSnap Callback)) (w : World Callback Rest)
      (role : ListenerRole) (callback : Callback)
      → hook.kind ≡ plain role callback
      → ((v : World Callback Rest) → Returns hooks v (emit_loop runtime event args hooks v))
      → Returns (hook ∷ hooks) w (emit_loop runtime event args (hook ∷ hooks) w)
  unfolding emit_loop invoke_listener
  turn-Returns hook hooks w role callback k ih =
      subst (λ h. Returns (h ∷ hooks) w (emit_loop runtime event args (h ∷ hooks) w))
        (ap (λ z. record hook { kind = z }) (sym k))
        (elim (Bool-cases (claim_hook runtime event plainly w).0) [
          | inr b ↦
              rw (b, emit_loop)
                (later-Returns plainly hooks w (runtime.discard plainly w1) _ (rw (b, passes) refl)
                  (ih (runtime.discard plainly w1)))
          | inl b ↦ elim (Result-split (runtime.invoke callback args w1).0) [
            | inl (value, i) ↦
                rw (b, emit_loop, invoke_listener, i)
                  (later-Returns plainly hooks w (runtime.invoke callback args w1).1 _
                    (rw (b, passes, i) refl) (ih (runtime.invoke callback args w1).1))
            | inr (raw, i) ↦
                rw (b, emit_loop, invoke_listener, i)
                  (
                    _,
                    refl,
                    Stops-here passes (Fails (correlate raw hook.id) _) plainly hooks w (record {
                      role = role;
                      callback = callback;
                      raw = raw;
                      claimed = b;
                      is_plain = refl;
                      raised = i;
                      named = correlate-IsNamed raw hook.id;
                      dropped = refl;
                    }),
                  )
          ]
        ])
    where
      plainly : HookSnap Callback
      plainly = record hook { kind = plain role callback }

      w1 : World Callback Rest
      w1 = (claim_hook runtime event plainly w).1

  emit_loop-Returns :
      (hooks : List (HookSnap Callback)) (w : World Callback Rest)
      → Compatible EventOperation.emit hooks
      → Returns hooks w (emit_loop runtime event args hooks w)
  unfolding emit_loop pass_all
  emit_loop-Returns [] w c = ((ok tt, w), refl, refl)
  emit_loop-Returns (hook ∷ hooks) w c = elim (kind-cases hook.kind) [
    | inr (callback, k) ↦ absurd (not-around (rw k at c.0))
    | inl (role, callback, k) ↦
        turn-Returns hook hooks w role callback k (λ v. emit_loop-Returns hooks v c.1)
  ]
    where
      not-around : false ≡ true → ⊥
      not-around h = cc

module _ {Callback Args Payload Rest : Type 0} (runtime : Runtime Callback Args Payload Rest) where
  -- What an answer says, given that of the preflight.
  abbrev pub EmitReports :
      Event
      → Args
      → World Callback Rest
      → Result (List (HookSnap Callback)) (DispatchError InvocationFailure) × EventState Callback
      → Result (Unit {0}) (DispatchError InvocationFailure) × World Callback Rest
      → Type 0
  EmitReports e args w (ok hooks, events) r =
      Reports runtime e.name args hooks (record w { events = events }) r
  EmitReports e args w (err failure, events) r = r ≡ (err failure, record w { events = events })

  after_preflight-returns :
      (e : Event) (args : Args) (w : World Callback Rest)
      (p : Result (List (HookSnap Callback)) (DispatchError InvocationFailure)
        × EventState Callback)
      → AnswersCompatible EventOperation.emit p.0
      → (r : Result (Unit {0}) (DispatchError InvocationFailure) × World Callback Rest)
        × (after_preflight runtime (emit_loop runtime e.name args) w p ≡ some r)
        × EmitReports e args w p r
  after_preflight-returns e args w (ok hooks, events) c =
      emit_loop-Returns runtime e.name args hooks (record w { events = events }) c
  after_preflight-returns e args w (err failure, events) c = (_, refl, refl)

  -- A sequential notification never reaches an `unreachable!`. A refusal of the preflight is its
  -- answer. Otherwise it succeeds when every selected listener is gone at its claim or succeeds in
  -- its turn; or else it reports the failure of the first that does not, under that listener's
  -- occurrence unless the failure names another, and destroys the listeners behind it.
  pub emit-returns :
      (e : Event) (routing : Routing) (args : Args) (w : World Callback Rest)
      → (r : Result (Unit {0}) (DispatchError InvocationFailure) × World Callback Rest) × (emit
            runtime e routing args w
          ≡ some r)
        × EmitReports e args w
            (context_preflight runtime.scope_membership e routing EventOperation.emit w.events)
            r
  unfolding emit
  emit-returns e routing args w = after_preflight-returns e args w _ (
      context_preflight-AnswersCompatible runtime.scope_membership e routing EventOperation.emit
        w.events)
