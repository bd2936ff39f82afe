-- ===== src/Core/Events/Waterfall/Failures.antt =====
-- events/dispatch.rs, `waterfall_inner`: what a failed waterfall says of who failed.
use cordis_rs.Base.{
  ℕ, ◌≡◌, ◌⊎◌, refl, sym, subst, ap, inl, inr, true, false, Option, none, some, List, [], ◌∷◌,
  String, reverse, Result, ok, err, Bool-cases,
}
use cordis_rs.Core.Events.{
  HookSnap, HookKind, plain, around, ListenerRole, Event, EventState, EventOperation, Routing,
  DispatchError, invocation,
}
use cordis_rs.Core.Events.Dispatch.{
  InvocationFailure, CallbackValue, mapped, observed, responded, World, claim_hook, correlate,
  correlated, context_preflight,
}
use cordis_rs.Core.Events.Blame.{
  IsNamed, correlate-IsNamed, pass_all, Stops, Stops-here, Stops-later,
}
use cordis_rs.Core.Events.Waterfall.{
  Waterfall, Called, tail_result, tail_next, after_mapper, call_next, wrap, wrap_all, push_uncalled,
  correlate_output, after_selection, outcome, invoke_around, waterfall_inner,
}
use cordis_rs.Core.Events.Waterfall.Mappers.{
  fold_next, wrap_all-reverse, drop_all, fold_next-dropped,
}

module _ {Callback Payload Rest : Type 0} (waterfall : Waterfall Callback Payload Rest)
    (event : String) where
  abbrev pub State : Type 0
  State = Payload × World Callback Rest

  -- The payload and the world behind a listener that is gone or maps.
  abbrev pub passes : HookSnap Callback → State → Option State
  passes hook (payload, w) =
      let (claimed, w1) = claim_hook waterfall.runtime event hook w in
      elim claimed [
        | false ↦ some (payload, waterfall.runtime.discard hook w1)
        | true ↦ elim hook.kind [
          | around callback ↦ none
          | plain role callback ↦
              let (result, w2) = waterfall.runtime.invoke callback payload w1 in
              elim result [
                | err failure ↦ none
                | ok value ↦ elim value [
                  | mapped next_payload ↦ some (next_payload, w2)
                  | observed ↦ none
                  | responded answered ↦ none
                ]
              ]
        ]
      ]

  -- A named failure with the messages of what was dropped behind it.
  abbrev pub IsLabelled :
      (failure raw : InvocationFailure) → ℕ → List String × Option String → Type 0
  IsLabelled failure raw id (diagnostics, tail_panic) =
      (named : InvocationFailure) × IsNamed named raw id
      × (failure ≡ push_uncalled named diagnostics tail_panic)

  -- A callback whose failure is reported: a Mapper's with what its failure drops, or an Around's,
  -- whose continuation is the rest of the waterfall.
  abbrev pub Raises :
      HookKind Callback
      → List (HookSnap Callback)
      → Payload
      → World Callback Rest
      → (failure raw : InvocationFailure) → ℕ
      → Type 0
  Raises (plain role callback) after payload w failure raw id =
      ((waterfall.runtime.invoke callback payload w).0 ≡ err raw)
      × IsLabelled failure raw id
          (drop_all waterfall after (waterfall.runtime.invoke callback payload w).1).0
  Raises (around callback) after payload w failure raw id =
      ((invoke_around waterfall callback payload (fold_next waterfall event after) w).0 ≡ err raw)
      × IsNamed failure raw id

  -- A listener that is claimed and fails.
  pub record Fails (failure : InvocationFailure) (hook : HookSnap Callback)
      (after : List (HookSnap Callback)) (s : State) : Type 0 where
    pub raw : InvocationFailure
    pub claimed : (claim_hook waterfall.runtime event hook s.1).0 ≡ true
    pub raised :
        Raises hook.kind after s.0
          (claim_hook waterfall.runtime event hook s.1).1
          failure
          raw
          hook.id

  -- The listeners all pass, and the tail fails at what the last one leaves.
  pub record TailFails (failure : InvocationFailure) (hooks : List (HookSnap Callback)) (s : State)
      : Type 0 where
    pub state : State
    pub walked : pass_all passes hooks s ≡ some state
    pub failed : tail_result (waterfall.tail state.0 state.1).0 ≡ err failure

  abbrev pub Blames :
      List (HookSnap Callback) → State → Option (Result Payload InvocationFailure) → Type 0
  Blames hooks s (some (err failure)) =
      Stops passes (Fails failure) hooks s ⊎ TailFails failure hooks s
  Blames hooks s _ = Unit

  later-Blames :
      (hook : HookSnap Callback) (hooks : List (HookSnap Callback)) (s t : State)
      (r : Option (Result Payload InvocationFailure))
      → passes hook s ≡ some t
      → Blames hooks t r
      → Blames (hook ∷ hooks) s r
  unfolding pass_all
  later-Blames hook hooks s t none e h = tt
  later-Blames hook hooks s t (some (ok output)) e h = tt
  later-Blames hook hooks s t (some (err failure)) e (inl o) =
      inl (Stops-later passes (Fails failure) hook hooks s t e o)
  later-Blames hook hooks s t (some (err failure)) e (inr o) =
      inr (record { state = o.state; walked = rw (e, pass_all) o.walked; failed = o.failed })

  around-Blames :
      (hook : HookSnap Callback) (hooks : List (HookSnap Callback)) (s : State)
      (r : Result Payload InvocationFailure)
      → (claim_hook waterfall.runtime event hook s.1).0 ≡ true
      → ((raw : InvocationFailure)
          → r ≡ err raw
          → Raises hook.kind hooks s.0
              (claim_hook waterfall.runtime event hook s.1).1
              (correlate raw hook.id)
              raw
              hook.id)
      → Blames (hook ∷ hooks) s (some (correlate_output waterfall hook.id r))
  around-Blames hook hooks s (ok output) b h = tt
  around-Blames hook hooks s (err raw) b h = inl (
      Stops-here passes (Fails (correlate raw hook.id)) hook hooks s
        (record { raw = raw; claimed = b; raised = h raw refl }))

  abbrev plainly : HookSnap Callback → ListenerRole → Callback → HookSnap Callback
  plainly hook role callback = record hook { kind = plain role callback }

  -- A Mapper that was claimed, by its result.
  mapper-Blames :
      (hook : HookSnap Callback) (role : ListenerRole) (callback : Callback)
      (hooks : List (HookSnap Callback)) (payload : Payload) (w : World Callback Rest)
      (result : Result (CallbackValue Payload) InvocationFailure)
      → ((p : Payload) (x : World Callback Rest)
          → Blames hooks (p, x) ((fold_next waterfall event hooks).call p x).0)
      → (claim_hook waterfall.runtime event (plainly hook role callback) w).0 ≡ true
      → let w1 = (claim_hook waterfall.runtime event (plainly hook role callback) w).1 in
        (waterfall.runtime.invoke callback payload w1).0 ≡ result
        → Blames
            (plainly hook role callback ∷ hooks)
            (payload, w)
            (after_mapper waterfall
              (fold_next waterfall event hooks)
              (correlated waterfall.runtime hook.id result)
              (waterfall.runtime.invoke callback payload w1).1).0
  mapper-Blames hook role callback hooks payload w (ok (mapped next)) ih b i =
      let w1 = (claim_hook waterfall.runtime event (plainly hook role callback) w).1 in
      later-Blames (plainly hook role callback) hooks (payload, w)
        (next, (waterfall.runtime.invoke callback payload w1).1) _ (rw (b, passes, i) refl)
        (ih next (waterfall.runtime.invoke callback payload w1).1)
  mapper-Blames hook role callback hooks payload w (ok observed) ih b i = tt
  mapper-Blames hook role callback hooks payload w (ok (responded answered)) ih b i = tt
  mapper-Blames hook role callback hooks payload w (err raw) ih b i =
      let w1 = (claim_hook waterfall.runtime event (plainly hook role callback) w).1 in
      let w2 = (waterfall.runtime.invoke callback payload w1).1 in
      inl (
        Stops-here passes (Fails _) (plainly hook role callback) hooks (payload, w)
          (record {
            raw = raw;
            claimed = b;
            raised = (
              i,
              (
                correlate raw hook.id,
                correlate-IsNamed raw hook.id,
                ap (λ d. push_uncalled (correlate raw hook.id) d.0.0 d.0.1)
                    (fold_next-dropped waterfall event hooks w2),
              ),
            );
          }))

  turn-Blames :
      (hook : HookSnap Callback) (kind : HookKind Callback) (hooks : List (HookSnap Callback))
      (payload : Payload) (w : World Callback Rest)
      → ((p : Payload) (x : World Callback Rest)
          → Blames hooks (p, x) ((fold_next waterfall event hooks).call p x).0)
      → Blames
          (record hook { kind = kind } ∷ hooks)
          (payload, w)
          (call_next waterfall event
            (record hook { kind = kind })
            (fold_next waterfall event hooks)
            payload
            w).0
  unfolding call_next
  turn-Blames hook (plain role callback) hooks payload w ih =
      let w1 = (claim_hook waterfall.runtime event (plainly hook role callback) w).1 in
      elim (Bool-cases (claim_hook waterfall.runtime event (plainly hook role callback) w).0) [
        | inr b ↦
            rw (b, call_next)
              (later-Blames (plainly hook role callback) hooks (payload, w)
                (payload, waterfall.runtime.discard (plainly hook role callback) w1) _
                (rw (b, passes) refl)
                (ih payload (waterfall.runtime.discard (plainly hook role callback) w1)))
        | inl b ↦
            rw (b, call_next)
              (mapper-Blames hook role callback hooks payload w
                (waterfall.runtime.invoke callback payload w1).0 ih b refl)
      ]
  turn-Blames hook (around callback) hooks payload w ih =
      let this : HookSnap Callback = record hook { kind = around callback } in
      let w1 = (claim_hook waterfall.runtime event this w).1 in
      elim (Bool-cases (claim_hook waterfall.runtime event this w).0) [
        | inr b ↦
            rw (b, call_next)
              (later-Blames this hooks (payload, w) (payload, waterfall.runtime.discard this w1) _
                (rw (b, passes) refl) (ih payload (waterfall.runtime.discard this w1)))
        | inl b ↦
            rw (b, call_next)
              (around-Blames this hooks (payload, w)
                (invoke_around waterfall callback payload (fold_next waterfall event hooks) w1).0 b
                (λ raw q. (q, correlate-IsNamed raw hook.id)))
      ]

  tail-Blames :
      (payload : Payload) (w : World Callback Rest) (result : Result Payload InvocationFailure)
      → tail_result (waterfall.tail payload w).0 ≡ result
      → Blames [] (payload, w) (some result)
  unfolding pass_all
  tail-Blames payload w (ok output) h = tt
  tail-Blames payload w (err failure) h =
      inr (record { state = (payload, w); walked = refl; failed = h })

  fold_next-Blames :
      (hooks : List (HookSnap Callback)) (payload : Payload) (w : World Callback Rest)
      → Blames hooks (payload, w) ((fold_next waterfall event hooks).call payload w).0
  unfolding fold_next tail_next wrap
  fold_next-Blames [] payload w = tail-Blames payload w _ refl
  fold_next-Blames (hook ∷ hooks) payload w =
      turn-Blames hook hook.kind hooks payload w (fold_next-Blames hooks)

  -- An answer behind the preflight.
  abbrev pub HooksBlame :
      List (HookSnap Callback)
      → State
      → Option (Result Payload (DispatchError InvocationFailure))
      → Type 0
  HooksBlame hooks s none = Unit
  HooksBlame hooks s (some (ok output)) = Unit
  HooksBlame hooks s (some (err (invocation failure))) = Blames hooks s (some (err failure))
  HooksBlame hooks s (some (err _)) = ⊥

  outcome-HooksBlame :
      (hooks : List (HookSnap Callback)) (s : State) (c : Called Callback Payload Rest)
      → Blames hooks s c.0
      → HooksBlame hooks s (outcome waterfall c).0
  outcome-HooksBlame hooks s (none, w) h = tt
  outcome-HooksBlame hooks s (some (ok output), w) h = tt
  outcome-HooksBlame hooks s (some (err failure), w) h = h

module _ {Callback Payload Rest : Type 0} (waterfall : Waterfall Callback Payload Rest) where
  -- What an answer says of its failure, given that of the preflight.
  abbrev pub DispatchBlames :
      Event
      → Payload
      → World Callback Rest
      → Result (List (HookSnap Callback)) (DispatchError InvocationFailure) × EventState Callback
      → Option (Result Payload (DispatchError InvocationFailure))
      → Type 0
  DispatchBlames e args w (ok hooks, events) answer =
      HooksBlame waterfall e.name hooks (args, record w { events = events }) answer
  DispatchBlames e args w (err failure, events) answer = answer ≡ some (err failure)

  -- A waterfall that the preflight refuses answers that refusal. Otherwise a failed invocation is
  -- that of the first selected listener that neither was gone nor mapped the payload for the next,
  -- under its occurrence unless its callback answered a failure that names another, and with the
  -- messages of what a Mapper's failure drops; or it is the failure of the tail, at the payload
  -- and the world that the listeners, all gone or mapping, left to it.
  pub waterfall_inner-DispatchBlames :
      (e : Event) (routing : Routing) (args : Payload) (w : World Callback Rest)
      → DispatchBlames e args w
          (context_preflight waterfall.runtime.scope_membership e routing EventOperation.waterfall
            w.events)
          (waterfall_inner waterfall e routing args w).0
  unfolding waterfall_inner
  waterfall_inner-DispatchBlames e routing args w = from (
      context_preflight waterfall.runtime.scope_membership e routing EventOperation.waterfall
        w.events)
    where
      from :
          (r : Result (List (HookSnap Callback)) (DispatchError InvocationFailure)
            × EventState Callback)
          → DispatchBlames e args w r
              (after_selection waterfall
                (λ hooks. λ x.
                  (wrap_all waterfall e.name (reverse hooks) (tail_next waterfall)).call args x)
                w
                r).0
      from (err failure, events) = refl
      from (ok hooks, events) = outcome-HooksBlame waterfall e.name hooks _ _ (
          subst
            (λ n.
              Blames waterfall e.name hooks (args, record w { events = events })
                (n.call args (record w { events = events })).0)
            (sym (wrap_all-reverse waterfall e.name hooks))
            (fold_next-Blames waterfall e.name hooks args (record w { events = events })))
