-- ===== src/Core/Events/Waterfall/Mappers.antt =====
-- events/dispatch.rs, `waterfall_inner`: the continuations of Mappers, folded from the last hook to
-- the first, as a loop from the first hook to the last.
use cordis_rs.Base.{
  ◌≡◌, refl, ap, ◌∙◌, inl, inr, true, false, Option, none, some, List, [], ◌∷◌, ◌++◌, String,
  reverse, reverse-cons, Result, ok, err, Bool-cases, All,
}
use cordis_rs.Core.Events.{
  HookSnap, HookKind, plain, around, Event, EventState, EventOperation, Routing, DispatchError,
}
use cordis_rs.Core.Events.Dispatch.{
  InvocationFailure, CallbackValue, mapped, observed, responded, World, claim_hook, correlated,
  context_preflight,
}
use cordis_rs.Core.Events.Dispatch.Returns.{kind-cases}
use cordis_rs.Core.Events.Waterfall.{
  Waterfall, Next, Called, tail_result, collect, outcome, tail_next, drop_next, abandon_next,
  after_mapper, call_next, wrap, wrap_all, after_selection, waterfall_inner,
}

abbrev pub IsPlain : {Callback : Type 0} → HookKind Callback → Type 0
IsPlain (plain role callback) = Unit
IsPlain (around callback) = ⊥

-- Every selected listener is a Mapper.
abbrev pub SelectsMappers :
    {Callback : Type 0}
    → Result (List (HookSnap Callback)) (DispatchError InvocationFailure)
    → Type 0
SelectsMappers (ok hooks) = All (λ h. IsPlain h.kind) hooks
SelectsMappers (err failure) = Unit

module _ {Callback Payload Rest : Type 0} (waterfall : Waterfall Callback Payload Rest) where
  -- The continuation of the hooks, the first of them outermost.
  unfoldable pub fold_next : String → List (HookSnap Callback) → Next Callback Payload Rest
  unfolding wrap tail_next
  fold_next event [] = tail_next waterfall
  fold_next event (hook ∷ hooks) = wrap waterfall event hook (fold_next event hooks)

  wrap_all-append :
      (event : String) (xs ys : List (HookSnap Callback)) (next : Next Callback Payload Rest)
      → wrap_all waterfall event (xs ++ ys) next
        ≡ wrap_all waterfall event ys (wrap_all waterfall event xs next)
  unfolding wrap_all
  wrap_all-append event [] ys next = refl
  wrap_all-append event (x ∷ xs) ys next = wrap_all-append event xs ys (wrap waterfall event x next)

  pub wrap_all-reverse :
      (event : String) (hooks : List (HookSnap Callback))
      → wrap_all waterfall event (reverse hooks) (tail_next waterfall) ≡ fold_next event hooks
  unfolding fold_next wrap_all
  wrap_all-reverse event [] = refl
  wrap_all-reverse event (hook ∷ hooks) =
      ap (λ l. wrap_all waterfall event l (tail_next waterfall)) (reverse-cons hook hooks)
      ∙ wrap_all-append event (reverse hooks) (hook ∷ []) (tail_next waterfall)
      ∙ ap (wrap waterfall event hook) (wrap_all-reverse event hooks)

  -- The destructors of the hooks, first to last, and of the tail.
  pub drop_all :
      List (HookSnap Callback)
      → World Callback Rest
      → (List String × Option String) × World Callback Rest
  drop_all [] w = let (message, w1) = waterfall.drop_tail w in (([], message), w1)
  drop_all (hook ∷ hooks) w =
      let (message, w1) = waterfall.drop_hook hook w in
      let ((diagnostics, tail_panic), w2) = drop_all hooks w1 in
      ((collect message diagnostics, tail_panic), w2)

  pub fold_next-dropped :
      (event : String) (hooks : List (HookSnap Callback)) (w : World Callback Rest)
      → (fold_next event hooks).dropped w ≡ drop_all hooks w
  unfolding fold_next drop_all wrap tail_next drop_next
  fold_next-dropped event [] w = refl
  fold_next-dropped event (hook ∷ hooks) w =
      ap (λ d. ((collect (waterfall.drop_hook hook w).0 d.0.0, d.0.1), d.1))
        (fold_next-dropped event hooks (waterfall.drop_hook hook w).1)

  -- A loop from the first listener to the last: each one that is claimed maps the payload for the
  -- next, and the tail runs at the end. A failure drops what was not called.
  pub map_loop :
      String
      → List (HookSnap Callback)
      → Payload
      → World Callback Rest
      → Called Callback Payload Rest
  unfolding drop_all
  map_loop event [] payload w =
      let (ran, w1) = waterfall.tail payload w in (some (tail_result ran), w1)
  map_loop event (hook ∷ hooks) payload w =
      let (claimed, w1) = claim_hook waterfall.runtime event hook w in
      elim claimed [
        | false ↦ map_loop event hooks payload (waterfall.runtime.discard hook w1)
        | true ↦ elim hook.kind [
          | around callback ↦ (none, w1)
          | plain role callback ↦
              let (result, w2) = waterfall.runtime.invoke callback payload w1 in
              elim (correlated waterfall.runtime hook.id result) [
                | err failure ↦ abandon_next waterfall failure (drop_all hooks w2)
                | ok value ↦ elim value [
                  | mapped next_payload ↦ map_loop event hooks next_payload w2
                  | observed ↦ (none, w2)
                  | responded answered ↦ (none, w2)
                ]
              ]
        ]
      ]

  -- The two ways to go on after a Mapper agree.
  after_mapper-loop :
      (event : String) (hooks : List (HookSnap Callback))
      (result : Result (CallbackValue Payload) InvocationFailure) (w : World Callback Rest)
      → ((payload : Payload) (x : World Callback Rest)
          → (fold_next event hooks).call payload x ≡ map_loop event hooks payload x)
      → after_mapper waterfall (fold_next event hooks) result w ≡ elim result [
        | err failure ↦ abandon_next waterfall failure (drop_all hooks w)
        | ok value ↦ elim value [
          | mapped next_payload ↦ map_loop event hooks next_payload w
          | observed ↦ (none, w)
          | responded answered ↦ (none, w)
        ]
      ]
  after_mapper-loop event hooks (ok (mapped payload)) w ih = ih payload w
  after_mapper-loop event hooks (ok observed) w ih = refl
  after_mapper-loop event hooks (ok (responded answered)) w ih = refl
  after_mapper-loop event hooks (err failure) w ih =
      ap (abandon_next waterfall failure) (fold_next-dropped event hooks w)

  call_next-loop :
      (event : String) (hook : HookSnap Callback) (hooks : List (HookSnap Callback))
      → IsPlain hook.kind
      → ((payload : Payload) (x : World Callback Rest)
          → (fold_next event hooks).call payload x ≡ map_loop event hooks payload x)
      → (payload : Payload) (w : World Callback Rest)
      → call_next waterfall event hook (fold_next event hooks) payload w
        ≡ map_loop event (hook ∷ hooks) payload w
  unfolding call_next map_loop
  call_next-loop event hook hooks m ih payload w =
      let w1 = (claim_hook waterfall.runtime event hook w).1 in
      elim (Bool-cases (claim_hook waterfall.runtime event hook w).0) [
        | inr b ↦ rw (b, call_next, map_loop) (ih payload (waterfall.runtime.discard hook w1))
        | inl b ↦ elim (kind-cases hook.kind) [
          | inr (callback, k) ↦ absurd (rw k at m)
          | inl (role, callback, k) ↦
              rw (b, call_next, map_loop, k)
                (after_mapper-loop event hooks
                  (correlated waterfall.runtime hook.id
                    (waterfall.runtime.invoke callback payload w1).0)
                  (waterfall.runtime.invoke callback payload w1).1 ih)
        ]
      ]

  fold_next-loop :
      (event : String) (hooks : List (HookSnap Callback))
      → All (λ h. IsPlain h.kind) hooks
      → (payload : Payload) (w : World Callback Rest)
      → (fold_next event hooks).call payload w ≡ map_loop event hooks payload w
  unfolding fold_next map_loop wrap tail_next
  fold_next-loop event [] m payload w = refl
  fold_next-loop event (hook ∷ hooks) m payload w =
      call_next-loop event hook hooks m.0 (fold_next-loop event hooks m.1) payload w

  -- When the preflight selects Mappers only, a waterfall is that loop: it feeds each claimed
  -- Mapper's output to the next and the last one's to the tail, and a failure of a Mapper drops the
  -- hooks behind it, then the tail, and carries the messages of their panics in that order.
  pub waterfall_inner-Loops :
      (e : Event) (routing : Routing) (args : Payload) (w : World Callback Rest)
      → SelectsMappers
          (context_preflight {Failure = InvocationFailure} waterfall.runtime.scope_membership e
            routing EventOperation.waterfall w.events).0
      → waterfall_inner waterfall e routing args w
        ≡ after_selection waterfall
            (λ hooks. λ x. map_loop e.name hooks args x)
            w
            (context_preflight waterfall.runtime.scope_membership e routing EventOperation.waterfall
              w.events)
  unfolding waterfall_inner
  waterfall_inner-Loops e routing args w m =
      from
        (context_preflight waterfall.runtime.scope_membership e routing EventOperation.waterfall
          w.events)
        m
    where
      from :
          (r : Result (List (HookSnap Callback)) (DispatchError InvocationFailure)
            × EventState Callback)
          → SelectsMappers r.0
          → after_selection waterfall
              (λ hooks.
                λ x. (wrap_all waterfall e.name (reverse hooks) (tail_next waterfall)).call args x)
              w
              r
            ≡ after_selection waterfall (λ hooks. λ x. map_loop e.name hooks args x) w r
      from (err failure, events) m = refl
      from (ok hooks, events) m =
          ap (λ n. outcome waterfall (n.call args (record w { events = events })))
            (wrap_all-reverse e.name hooks)
          ∙ ap (outcome waterfall)
              (fold_next-loop e.name hooks m args (record w { events = events }))
