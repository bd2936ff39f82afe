-- ===== src/Core/Settle/Trails.antt =====
-- fiber/mod.rs: the lifecycle of a Fiber, and the transitions that an unload publishes.
use cordis_rs.Base.{
  ℕ, ◌≡◌, refl, sym, subst, ◌≢◌, ◌∙◌, inl, inr, true, Option, none, some, List, [], ◌∷◌, reverse,
  arith, Bool-cases,
}
use cordis_rs.Core.Gated.{
  FiberState, pending, loading, active, unloading, failed, disposed, DisposableList, tokens,
  remove_token,
}
use cordis_rs.Core.Settle.{
  Fiber, state_eq, transition, run_claimed, run_tokens_contained, drain_disposables, unload,
}

-- The lifecycle of a Fiber that is settled.
infix 40 ◌⟶◌
pub data ◌⟶◌ : FiberState → FiberState → Type 0 where
  begin : pending ⟶ loading
  again : unloading ⟶ loading
  activate : loading ⟶ active
  abort : loading ⟶ unloading
  leave : active ⟶ unloading
  clear : failed ⟶ unloading
  fail : unloading ⟶ failed
  park : unloading ⟶ pending

-- The states published on the way from one state to another, the last one first.
pub data Trail : FiberState → List FiberState → FiberState → Type 0 where
  here : {s : FiberState} → Trail s [] s
  onward :
      {s t u : FiberState} {published : List FiberState}
      → Trail s published t
      → t ⟶ u
      → Trail s (u ∷ published) u

-- At rest: nothing is applied and nothing drained.
pub data IsUnloaded : FiberState → Type 0 where
  parked : IsUnloaded pending
  drained : IsUnloaded unloading

state_eq-state : (a b : FiberState) → state_eq a b ≡ true → a ≡ b
state_eq-state a b h = ground arith

module _ {Cleanup Failure : Type 0} where
  -- Two views of a Fiber that differ in the journal and the cleanups run alone.
  abbrev pub Cleans : Fiber Cleanup Failure → Fiber Cleanup Failure → Type 0
  Cleans fiber fiber' =
      (fiber'.state ≡ fiber.state)
      × (fiber'.published ≡ fiber.published)
      × (fiber'.alive ≡ fiber.alive)
      × (fiber'.creation_pending ≡ fiber.creation_pending)
      × (fiber'.applied ≡ fiber.applied)
      × (fiber'.generation_replacing ≡ fiber.generation_replacing)
      × (fiber'.error ≡ fiber.error)

  -- The states published so far lead from `origin` to the state of the Fiber.
  abbrev pub Trails : FiberState → Fiber Cleanup Failure → Type 0
  Trails origin fiber = Trail origin fiber.published fiber.state

  Cleans-Trails :
      (origin : FiberState) (fiber fiber' : Fiber Cleanup Failure)
      → Cleans fiber fiber'
      → Trails origin fiber
      → Trails origin fiber'
  Cleans-Trails origin fiber fiber' c t =
      subst (λ p. Trail origin p fiber'.state) (sym c.1)
        (subst (λ x. Trail origin fiber.published x) (sym c.0) t)

  pub transition-Trails :
      (origin next : FiberState) (fiber : Fiber Cleanup Failure)
      → fiber.state ⟶ next
      → Trails origin fiber
      → Trails origin (transition next fiber)
  transition-Trails origin next fiber e t = elim (Bool-cases (state_eq fiber.state next)) [
    | inl b ↦ rw b t
    | inr b ↦ rw b (onward t e)
  ]

  pub transition-state :
      (next : FiberState) (fiber : Fiber Cleanup Failure) → (transition next fiber).state ≡ next
  transition-state next fiber = elim (Bool-cases (state_eq fiber.state next)) [
    | inl b ↦ rw b (state_eq-state fiber.state next b)
    | inr b ↦ rw b refl
  ]

  pub transition-error :
      (next : FiberState) (fiber : Fiber Cleanup Failure)
      → (transition next fiber).error ≡ fiber.error
  transition-error next fiber = elim (Bool-cases (state_eq fiber.state next)) [
    | inl b ↦ rw b refl
    | inr b ↦ rw b refl
  ]

  pub park-Trails :
      (origin : FiberState) (fiber : Fiber Cleanup Failure) {at : FiberState}
      → fiber.state ≡ at
      → IsUnloaded at
      → Trails origin fiber
      → Trails origin (transition pending fiber)
  park-Trails origin fiber e parked t = rw e (subst (λ x. Trail origin fiber.published x) e t)
  park-Trails origin fiber e drained t =
      transition-Trails origin pending fiber (subst (λ x. x ⟶ pending) (sym e) park) t

  pub load-Trails :
      (origin : FiberState) (fiber : Fiber Cleanup Failure) {at : FiberState}
      → fiber.state ≡ at
      → IsUnloaded at
      → Trails origin fiber
      → Trails origin (transition loading fiber)
  load-Trails origin fiber e parked t =
      transition-Trails origin loading fiber (subst (λ x. x ⟶ loading) (sym e) begin) t
  load-Trails origin fiber e drained t =
      transition-Trails origin loading fiber (subst (λ x. x ⟶ loading) (sym e) again) t

  module _ (runs : Cleanup → DisposableList Cleanup → DisposableList Cleanup) where
    run_claimed-Cleans :
        (claimed : Option Cleanup) (journal : DisposableList Cleanup)
        (fiber fiber' : Fiber Cleanup Failure)
        → Cleans (run_claimed runs claimed journal fiber) fiber'
        → Cleans fiber fiber'
    run_claimed-Cleans none journal fiber fiber' h = h
    run_claimed-Cleans (some cleanup) journal fiber fiber' h = h

    run_tokens_contained-Cleans :
        (ts : List ℕ) (fiber : Fiber Cleanup Failure)
        → Cleans fiber (run_tokens_contained runs ts fiber)
    unfolding run_tokens_contained
    run_tokens_contained-Cleans [] fiber = (refl, refl, refl, refl, refl, refl, refl)
    run_tokens_contained-Cleans (t ∷ ts) fiber =
        let (claimed, journal) = remove_token fiber.journal t in
        run_claimed-Cleans claimed journal fiber
          (run_tokens_contained runs ts (run_claimed runs claimed journal fiber))
          (run_tokens_contained-Cleans ts (run_claimed runs claimed journal fiber))

    pub drain_disposables-Cleans :
        (fiber : Fiber Cleanup Failure) → Cleans fiber (drain_disposables runs fiber)
    unfolding drain_disposables
    drain_disposables-Cleans fiber =
        run_tokens_contained-Cleans (reverse (tokens fiber.journal)) fiber

    -- A transition to unloading with its drain.
    pub drain-Trails :
        (origin : FiberState) (fiber : Fiber Cleanup Failure) (at : FiberState)
        → fiber.state ≡ at
        → at ⟶ unloading
        → Trails origin fiber
        → Trails origin (drain_disposables runs (transition unloading fiber))
          × ((drain_disposables runs (transition unloading fiber)).state ≡ unloading)
    drain-Trails origin fiber at e edge t = (
      Cleans-Trails origin (transition unloading fiber)
          (drain_disposables runs (transition unloading fiber))
          (drain_disposables-Cleans (transition unloading fiber))
          (transition-Trails origin unloading fiber (subst (λ x. x ⟶ unloading) (sym e) edge) t),
      (drain_disposables-Cleans (transition unloading fiber)).0 ∙ transition-state unloading fiber,
    )

    pub unload-Trails :
        (origin at : FiberState) (fiber : Fiber Cleanup Failure)
        → fiber.state ≡ at
        → at ≢ disposed
        → Trails origin fiber
        → Trails origin (unload runs at fiber)
          × (to : FiberState) × ((unload runs at fiber).state ≡ to)
          × IsUnloaded to
    unload-Trails origin pending fiber e n t = (t, pending, e, parked)
    unload-Trails origin unloading fiber e n t = (t, unloading, e, drained)
    unload-Trails origin loading fiber e n t =
        let (t', e') = drain-Trails origin fiber loading e abort t in (t', unloading, e', drained)
    unload-Trails origin active fiber e n t =
        let (t', e') = drain-Trails origin fiber active e leave t in (t', unloading, e', drained)
    unload-Trails origin failed fiber e n t =
        let (t', e') = drain-Trails origin fiber failed e clear t in (t', unloading, e', drained)
    unload-Trails origin disposed fiber e n t = absurd (n refl)
