-- ===== src/Core/Settle/Outcome.antt =====
-- fiber/mod.rs, `settle_once`: the transitions that it publishes and the state that it leaves.
use cordis_rs.Base.{
  ◌≡◌, refl, sym, subst, ◌≢◌, ◌∙◌, inl, inr, Bool, true, false, not, Option, none, some, Bool-cases,
  if◌then◌else◌,
}
use cordis_rs.Core.Gated.{
  FiberState, pending, loading, active, unloading, failed, disposed, DisposableList,
}
use cordis_rs.Core.Settle.{
  Fiber, Applied, state_eq, transition, store_error, drain_disposables, unload, conclude, run_apply,
  settle_once, settle_unloaded, defers,
}
use cordis_rs.Core.Settle.Trails.{
  ◌⟶◌, activate, abort, fail, IsUnloaded, Trails, transition-Trails, transition-state,
  transition-error, park-Trails, load-Trails, drain_disposables-Cleans, drain-Trails, unload-Trails,
}

module _ {Cleanup Failure : Type 0} where
  module _ (runs : Cleanup → DisposableList Cleanup → DisposableList Cleanup) where
    module _ (apply : DisposableList Cleanup → Applied Cleanup Failure) where
      -- What a settle pass leaves: parked, deferred to the initial pass, active or failed; the parked
      -- error is that of a failed apply, and the gate of a replaced generation is open again.
      abbrev pub Ends :
          (missing deferred : Bool)
          → Option Failure
          → Fiber Cleanup Failure
          → Fiber Cleanup Failure
          → Type 0
      Ends true deferred failure fiber fiber' = (fiber'.state ≡ pending) × (fiber'.error ≡ none)
      Ends false true failure fiber fiber' =
          ((to : FiberState) × (fiber'.state ≡ to) × IsUnloaded to) × (fiber'.error ≡ fiber.error)
      Ends false false none fiber fiber' =
          (fiber'.state ≡ active) × (fiber'.error ≡ none) × (fiber'.generation_replacing ≡ false)
      Ends false false (some failure) fiber fiber' =
          (fiber'.state ≡ failed)
          × (fiber'.error ≡ some failure)
          × (fiber'.generation_replacing ≡ false)

      transition-replacing :
          (next : FiberState) (fiber : Fiber Cleanup Failure)
          → (transition next fiber).generation_replacing ≡ fiber.generation_replacing
      transition-replacing next fiber = elim (Bool-cases (state_eq fiber.state next)) [
        | inl b ↦ rw b refl
        | inr b ↦ rw b refl
      ]

      conclude-Ends :
          (origin : FiberState) (failure : Option Failure) (before fiber : Fiber Cleanup Failure)
          → fiber.state ≡ loading
          → fiber.generation_replacing ≡ false
          → Trails origin fiber
          → Trails origin (conclude runs failure fiber)
            × Ends false false failure before (conclude runs failure fiber)
      conclude-Ends origin none before fiber e g t = (
        transition-Trails origin active (store_error none fiber)
            (subst (λ x. x ⟶ active) (sym e) activate) t,
        (
          transition-state active (store_error none fiber),
          transition-error active (store_error none fiber),
          transition-replacing active (store_error none fiber) ∙ g,
        ),
      )
      conclude-Ends origin (some failure) before fiber e g t =
          let emptied : Fiber Cleanup Failure =
            drain_disposables runs (transition unloading fiber) in
          let stored : Fiber Cleanup Failure = store_error (some failure) emptied in
          let (t', e') = drain-Trails runs origin fiber loading e abort t in
          let clean = drain_disposables-Cleans runs (transition unloading fiber) in
          (
            transition-Trails origin failed stored (subst (λ x. x ⟶ failed) (sym e') fail) t',
            (
              transition-state failed stored,
              transition-error failed stored,
              transition-replacing failed stored
                  ∙ clean.5
                  ∙ transition-replacing unloading fiber
                  ∙ g,
            ),
          )

      run_apply-Ends :
          (origin at : FiberState) (before fiber : Fiber Cleanup Failure)
          → fiber.state ≡ at
          → IsUnloaded at
          → Trails origin fiber
          → Trails origin (run_apply runs apply fiber)
            × Ends false false (apply fiber.journal).failure before (run_apply runs apply fiber)
      run_apply-Ends origin at before fiber e u t =
          let cleared : Fiber Cleanup Failure = record fiber { generation_replacing = false } in
          let opened : Fiber Cleanup Failure = transition loading cleared in
          let journal : opened.journal ≡ fiber.journal = transition-journal cleared in
          let outcome = apply opened.journal in
          let done : Fiber Cleanup Failure = record opened {
            applied = true;
            journal = outcome.journal;
          } in
          subst
            (λ j.
              Trails origin (conclude runs outcome.failure done)
              × Ends false false (apply j).failure before (conclude runs outcome.failure done))
            journal
            (conclude-Ends origin outcome.failure before done (transition-state loading cleared)
              (transition-replacing loading cleared) (load-Trails origin cleared e u t))
        where
          transition-journal :
              (f : Fiber Cleanup Failure) → (transition loading f).journal ≡ f.journal
          transition-journal f = elim (Bool-cases (state_eq f.state loading)) [
            | inl b ↦ rw b refl
            | inr b ↦ rw b refl
          ]

      settle_unloaded-Ends :
          (origin : FiberState) {at : FiberState} (missing deferred : Bool)
          (before fiber : Fiber Cleanup Failure)
          → fiber.state ≡ at
          → IsUnloaded at
          → fiber.error ≡ before.error
          → Trails origin fiber
          → Trails origin (settle_unloaded runs apply missing deferred fiber)
            × Ends missing deferred
                (apply fiber.journal).failure
                before
                (settle_unloaded runs apply missing deferred fiber)
      settle_unloaded-Ends origin {at} true deferred before fiber e u r t = (
        park-Trails origin (store_error none fiber) e u t,
        (
          transition-state pending (store_error none fiber),
          transition-error pending (store_error none fiber),
        ),
      )
      settle_unloaded-Ends origin {at} false true before fiber e u r t = (t, ((at, e, u), r))
      settle_unloaded-Ends origin {at} false false before fiber e u r t =
          run_apply-Ends origin at before fiber e u t

      settle_once-live :
          (missing owns_first_apply : Bool) (fiber : Fiber Cleanup Failure)
          → fiber.alive ≡ true
          → settle_once runs apply missing owns_first_apply fiber
            ≡ settle_unloaded runs apply missing
                (defers owns_first_apply (unload runs fiber.state fiber))
                (unload runs fiber.state fiber)
      unfolding settle_once
      settle_once-live missing owns_first_apply fiber a = live fiber.alive a fiber (
          settle_unloaded runs apply missing
            (defers owns_first_apply (unload runs fiber.state fiber))
            (unload runs fiber.state fiber))
        where
          live :
              (b : Bool) → b ≡ true → (x y : Fiber Cleanup Failure) → (if not b then x else y) ≡ y
          live b h x y = rw h refl

      drained_same :
          (fiber : Fiber Cleanup Failure) (owns : Bool)
          → (defers owns (drain_disposables runs (transition unloading fiber)) ≡ defers owns fiber)
            × ((drain_disposables runs (transition unloading fiber)).error ≡ fiber.error)
      drained_same fiber owns =
          let c = drain_disposables-Cleans runs (transition unloading fiber) in
          let moved = transition-defers unloading fiber owns in
          (rw (c.3, c.4) moved, c.6 ∙ transition-error unloading fiber)
        where
          transition-defers :
              (next : FiberState) (f : Fiber Cleanup Failure) (o : Bool)
              → defers o (transition next f) ≡ defers o f
          transition-defers next f o = elim (Bool-cases (state_eq f.state next)) [
            | inl b ↦ rw b refl
            | inr b ↦ rw b refl
          ]

      unload-same :
          (at : FiberState) (fiber : Fiber Cleanup Failure) (owns : Bool)
          → (defers owns (unload runs at fiber) ≡ defers owns fiber)
            × ((unload runs at fiber).error ≡ fiber.error)
      unload-same pending fiber owns = (refl, refl)
      unload-same unloading fiber owns = (refl, refl)
      unload-same disposed fiber owns = (refl, refl)
      unload-same loading fiber owns = drained_same fiber owns
      unload-same active fiber owns = drained_same fiber owns
      unload-same failed fiber owns = drained_same fiber owns

      -- A settle pass of a live Fiber that is not disposed publishes transitions of the lifecycle only,
      -- from the state that the Fiber had to the one that it leaves, and leaves what the case
      -- prescribes: parked with no error for a missing assignment, unloaded with its error when the
      -- first apply belongs to the initial pass, active with no error after an apply, and failed with
      -- its failure after a failed one.
      pub settle_once-Ends :
          (origin : FiberState) (missing owns_first_apply : Bool) (fiber : Fiber Cleanup Failure)
          → fiber.alive ≡ true
          → fiber.state ≢ disposed
          → Trails origin fiber
          → Trails origin (settle_once runs apply missing owns_first_apply fiber)
            × Ends missing
                (defers owns_first_apply fiber)
                (apply (unload runs fiber.state fiber).journal).failure
                fiber
                (settle_once runs apply missing owns_first_apply fiber)
      settle_once-Ends origin missing owns_first_apply fiber a n t =
          let unloaded : Fiber Cleanup Failure = unload runs fiber.state fiber in
          let (t', to, e, u) = unload-Trails runs origin fiber.state fiber refl n t in
          let same = unload-same fiber.state fiber owns_first_apply in
          subst
            (λ x.
              Trails origin x
              × Ends missing (defers owns_first_apply fiber) (apply unloaded.journal).failure fiber
                  x)
            (sym (settle_once-live missing owns_first_apply fiber a))
            (subst
              (λ d.
                Trails origin
                  (settle_unloaded runs apply missing (defers owns_first_apply unloaded) unloaded)
                × Ends missing d (apply unloaded.journal).failure fiber (
                    settle_unloaded runs apply missing (defers owns_first_apply unloaded) unloaded))
              same.0
              (settle_unloaded-Ends origin missing (defers owns_first_apply unloaded) fiber unloaded
                e u same.1 t'))
