-- ===== src/Core/Settle.antt =====
-- crates/cordis-core/src/fiber/mod.rs, `settle_once` with `transition` and `drain_disposables`: one
-- settle pass over the state, the parked error and the journal of a Fiber whose slot is held.
-- The apply of a plugin and a cleanup are parameters: what they answer and what they leave in the
-- journal. The failed and the panicking apply answer the same kind of failure. What a transition does
-- to the Services of the Fiber is in Core.Services; its wakeups and observations, and the marks that
-- a drain sets for those who wait on it, are not modelled.
pub mod Trails
pub mod Outcome
pub mod Drain
use mathlib.Core.Option
use cordis_rs.Base.{
  ℕ, Bool, true, false, not, ◌&&◌, Option, none, some, List, [], ◌∷◌, ◌++◌, reverse, if◌then◌else◌,
}
use cordis_rs.Core.Gated.{
  FiberState, pending, loading, active, unloading, failed, disposed, DisposableList, tokens,
  remove_token,
}

-- What a settle pass reads and writes of a Fiber. `published` and `cleaned` are no cells of the
-- source: the states published, the last one first, and the cleanups run, the first one first.
pub record Fiber (Cleanup Failure : Type 0) : Type 0 where
  pub state : FiberState
  pub alive : Bool
  pub creation_pending : Bool
  pub applied : Bool
  pub generation_replacing : Bool
  pub error : Option Failure
  pub journal : DisposableList Cleanup
  pub published : List FiberState
  pub cleaned : List Cleanup

-- How an apply ended: `some` failure for an error or a panic.
pub record Applied (Cleanup Failure : Type 0) : Type 0 where
  pub failure : Option Failure
  pub journal : DisposableList Cleanup

abbrev pub state_eq : FiberState → FiberState → Bool
state_eq pending pending = true
state_eq loading loading = true
state_eq active active = true
state_eq unloading unloading = true
state_eq failed failed = true
state_eq disposed disposed = true
state_eq _ _ = false

module _ {Cleanup Failure : Type 0} where
  -- `transition`: a transition to the same state publishes nothing.
  abbrev pub transition : FiberState → Fiber Cleanup Failure → Fiber Cleanup Failure
  transition next fiber =
      if state_eq fiber.state next
      then fiber
      else record fiber { state = next; published = next ∷ fiber.published }

  abbrev pub store_error : Option Failure → Fiber Cleanup Failure → Fiber Cleanup Failure
  store_error next fiber = record fiber { error = next }

  -- Whether the first apply is left to the initial pass.
  abbrev pub defers : Bool → Fiber Cleanup Failure → Bool
  defers owns_first_apply fiber =
      not owns_first_apply && fiber.creation_pending && not fiber.applied

  module _ (runs : Cleanup → DisposableList Cleanup → DisposableList Cleanup) where
    -- A token that is still there is claimed, and its cleanup run.
    abbrev pub run_claimed :
        Option Cleanup → DisposableList Cleanup → Fiber Cleanup Failure → Fiber Cleanup Failure
    run_claimed none journal fiber = record fiber { journal = journal }
    run_claimed (some cleanup) journal fiber = record fiber {
      journal = runs cleanup journal;
      cleaned = fiber.cleaned ++ (cleanup ∷ []);
    }

    -- `run_tokens_contained`, on the tokens from the last to the first
    pub run_tokens_contained : List ℕ → Fiber Cleanup Failure → Fiber Cleanup Failure
    run_tokens_contained [] fiber = fiber
    run_tokens_contained (token ∷ tokens) fiber =
        let (claimed, journal) = remove_token fiber.journal token in
        run_tokens_contained tokens (run_claimed claimed journal fiber)

    pub drain_disposables : Fiber Cleanup Failure → Fiber Cleanup Failure
    drain_disposables fiber = run_tokens_contained (reverse (tokens fiber.journal)) fiber

    abbrev pub unload : FiberState → Fiber Cleanup Failure → Fiber Cleanup Failure
    unload active fiber = drain_disposables (transition unloading fiber)
    unload failed fiber = drain_disposables (transition unloading fiber)
    unload loading fiber = drain_disposables (transition unloading fiber)
    unload _ fiber = fiber

    abbrev pub conclude : Option Failure → Fiber Cleanup Failure → Fiber Cleanup Failure
    conclude none fiber = transition active (store_error none fiber)
    conclude (some failure) fiber =
        transition failed
          (store_error (some failure) (drain_disposables (transition unloading fiber)))

    module _ (apply : DisposableList Cleanup → Applied Cleanup Failure) where
      abbrev pub run_apply : Fiber Cleanup Failure → Fiber Cleanup Failure
      run_apply fiber =
          let opened = transition loading (record fiber { generation_replacing = false }) in
          let outcome = apply opened.journal in
          conclude outcome.failure (record opened { applied = true; journal = outcome.journal })

      abbrev pub settle_unloaded :
          (missing deferred : Bool) → Fiber Cleanup Failure → Fiber Cleanup Failure
      settle_unloaded true deferred fiber = transition pending (store_error none fiber)
      settle_unloaded false true fiber = fiber
      settle_unloaded false false fiber = run_apply fiber

      -- `settle_once`, for a target with or without a missing assignment
      pub settle_once :
          (missing owns_first_apply : Bool) → Fiber Cleanup Failure → Fiber Cleanup Failure
      settle_once missing owns_first_apply fiber =
          let unloaded = unload fiber.state fiber in
          if not fiber.alive
          then fiber
          else settle_unloaded missing (defers owns_first_apply unloaded) unloaded
