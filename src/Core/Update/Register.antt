-- ===== src/Core/Update/Register.antt =====
-- update.rs, `on_update` with `UpdatePublish`: the gated registration of an update policy.
use cordis_rs.Base.{ℕ, ◌≡◌, refl, ◌&&◌, true, false, inl, inr, Result, ok, err}
use cordis_rs.Core.Gated.{
  Liveness, DisposableList, GatedPublishError, can_register, push, push_gated,
}
use cordis_rs.Core.Gated.Journal.{push_gated-cases}
use cordis_rs.Core.Update.{UpdateHook, UpdateState, add}

-- `map_err` to `ListenerRegistrationError::InactiveContext`
pub data UpdateRegistrationError : Type 0 where
  inactive : UpdateRegistrationError

module _ {Callback Cleanup : Type 0} where
  abbrev pub inactive_for_any :
      Result ℕ GatedPublishError × DisposableList Cleanup × UpdateState Callback
      → Result ℕ UpdateRegistrationError × DisposableList Cleanup × UpdateState Callback
  inactive_for_any (ok token, journal, state) = (ok token, journal, state)
  inactive_for_any (err refusal, journal, state) = (err inactive, journal, state)

  -- `on_update`, from the hook on
  pub on_update :
      ℕ
      → UpdateHook Callback
      → Liveness
      → Liveness
      → Cleanup
      → DisposableList Cleanup
      → UpdateState Callback
      → Result ℕ UpdateRegistrationError × DisposableList Cleanup × UpdateState Callback
  on_update contract hook gate locked cleanup journal state =
      inactive_for_any
        (push_gated gate locked journal cleanup (λ s. (true, add contract hook s)) state)

  -- What each answer of a registration means.
  abbrev pub Registers :
      ℕ
      → UpdateHook Callback
      → Liveness
      → Liveness
      → Cleanup
      → DisposableList Cleanup
      → UpdateState Callback
      → Result ℕ UpdateRegistrationError × DisposableList Cleanup × UpdateState Callback
      → Type 0
  Registers contract hook gate locked cleanup journal state (ok token, journal', state') =
      ((can_register gate && can_register locked) ≡ true)
      × ((token, journal') ≡ push journal cleanup)
      × (state' ≡ add contract hook state)
  Registers contract hook gate locked cleanup journal state (err inactive, journal', state') =
      ((can_register gate && can_register locked) ≡ false) × (journal' ≡ journal) × (state' ≡ state)

  -- An update policy is registered with its obligation exactly when both liveness checks pass, and
  -- a refusal, which is always for an inactive Context, has changed nothing.
  pub on_update-Registers :
      (contract : ℕ) (hook : UpdateHook Callback) (gate locked : Liveness) (cleanup : Cleanup)
      (journal : DisposableList Cleanup) (state : UpdateState Callback)
      → Registers contract hook gate locked cleanup journal state
          (on_update contract hook gate locked cleanup journal state)
  unfolding on_update
  on_update-Registers contract hook gate locked cleanup journal state =
      elim (push_gated-cases gate locked journal cleanup (λ s. (true, add contract hook s)) state) [
        | inl (b, q) ↦ rw q (b, refl, refl)
        | inr (inl (b, p, q)) ↦ absurd (never p)
        | inr (inr (b, p, q)) ↦ rw q (b, refl, refl)
      ]
    where
      never : true ≡ false → ⊥
      never p = cc
