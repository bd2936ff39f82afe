-- ===== src/Core/Services/Provide.antt =====
-- service.rs, `Context::provide` and `ServiceSlotPublish::publish`: a Service slot goes into the store
-- and its cleanup into the journal of the Fiber, or neither does.
use cordis_rs.Base.{
  ℕ, ◌≡◌, ◌⊎◌, refl, ap, subst, inl, inr, Bool, true, false, ◌&&◌, Option, none, some, List, arith,
  String, String_eq, ℕ_eq, pair_eq, Bool-cases, if◌then◌else◌, not, lookup, Result, is_ok, ok, err,
}
use cordis_rs.Core.Gated.Journal.{push_gated-cases}
use cordis_rs.Core.Gated.{
  Liveness, DisposableList, GatedPublishError, inactive_context, publish_refused, can_register,
  push, push_gated,
}
use cordis_rs.Core.Services.{
  Fibers, Edge, ServiceSlot, ServiceState, ServiceInstallRefusal, duplicate, contract_mismatch,
  differs, taken, bind, install,
}
use cordis_rs.Core.Services.Visibility.{bind-slots}
use cordis_rs.Core.Services.Contracts.{IsTyped}
use cordis_rs.Core.Services.Handles.{Installed, install-Installed}

pub data ServicePublishError : Type 0 where
  inactive : ServicePublishError
  duplicate_publication publish_mismatch : (service : String) → ServicePublishError

module _ {Payload : Type 0} where
  -- `publish`, whose refusal stays in the step
  abbrev pub publish_slot :
      Fibers → ServiceSlot Payload → Edge → ServiceState Payload → Bool × ServiceState Payload
  publish_slot fibers slot edge state = (
    is_ok (install fibers slot.fiber slot edge state).0,
    (install fibers slot.fiber slot edge state).1,
  )

  abbrev pub refusal :
      String
      → Result (Option (ServiceSlot Payload) × List Edge) ServiceInstallRefusal
      → ServicePublishError
  refusal name (err duplicate) = duplicate_publication name
  refusal name (err contract_mismatch) = publish_mismatch name
  refusal name (ok answer) = inactive

  -- The two refusals of an installation; in a typed store they change nothing.
  install-refused :
      (fibers : Fibers) (slot : ServiceSlot Payload) (edge : Edge) (state : ServiceState Payload)
      → IsTyped state
      → is_ok (install fibers slot.fiber slot edge state).0 ≡ false
      → ((install fibers slot.fiber slot edge state ≡ (err contract_mismatch, state))
          × (differs slot.contract (lookup edge.1 state.contracts) ≡ true))
        ⊎ ((install fibers slot.fiber slot edge state ≡ (err duplicate, state))
            × (taken fibers (lookup edge state.slots) ≡ true))
  unfolding install
  install-refused fibers slot edge state w h =
      let o : Option ℕ = lookup edge.1 state.contracts in
      elim (Bool-cases (differs slot.contract o)) [
        | inl d ↦ inl (rw d refl, d)
        | inr d ↦
            let bound : ServiceState Payload = bind edge.1 slot.contract o state in
            elim (Bool-cases (taken fibers (lookup edge bound.slots))) [
              | inr t ↦ absurd (ground (arith, rw (d, t) at h))
              | inl t ↦
                  let t' : taken fibers (lookup edge state.slots) ≡ true =
                    subst (λ m. taken fibers (lookup edge m) ≡ true)
                      (bind-slots edge.1 slot.contract o state) t in
                  inr (rw (d, t) (ap (λ s. (err duplicate, s)) (unbound o refl t')), t')
            ]
      ]
    where
      unbound :
          (o : Option ℕ)
          → lookup edge.1 state.contracts ≡ o
          → taken fibers (lookup edge state.slots) ≡ true
          → bind edge.1 slot.contract o state ≡ state
      unbound (some bound) e t = refl
      unbound none e t = absurd (ground (arith, held (lookup edge state.slots) refl t))
        where
          held :
              (s : Option (ServiceSlot Payload))
              → lookup edge state.slots ≡ s
              → taken fibers s ≡ true
              → true ≡ false
          held none l k = ground arith
          held (some existing) l k = absurd (ground (arith, e, (w edge existing l).0))

module _ {Payload Cleanup : Type 0} where
  abbrev pub publish_answer :
      String
      → Result (Option (ServiceSlot Payload) × List Edge) ServiceInstallRefusal
      → Result ℕ GatedPublishError × DisposableList Cleanup × ServiceState Payload
      → Result ℕ ServicePublishError × DisposableList Cleanup × ServiceState Payload
  publish_answer name installed (ok token, journal, state) = (ok token, journal, state)
  publish_answer name installed (err inactive_context, journal, state) =
      (err inactive, journal, state)
  publish_answer name installed (err publish_refused, journal, state) =
      (err (refusal name installed), journal, state)

  -- `provide`: the liveness at its entry, at the gate and under the lock of the journal
  pub provide :
      Liveness
      → Liveness
      → Liveness
      → Cleanup
      → DisposableList Cleanup
      → Fibers
      → ServiceSlot Payload
      → Edge
      → ServiceState Payload
      → Result ℕ ServicePublishError × DisposableList Cleanup × ServiceState Payload
  provide entry gate locked cleanup journal fibers slot edge state =
      if not (can_register entry)
      then (err inactive, journal, state)
      else publish_answer edge.1 (install fibers slot.fiber slot edge state).0
          (push_gated gate locked journal cleanup (publish_slot fibers slot edge) state)

  -- What each answer means.
  abbrev pub Provides :
      Liveness
      → Liveness
      → Liveness
      → Cleanup
      → DisposableList Cleanup
      → Fibers
      → ServiceSlot Payload
      → Edge
      → ServiceState Payload
      → Result ℕ ServicePublishError × DisposableList Cleanup × ServiceState Payload
      → Type 0
  Provides entry gate locked cleanup journal fibers slot edge state (ok token, journal', state') =
      ((can_register entry && can_register gate && can_register locked) ≡ true)
      × Installed slot edge state state'
      × ((token, journal') ≡ push journal cleanup)
  Provides entry gate locked cleanup journal fibers slot edge state
        (err inactive, journal', state') =
      ((can_register entry && can_register gate && can_register locked) ≡ false)
      × (journal' ≡ journal)
      × (state' ≡ state)
  Provides entry gate locked cleanup journal fibers slot edge state
        (err (publish_mismatch name), journal', state') =
      (differs slot.contract (lookup edge.1 state.contracts) ≡ true)
      × (journal' ≡ journal)
      × (state' ≡ state)
  Provides entry gate locked cleanup journal fibers slot edge state
        (err (duplicate_publication name), journal', state') =
      (taken fibers (lookup edge state.slots) ≡ true) × (journal' ≡ journal) × (state' ≡ state)

  -- In a typed store, publishing a Service is one step: an answer with a token says that all three
  -- liveness checks passed, that the slot is installed and that the journal holds its obligation; a
  -- refusal says which check failed, and has changed neither the journal nor the store.
  pub provide-Provides :
      (entry gate locked : Liveness) (cleanup : Cleanup) (journal : DisposableList Cleanup)
      (fibers : Fibers) (slot : ServiceSlot Payload) (edge : Edge) (state : ServiceState Payload)
      → IsTyped state
      → Provides entry gate locked cleanup journal fibers slot edge state
          (provide entry gate locked cleanup journal fibers slot edge state)
  unfolding provide
  provide-Provides entry gate locked cleanup journal fibers slot edge state w =
      elim (Bool-cases (can_register entry)) [
        | inr b ↦ rw b (rw b refl, refl, refl)
        | inl b ↦
            rw b
              (elim (push_gated-cases gate locked journal cleanup (publish_slot fibers slot edge)
                state) [
                  | inl (c, q) ↦ rw q (rw b c, refl, refl)
                  | inr (inl (c, p, q)) ↦
                      rw q (refused (install-refused fibers slot edge state w p))
                  | inr (inr (c, p, q)) ↦
                      rw q
                        (rw b c, installed (install fibers slot.fiber slot edge state) refl p, refl)
                ])
      ]
    where
      refused :
          ((install fibers slot.fiber slot edge state ≡ (err contract_mismatch, state))
              × (differs slot.contract (lookup edge.1 state.contracts) ≡ true))
            ⊎ ((install fibers slot.fiber slot edge state ≡ (err duplicate, state))
                × (taken fibers (lookup edge state.slots) ≡ true))
          → Provides entry gate locked cleanup journal fibers slot edge state (
              publish_answer edge.1
                (install fibers slot.fiber slot edge state).0
                (err publish_refused, journal, (install fibers slot.fiber slot edge state).1))
      refused (inl (e, d)) = rw e (d, refl, refl)
      refused (inr (e, t)) = rw e (t, refl, refl)

      installed :
          (r : Result (Option (ServiceSlot Payload) × List Edge) ServiceInstallRefusal
            × ServiceState Payload)
          → install fibers slot.fiber slot edge state ≡ r
          → is_ok r.0 ≡ true
          → Installed slot edge state (install fibers slot.fiber slot edge state).1
      installed (ok answer, s) e h =
          install-Installed fibers slot edge state answer (ap (λ r. r.0) e)
      installed (err x, s) e h = absurd (ground arith)
