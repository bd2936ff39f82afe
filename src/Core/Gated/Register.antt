-- ===== src/Core/Gated/Register.antt =====
-- events/dispatch.rs, `register_listener`, with `HookPublish` of store.rs: a listener goes into the
-- Event store and its cleanup into the journal of the Fiber, or nothing happens.
use cordis_rs.Base.{
  ℕ, ◌≡◌, refl, ap, inl, inr, Bool, true, false, ◌&&◌, some, String, String_eq, ℕ_eq, lookup, arith,
  Result, ok, err,
}
use cordis_rs.Core.Events.{Event, Hook, EventState, add_reserved}
use cordis_rs.Core.Events.Claim.{find}
use cordis_rs.Core.Events.Preflight.{conflicts}
use cordis_rs.Core.Events.Publish.{Publishes, add_reserved-Publishes}
use cordis_rs.Core.Gated.Journal.{push_gated-cases}
use cordis_rs.Core.Gated.{
  Liveness, DisposableList, GatedPublishError, inactive_context, publish_refused, can_register,
  push, push_gated,
}

pub data ListenerRegistrationError : Type 0 where
  inactive : ListenerRegistrationError
  contract_mismatch : (event : String) → ListenerRegistrationError

module _ {Callback Cleanup : Type 0} where
  -- The mapping of a refusal: the one publication here refuses for its contract alone.
  abbrev pub registration_error :
      String
      → Result ℕ GatedPublishError × DisposableList Cleanup × EventState Callback
      → Result ℕ ListenerRegistrationError × DisposableList Cleanup × EventState Callback
  registration_error event (ok token, journal, events) = (ok token, journal, events)
  registration_error event (err inactive_context, journal, events) = (err inactive, journal, events)
  registration_error event (err publish_refused, journal, events) =
      (err (contract_mismatch event), journal, events)

  -- `register_listener`, from its gated push on
  pub register_listener :
      Event
      → Hook Callback
      → Liveness
      → Liveness
      → Cleanup
      → DisposableList Cleanup
      → EventState Callback
      → Result ℕ ListenerRegistrationError × DisposableList Cleanup × EventState Callback
  register_listener e hook gate locked cleanup journal events =
      registration_error e.name
        (push_gated gate locked journal cleanup (add_reserved e hook) events)

  -- What each answer of a registration means.
  abbrev pub Registers :
      Event
      → Hook Callback
      → Liveness
      → Liveness
      → Cleanup
      → DisposableList Cleanup
      → EventState Callback
      → Result ℕ ListenerRegistrationError × DisposableList Cleanup × EventState Callback
      → Type 0
  Registers e hook gate locked cleanup journal events (ok token, journal', events') =
      ((can_register gate && can_register locked) ≡ true)
      × (conflicts e.contract (lookup e.name events.contracts) ≡ false)
      × (find e.name hook.id events' ≡ some hook)
      × ((token, journal') ≡ push journal cleanup)
  Registers e hook gate locked cleanup journal events (err inactive, journal', events') =
      ((can_register gate && can_register locked) ≡ false)
      × (journal' ≡ journal)
      × (events' ≡ events)
  Registers e hook gate locked cleanup journal events
        (err (contract_mismatch name), journal', events') =
      (conflicts e.contract (lookup e.name events.contracts) ≡ true)
      × (journal' ≡ journal)
      × (events' ≡ events)

  -- A registration is one step: an answer with a token says that both liveness checks passed, that
  -- the contract agreed, that the listener is live and that the journal holds its obligation; a
  -- refusal says which check failed, and has changed neither the journal nor the Event store.
  pub register_listener-Registers :
      (e : Event) (hook : Hook Callback) (gate locked : Liveness) (cleanup : Cleanup)
      (journal : DisposableList Cleanup) (events : EventState Callback)
      → Registers e hook gate locked cleanup journal events
          (register_listener e hook gate locked cleanup journal events)
  unfolding register_listener
  register_listener-Registers e hook gate locked cleanup journal events =
      elim (push_gated-cases gate locked journal cleanup (add_reserved e hook) events) [
        | inl (b, q) ↦ rw q (b, refl, refl)
        | inr (inl (b, p, q)) ↦ rw q (
            refusal (conflicts e.contract (lookup e.name events.contracts)) refl
              (add_reserved-Publishes e hook events) p)
        | inr (inr (b, p, q)) ↦ rw q (
            success (conflicts e.contract (lookup e.name events.contracts)) refl b
              (add_reserved-Publishes e hook events) p)
      ]
    where
      refusal :
          (c : Bool)
          → conflicts e.contract (lookup e.name events.contracts) ≡ c
          → Publishes e hook events c
          → (add_reserved e hook events).0 ≡ false
          → (conflicts e.contract (lookup e.name events.contracts) ≡ true)
            × (journal ≡ journal)
            × ((add_reserved e hook events).1 ≡ events)
      refusal true k h p = (k, refl, ap (λ r. r.1) h)
      refusal false k (h, f) p = absurd (ground (arith, h, p))

      success :
          (c : Bool)
          → conflicts e.contract (lookup e.name events.contracts) ≡ c
          → (can_register gate && can_register locked) ≡ true
          → Publishes e hook events c
          → (add_reserved e hook events).0 ≡ true
          → ((can_register gate && can_register locked) ≡ true)
            × (conflicts e.contract (lookup e.name events.contracts) ≡ false)
            × (find e.name hook.id (add_reserved e hook events).1 ≡ some hook)
            × (((push journal cleanup).0, (push journal cleanup).1) ≡ push journal cleanup)
      success true k b h p = absurd (ground (arith, ap (λ r. r.0) h, p))
      success false k b (h, f) p = (b, k, f, refl)
