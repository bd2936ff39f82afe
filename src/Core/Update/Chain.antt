-- ===== src/Core/Update/Chain.antt =====
-- update.rs, `control` and `run_chain`: who can veto an update, and what a failure names.
use cordis_rs.Base.{
  ℕ, ◌≡◌, ◌≢◌, ◌∙◌, subst, refl, sym, inl, inr, Bool, true, false, Option, none, some, List, [],
  ◌∷◌, Bool-cases, Result, ok, err, Result-split, All,
}
use mathlib.Core.Option.{none-ne-some}
use cordis_rs.Core.Events.Dispatch.{InvocationFailure, correlate}
use cordis_rs.Core.Events.Blame.{
  IsNamed, correlate-IsNamed, correlate_named, Stops, Stops-here, Stops-later,
}
use cordis_rs.Core.Update.{
  UpdateKind, mapper, around, UpdateSnap, Control, Controlled, Policies, claim_policy, snapshot,
  correlate_result, run_chain, delivered, control,
}

abbrev pub IsMapper : {Callback : Type 0} → UpdateKind Callback → Type 0
IsMapper (mapper callback) = Unit
IsMapper (around callback) = ⊥

kind-cases :
    {Callback : Type 0} (kind : UpdateKind Callback)
    → IsMapper kind
    → (callback : Callback) × (kind ≡ mapper callback)
kind-cases (mapper callback) h = (callback, refl)
kind-cases (around callback) h = absurd h

module _ {Callback Change Rest : Type 0} (policies : Policies Callback Change Rest) where
  -- A chain of mappers either reached its end or failed.
  abbrev Ends : Controlled Callback Change Rest → Type 0
  Ends (ok change, w) = w.reached ≡ true
  Ends (err failure, w) = Unit

  correlate_result-Ends :
      (id : ℕ) (r : Controlled Callback Change Rest)
      → Ends r
      → Ends (correlate_result policies id r)
  correlate_result-Ends id (ok change, w) e = e
  correlate_result-Ends id (err failure, w) e = tt

  run_chain-Ends :
      (contract : ℕ) (hooks : List (UpdateSnap Callback)) (change : Change)
      (w : Control Callback Rest)
      → All (λ h. IsMapper h.kind) hooks
      → Ends (run_chain policies contract hooks change w)
  unfolding run_chain
  run_chain-Ends contract [] change w m = refl
  run_chain-Ends contract (hook ∷ hooks) change w m =
      let claimed = claim_policy contract hook.id w.policies in
      let w1 : Control Callback Rest = record w { policies = claimed.1 } in
      elim (Bool-cases claimed.0) [
        | inr b ↦ rw (b, run_chain) (run_chain-Ends contract hooks change w1 m.1)
        | inl b ↦
            let (callback, k) = kind-cases hook.kind m.0 in
            elim (Result-split (policies.invoke_mapper callback change w1).0) [
              | inl (mapped, i) ↦
                  rw (b, run_chain, k, i)
                    (correlate_result-Ends hook.id _ (
                      run_chain-Ends contract hooks mapped
                        (policies.invoke_mapper callback change w1).1 m.1))
              | inr (failure, i) ↦ rw (b, run_chain, k, i) tt
            ]
      ]

  abbrev pub IsDelivered : Result (Option Change) InvocationFailure → Type 0
  IsDelivered (ok output) = output ≢ none
  IsDelivered (err failure) = Unit

  delivered-IsDelivered :
      (r : Controlled Callback Change Rest) → Ends r → IsDelivered (delivered policies r).0
  delivered-IsDelivered (ok change, w) e = λ h. none-ne-some change (sym (rw e at h))
  delivered-IsDelivered (err failure, w) e = tt

  -- When every selected policy is a Mapper, an update is accepted or fails: only an Around policy
  -- can veto it.
  pub control-IsDelivered :
      (contract : ℕ) (target : List ℕ) (change : Change) (w : Control Callback Rest)
      → All (λ h. IsMapper h.kind) (snapshot contract target w.policies)
      → IsDelivered (control policies contract target change w).0
  unfolding control
  control-IsDelivered contract target change w m =
      delivered-IsDelivered _
        (run_chain-Ends contract (snapshot contract target w.policies) change _ m)

module _ {Callback Change Rest : Type 0} (policies : Policies Callback Change Rest)
    (contract : ℕ) where
  abbrev pub State : Type 0
  State = Change × Control Callback Rest

  -- The claim of a policy, and the Runtime behind it.
  abbrev pub claimed_by : UpdateSnap Callback → Control Callback Rest → Bool × Control Callback Rest
  claimed_by hook w =
      let (claimed, state) = claim_policy contract hook.id w.policies in
      (claimed, record w { policies = state })

  -- The change and the Runtime behind a policy that is gone or maps.
  abbrev pub passes : UpdateSnap Callback → State → Option State
  passes hook (change, w) =
      let (claimed, w1) = claimed_by hook w in
      elim claimed [
        | false ↦ some (change, w1)
        | true ↦ elim hook.kind [
          | around callback ↦ none
          | mapper callback ↦
              let (result, w2) = policies.invoke_mapper callback change w1 in
              elim result [ ok mapped ↦ some (mapped, w2) | err failure ↦ none ]
        ]
      ]

  -- A callback that answers a failure. An Around's continuation is the rest of the chain.
  abbrev pub Raises :
      UpdateKind Callback
      → List (UpdateSnap Callback)
      → Change
      → Control Callback Rest
      → InvocationFailure
      → Type 0
  Raises (mapper callback) after change w raw =
      (policies.invoke_mapper callback change w).0 ≡ err raw
  Raises (around callback) after change w raw =
      (policies.invoke_around callback change (λ c. λ x. run_chain policies contract after c x) w).0
      ≡ err raw

  -- A policy that is claimed and fails.
  pub record Fails (failure : InvocationFailure) (hook : UpdateSnap Callback)
      (after : List (UpdateSnap Callback)) (s : State) : Type 0 where
    pub raw : InvocationFailure
    pub claimed : (claimed_by hook s.1).0 ≡ true
    pub raised : Raises hook.kind after s.0 (claimed_by hook s.1).1 raw
    pub named : IsNamed failure raw hook.id

  -- What a chain's answer says: a failure is that of the first policy that does not pass.
  abbrev pub Blames : List (UpdateSnap Callback) → State → Result Change InvocationFailure → Type 0
  Blames hooks s (ok change) = Unit
  Blames hooks s (err failure) = Stops passes (Fails failure) hooks s

  later-Blames :
      (hook : UpdateSnap Callback) (hooks : List (UpdateSnap Callback)) (s t : State)
      (r : Result Change InvocationFailure)
      → passes hook s ≡ some t
      → Blames hooks t r
      → Blames (hook ∷ hooks) s r
  later-Blames hook hooks s t (ok change) e h = tt
  later-Blames hook hooks s t (err failure) e h =
      Stops-later passes (Fails failure) hook hooks s t e h

  -- A failure of a later policy keeps its name.
  kept-Blames :
      (id : ℕ) (hooks : List (UpdateSnap Callback)) (s : State)
      (r : Controlled Callback Change Rest)
      → Blames hooks s r.0
      → Blames hooks s (correlate_result policies id r).0
  kept-Blames id hooks s (ok change, w) h = tt
  kept-Blames id hooks s (err failure, w) h =
      subst (λ f. Blames hooks s (err f)) (sym (correlate_named failure id _ h.fails.named.2)) h

  raised-Blames :
      (hook : UpdateSnap Callback) (hooks : List (UpdateSnap Callback)) (s : State)
      (r : Controlled Callback Change Rest)
      → (claimed_by hook s.1).0 ≡ true
      → ((raw : InvocationFailure)
          → r.0 ≡ err raw
          → Raises hook.kind hooks s.0 (claimed_by hook s.1).1 raw)
      → Blames (hook ∷ hooks) s (correlate_result policies hook.id r).0
  raised-Blames hook hooks s (ok change, w) b h = tt
  raised-Blames hook hooks s (err raw, w) b h =
      Stops-here passes (Fails (correlate raw hook.id)) hook hooks s (record {
        raw = raw;
        claimed = b;
        raised = h raw refl;
        named = correlate-IsNamed raw hook.id;
      })

  turn-Blames :
      (id : ℕ) (kind : UpdateKind Callback) (hooks : List (UpdateSnap Callback)) (change : Change)
      (w : Control Callback Rest)
      → ((c : Change) (x : Control Callback Rest)
          → Blames hooks (c, x) (run_chain policies contract hooks c x).0)
      → Blames
          (record { id = id; kind = kind } ∷ hooks)
          (change, w)
          (run_chain policies contract (record { id = id; kind = kind } ∷ hooks) change w).0
  unfolding run_chain
  turn-Blames id (mapper callback) hooks change w ih =
      let hook : UpdateSnap Callback = record { id = id; kind = mapper callback } in
      let w1 = (claimed_by hook w).1 in
      elim (Bool-cases (claimed_by hook w).0) [
        | inr b ↦
            rw (b, run_chain)
              (later-Blames hook hooks (change, w) (change, w1) _ (rw (b, passes) refl)
                (ih change w1))
        | inl b ↦ elim (Result-split (policies.invoke_mapper callback change w1).0) [
          | inl (next, i) ↦
              rw (b, run_chain, i)
                (kept-Blames id (hook ∷ hooks) (change, w) _
                  (later-Blames hook hooks (change, w)
                    (next, (policies.invoke_mapper callback change w1).1) _ (rw (b, passes, i) refl)
                    (ih next (policies.invoke_mapper callback change w1).1)))
          | inr (raw, i) ↦
              rw (b, run_chain, i)
                (raised-Blames hook hooks (change, w)
                  (err raw, (policies.invoke_mapper callback change w1).1) b (λ other q. i ∙ q))
        ]
      ]
  turn-Blames id (around callback) hooks change w ih =
      let hook : UpdateSnap Callback = record { id = id; kind = around callback } in
      let w1 = (claimed_by hook w).1 in
      elim (Bool-cases (claimed_by hook w).0) [
        | inr b ↦
            rw (b, run_chain)
              (later-Blames hook hooks (change, w) (change, w1) _ (rw (b, passes) refl)
                (ih change w1))
        | inl b ↦
            rw (b, run_chain)
              (raised-Blames hook hooks (change, w)
                (policies.invoke_around callback change
                  (λ c. λ x. run_chain policies contract hooks c x) w1)
                b (λ raw q. q))
      ]

  run_chain-Blames :
      (hooks : List (UpdateSnap Callback)) (change : Change) (w : Control Callback Rest)
      → Blames hooks (change, w) (run_chain policies contract hooks change w).0
  unfolding run_chain
  run_chain-Blames [] change w = tt
  run_chain-Blames (hook ∷ hooks) change w =
      turn-Blames hook.id hook.kind hooks change w (run_chain-Blames hooks)

  abbrev pub FailureNamed :
      List (UpdateSnap Callback) → State → Result (Option Change) InvocationFailure → Type 0
  FailureNamed hooks s (ok output) = Unit
  FailureNamed hooks s (err failure) = Stops passes (Fails failure) hooks s

  delivered-FailureNamed :
      (hooks : List (UpdateSnap Callback)) (s : State) (r : Controlled Callback Change Rest)
      → Blames hooks s r.0
      → FailureNamed hooks s (delivered policies r).0
  delivered-FailureNamed hooks s (ok change, w) n = tt
  delivered-FailureNamed hooks s (err failure, w) n = n

  -- A failed update reports the failure of one of the selected policies, which was claimed: each one
  -- before it was gone or mapped the change for the next. The report names that policy's
  -- occurrence, unless its callback answered a failure that names another.
  pub control-FailureNamed :
      (target : List ℕ) (change : Change) (w : Control Callback Rest)
      → FailureNamed
          (snapshot contract target w.policies)
          (change, record w { reached = false })
          (control policies contract target change w).0
  unfolding control
  control-FailureNamed target change w =
      delivered-FailureNamed (snapshot contract target w.policies)
        (change, record w { reached = false }) _
        (run_chain-Blames (snapshot contract target w.policies) change _)
