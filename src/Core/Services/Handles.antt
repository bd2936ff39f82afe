-- ===== src/Core/Services/Handles.antt =====
-- service.rs: what the handle of a publication controls.
use cordis_rs.Base.{
  ℕ, ◌≡◌, ◌≢◌, refl, ap, ◌∙◌, inl, inr, Bool, true, false, Option, none, some, List, [], ◌∷◌, arith,
  String, String_eq, ℕ_eq, pair_eq, ◌==◌, beq_refl, beq_of_ne, Bool-cases, nat_eq_iff,
  if◌then◌else◌, lookup, remove, lookup-remove, Result, ok, err,
}
use cordis_rs.Core.Services.{
  Fibers, Edge, Value, ServiceSlot, ServiceState, ServiceLookupError, unavailable,
  stale_publication, acts, admits, drift_if, differs, visible, bind, taken, install, visible_value,
  exact, set_exact, remove_exact, withdraw_exact,
}
use cordis_rs.Core.Services.Visibility.{lookup-place, bind-slots}
use cordis_rs.Core.Services.Contracts.{bind-contract}

module _ {Payload : Type 0} where
  -- What an accepted installation has changed: the slot of its edge, and the contract of its name.
  abbrev pub Installed :
      ServiceSlot Payload → Edge → ServiceState Payload → ServiceState Payload → Type 0
  Installed slot edge state state' =
      (lookup edge.1 state'.contracts ≡ some slot.contract)
      × ((j : Edge)
          → lookup j state'.slots ≡ (if edge == j then some slot else lookup j state.slots))

  pub install-Installed :
      (fibers : Fibers) (slot : ServiceSlot Payload) (edge : Edge) (state : ServiceState Payload)
      (answer : Option (ServiceSlot Payload) × List Edge)
      → (install fibers slot.fiber slot edge state).0 ≡ ok answer
      → Installed slot edge state (install fibers slot.fiber slot edge state).1
  unfolding install
  install-Installed fibers slot edge state answer h =
      let o : Option ℕ = lookup edge.1 state.contracts in
      let bound : ServiceState Payload = bind edge.1 slot.contract o state in
      elim (Bool-cases (differs slot.contract o)) [
        | inl d ↦ absurd (ground (arith, rw d at h))
        | inr d ↦ elim (Bool-cases (taken fibers (lookup edge bound.slots))) [
          | inl t ↦ absurd (ground (arith, rw (d, t) at h))
          | inr t ↦
              rw (d, t)
                (
                  bind-contract edge.1 slot.contract o state refl d,
                  λ j.
                      lookup-place edge j slot bound.slots
                      ∙ ap (λ m. if edge == j then some slot else lookup j m)
                          (bind-slots edge.1 slot.contract o state),
                )
        ]
      ]

  -- The slot of an edge is the one installed there last.
  Installed-here :
      (slot : ServiceSlot Payload) (edge : Edge) (state state' : ServiceState Payload)
      → Installed slot edge state state'
      → lookup edge state'.slots ≡ some slot
  Installed-here slot edge state state' h = h.1 edge ∙ rw (beq_refl edge) refl

  abbrev pub Answers : Bool → String → Value Payload → Result (Value Payload) ServiceLookupError
  Answers true name value = ok value
  Answers false name value = err (unavailable name)

  visible_value-here :
      (fibers : Fibers) (slot : ServiceSlot Payload) (edge : Edge) (state : ServiceState Payload)
      → lookup edge.1 state.contracts ≡ some slot.contract
      → lookup edge state.slots ≡ some slot
      → slot.value.type_id ≡ slot.contract
      → visible_value fibers slot.contract edge state
        ≡ Answers (visible fibers slot) edge.1 slot.value
  unfolding visible_value
  visible_value-here fibers slot edge state c l t = elim (Bool-cases (visible fibers slot)) [
    | inl b ↦
        rw
          (
            c,
            l,
            b,
            (nat_eq_iff slot.contract slot.contract).1 refl,
            (nat_eq_iff slot.value.type_id slot.contract).1 t,
          )
          refl
    | inr b ↦ rw (c, l, b, (nat_eq_iff slot.contract slot.contract).1 refl) refl
  ]

  remove_exact-here :
      (fibers : Fibers) (slot : ServiceSlot Payload) (edge : Edge) (state : ServiceState Payload)
      → lookup edge state.slots ≡ some slot
      → admits (lookup slot.fiber fibers) ≡ true
      → remove_exact fibers edge slot.occurrence slot.fiber state ≡ (
        ok (slot, drift_if (acts (lookup slot.fiber fibers)) (edge ∷ [])),
        record state { slots = remove edge state.slots },
      )
  unfolding remove_exact
  remove_exact-here fibers slot edge state l a =
      rw (l, remove_exact, (nat_eq_iff slot.occurrence slot.occurrence).1 refl, a) refl

  -- A Service that was published with a value of its type: a lookup with that type answers the value
  -- exactly while the owner shows, and the removal by its handle, while the owner is open, gives the
  -- slot back and leaves every edge the slot that it had before, its own none.
  pub install-roundtrip :
      (fibers : Fibers) (slot : ServiceSlot Payload) (edge : Edge) (state : ServiceState Payload)
      (answer : Option (ServiceSlot Payload) × List Edge)
      → (install fibers slot.fiber slot edge state).0 ≡ ok answer
      → slot.value.type_id ≡ slot.contract
      → admits (lookup slot.fiber fibers) ≡ true
      → (visible_value fibers slot.contract edge (install fibers slot.fiber slot edge state).1
          ≡ Answers (visible fibers slot) edge.1 slot.value)
        × ((remove_exact fibers edge slot.occurrence slot.fiber
              (install fibers slot.fiber slot edge state).1).0
            ≡ ok (slot, drift_if (acts (lookup slot.fiber fibers)) (edge ∷ [])))
        × ((j : Edge)
            → lookup j
                (remove_exact fibers edge slot.occurrence slot.fiber
                  (install fibers slot.fiber slot edge state).1).1.slots
              ≡ (if edge == j then none else lookup j state.slots))
  install-roundtrip fibers slot edge state answer h t a =
      back (install fibers slot.fiber slot edge state).1
        (install-Installed fibers slot edge state answer h)
    where
      back :
          (state' : ServiceState Payload)
          → Installed slot edge state state'
          → (visible_value fibers slot.contract edge state'
              ≡ Answers (visible fibers slot) edge.1 slot.value)
            × ((remove_exact fibers edge slot.occurrence slot.fiber state').0
                ≡ ok (slot, drift_if (acts (lookup slot.fiber fibers)) (edge ∷ [])))
            × ((j : Edge)
                → lookup j (remove_exact fibers edge slot.occurrence slot.fiber state').1.slots
                  ≡ (if edge == j then none else lookup j state.slots))
      back state' i =
          let removed =
            remove_exact-here fibers slot edge state' (Installed-here slot edge state state' i) a in
          (
            visible_value-here fibers slot edge state' i.0 (Installed-here slot edge state state' i)
                t,
            ap (λ r. r.0) removed,
            λ j.
                ap (λ r. lookup j r.1.slots) removed
                ∙ lookup-remove edge j state'.slots
                ∙ elim (Bool-cases (edge == j)) [
                  | inl b ↦ rw b refl
                  | inr b ↦ rw b (i.1 j ∙ rw b refl)
                ],
          )

  inert :
      (fibers : Fibers) (edge : Edge) (occurrence owner : ℕ) (value : Value Payload)
      (state : ServiceState Payload)
      → exact occurrence (lookup edge state.slots) ≡ none
      → (set_exact fibers edge occurrence owner value state
          ≡ (err (stale_publication edge.1), state))
        × (remove_exact fibers edge occurrence owner state
            ≡ (err (stale_publication edge.1), state))
        × (withdraw_exact edge occurrence state ≡ state)
  unfolding set_exact remove_exact withdraw_exact
  inert fibers edge occurrence owner value state e =
      (rw (e, set_exact) refl, rw (e, remove_exact) refl, rw (e, withdraw_exact) refl)

  -- Once another occurrence is published at its edge, a stale handle controls nothing: its set and
  -- its remove are refused as stale, its withdrawal does nothing, and the store is unchanged.
  install-stale :
      (fibers : Fibers) (slot : ServiceSlot Payload) (edge : Edge) (state : ServiceState Payload)
      (answer : Option (ServiceSlot Payload) × List Edge) (occurrence owner : ℕ)
      (value : Value Payload)
      → (install fibers slot.fiber slot edge state).0 ≡ ok answer
      → slot.occurrence ≢ occurrence
      → (set_exact fibers edge occurrence owner value (install fibers slot.fiber slot edge state).1
          ≡ (err (stale_publication edge.1), (install fibers slot.fiber slot edge state).1))
        × (remove_exact fibers edge occurrence owner (install fibers slot.fiber slot edge state).1
            ≡ (err (stale_publication edge.1), (install fibers slot.fiber slot edge state).1))
        × (withdraw_exact edge occurrence (install fibers slot.fiber slot edge state).1
            ≡ (install fibers slot.fiber slot edge state).1)
  install-stale fibers slot edge state answer occurrence owner value h n =
      let state' : ServiceState Payload = (install fibers slot.fiber slot edge state).1 in
      inert fibers edge occurrence owner value state' (
        other (lookup edge state'.slots) (
          Installed-here slot edge state state'
            (install-Installed fibers slot edge state answer h)))
    where
      other : (o : Option (ServiceSlot Payload)) → o ≡ some slot → exact occurrence o ≡ none
      other o e = rw (e, beq_of_ne slot.occurrence occurrence n) refl
