-- ===== src/Core/Services/Contracts.antt =====
-- service.rs: the contract of a name, and the type of the values under it.
use mathlib.Core.Option
use cordis_rs.Base.{
  ℕ, ◌≡◌, refl, sym, ap, subst, ◌∙◌, inl, inr, true, false, Option, none, some, List, arith, String,
  String_eq, ℕ_eq, pair_eq, ◌==◌, beq_refl, beq_cases, Bool-cases, nat_eq, nat_eq_iff,
  if◌then◌else◌, lookup, remove, lookup-insert, lookup-remove, Result, ok, err,
}
use cordis_rs.Core.Services.{
  Fibers, Edge, Value, ServiceSlot, ServiceState, ServiceLookupError, unavailable, lookup_mismatch,
  admits, differs, visible, visible_slot, bind, taken, install, downcast, visible_value, set_exact,
  remove_exact, withdraw_exact,
}
use cordis_rs.Core.Services.Visibility.{exact-cases, lookup-place, bind-slots}

some_inj {ℓ} : {A : Type ℓ} (a b : A) → some a ≡ some b → a ≡ b
some_inj a b h = ap (λ o. Option.get_or o a) h

-- The changes of a store by its operations.
pub data ServiceOp (Payload : Type 0) : Type 0 where
  installs : ServiceSlot Payload → Edge → ServiceOp Payload
  sets : Edge → (occurrence owner : ℕ) → Value Payload → ServiceOp Payload
  removes : Edge → (occurrence owner : ℕ) → ServiceOp Payload
  withdraws : Edge → (occurrence : ℕ) → ServiceOp Payload

module _ {Payload : Type 0} where
  -- A slot has the contract of its name, and a value of that type.
  abbrev pub IsTypedSlot : List (String × ℕ) → Edge → ServiceSlot Payload → Type 0
  IsTypedSlot contracts edge slot =
      (lookup edge.1 contracts ≡ some slot.contract) × (slot.value.type_id ≡ slot.contract)

  abbrev pub IsTyped : ServiceState Payload → Type 0
  IsTyped state =
      (edge : Edge) (slot : ServiceSlot Payload)
      → lookup edge state.slots ≡ some slot
      → IsTypedSlot state.contracts edge slot

  pub apply_op : Fibers → ServiceOp Payload → ServiceState Payload → ServiceState Payload
  apply_op fibers (installs slot edge) state = (install fibers slot.fiber slot edge state).1
  apply_op fibers (sets edge occurrence owner value) state =
      (set_exact fibers edge occurrence owner value state).1
  apply_op fibers (removes edge occurrence owner) state =
      (remove_exact fibers edge occurrence owner state).1
  apply_op fibers (withdraws edge occurrence) state = withdraw_exact edge occurrence state

  -- The type parameter of `provide` and of a publication is the type of the value.
  abbrev pub Fits : ServiceOp Payload → ServiceState Payload → Type 0
  Fits (installs slot edge) state = slot.value.type_id ≡ slot.contract
  Fits (sets edge occurrence owner value) state =
      (slot : ServiceSlot Payload)
      → lookup edge state.slots ≡ some slot
      → slot.occurrence ≡ occurrence
      → value.type_id ≡ slot.contract
  Fits (removes edge occurrence owner) state = Unit
  Fits (withdraws edge occurrence) state = Unit

  pub bind-contract :
      (name : String) (contract : ℕ) (o : Option ℕ) (state : ServiceState Payload)
      → lookup name state.contracts ≡ o
      → differs contract o ≡ false
      → lookup name (bind name contract o state).contracts ≡ some contract
  bind-contract name contract none state e d =
      lookup-insert name name contract state.contracts ∙ rw (beq_refl name) refl
  bind-contract name contract (some bound) state e d =
      e ∙ ap some ((nat_eq_iff bound contract).0 (ground (arith, d)))

  bind-keeps :
      (name other : String) (contract kept : ℕ) (o : Option ℕ) (state : ServiceState Payload)
      → lookup name state.contracts ≡ o
      → lookup other state.contracts ≡ some kept
      → lookup other (bind name contract o state).contracts ≡ some kept
  bind-keeps name other contract kept none state e k =
      lookup-insert name other contract state.contracts ∙ elim (beq_cases name other) [
        | inl (b, q) ↦ absurd (ground (arith, subst (λ x. lookup x state.contracts ≡ none) q e, k))
        | inr (b, q) ↦ rw b k
      ]
  bind-keeps name other contract kept (some bound) state e k = k

  install-IsTyped :
      (fibers : Fibers) (slot : ServiceSlot Payload) (edge : Edge) (state : ServiceState Payload)
      → slot.value.type_id ≡ slot.contract
      → IsTyped state
      → IsTyped (install fibers slot.fiber slot edge state).1
  unfolding install
  install-IsTyped fibers slot edge state w h =
      let o : Option ℕ = lookup edge.1 state.contracts in
      let bound : ServiceState Payload = bind edge.1 slot.contract o state in
      let slots : bound.slots ≡ state.slots = bind-slots edge.1 slot.contract o state in
      let before : IsTyped bound = λ j s e.
        let t = h j s (subst (λ m. lookup j m ≡ some s) slots e) in
        (bind-keeps edge.1 j.1 slot.contract s.contract o state refl t.0, t.1) in
      elim (Bool-cases (differs slot.contract o)) [
        | inl d ↦ rw d h
        | inr d ↦ elim (Bool-cases (taken fibers (lookup edge bound.slots))) [
          | inl t ↦ rw (d, t) before
          | inr t ↦
              rw (d, t)
                (λ j s e.
                  placed bound before (bind-contract edge.1 slot.contract o state refl d) j s
                    (sym (lookup-place edge j slot bound.slots) ∙ e))
        ]
      ]
    where
      placed :
          (bound : ServiceState Payload)
          → IsTyped bound
          → lookup edge.1 bound.contracts ≡ some slot.contract
          → (j : Edge) (s : ServiceSlot Payload)
          → (if edge == j then some slot else lookup j bound.slots) ≡ some s
          → IsTypedSlot bound.contracts j s
      placed bound before c j s e = elim (beq_cases edge j) [
        | inl (b, q) ↦
            subst (IsTypedSlot bound.contracts j) (some_inj slot s (rw b at e))
              (subst (λ x. IsTypedSlot bound.contracts x slot) q (c, w))
        | inr (b, q) ↦ before j s (rw b at e)
      ]

  removed-IsTyped :
      (edge : Edge) (state : ServiceState Payload)
      → IsTyped state
      → IsTyped (record state { slots = remove edge state.slots })
  removed-IsTyped edge state h j s e = elim (beq_cases edge j) [
    | inl (b, q) ↦ absurd (ground (arith, e, lookup-remove edge j state.slots, b))
    | inr (b, q) ↦ h j s (sym (lookup-remove edge j state.slots ∙ rw b refl) ∙ e)
  ]

  set_exact-IsTyped :
      (fibers : Fibers) (edge : Edge) (occurrence owner : ℕ) (value : Value Payload)
      (state : ServiceState Payload)
      → Fits (sets edge occurrence owner value) state
      → IsTyped state
      → IsTyped (set_exact fibers edge occurrence owner value state).1
  unfolding set_exact
  set_exact-IsTyped fibers edge occurrence owner value state w h =
      elim (exact-cases occurrence (lookup edge state.slots)) [
        | inl e ↦ rw (e, set_exact) h
        | inr (slot, e, l, q) ↦ elim (Bool-cases (admits (lookup owner fibers))) [
          | inr a ↦ rw (e, set_exact, a) h
          | inl a ↦
              rw (e, set_exact, a)
                (λ j s k.
                  replaced slot l (w slot l q) j s
                    (sym (lookup-insert edge j (record slot { value = value }) state.slots) ∙ k))
        ]
      ]
    where
      replaced :
          (slot : ServiceSlot Payload)
          → lookup edge state.slots ≡ some slot
          → value.type_id ≡ slot.contract
          → (j : Edge) (s : ServiceSlot Payload)
          → (if edge == j then some (record slot { value = value }) else lookup j state.slots)
            ≡ some s
          → IsTypedSlot state.contracts j s
      replaced slot l t j s k = elim (beq_cases edge j) [
        | inl (b, q) ↦
            subst (IsTypedSlot state.contracts j)
              (some_inj (record slot { value = value }) s (rw b at k))
              (subst (λ x. IsTypedSlot state.contracts x (record slot { value = value })) q
                ((h edge slot l).0, t))
        | inr (b, q) ↦ h j s (rw b at k)
      ]

  remove_exact-IsTyped :
      (fibers : Fibers) (edge : Edge) (occurrence owner : ℕ) (state : ServiceState Payload)
      → IsTyped state
      → IsTyped (remove_exact fibers edge occurrence owner state).1
  unfolding remove_exact
  remove_exact-IsTyped fibers edge occurrence owner state h =
      elim (exact-cases occurrence (lookup edge state.slots)) [
        | inl e ↦ rw (e, remove_exact) h
        | inr (slot, e, l, q) ↦ elim (Bool-cases (admits (lookup owner fibers))) [
          | inr a ↦ rw (e, remove_exact, a) h
          | inl a ↦ rw (e, remove_exact, a) (removed-IsTyped edge state h)
        ]
      ]

  withdraw_exact-IsTyped :
      (edge : Edge) (occurrence : ℕ) (state : ServiceState Payload)
      → IsTyped state
      → IsTyped (withdraw_exact edge occurrence state)
  unfolding withdraw_exact
  withdraw_exact-IsTyped edge occurrence state h =
      elim (exact-cases occurrence (lookup edge state.slots)) [
        | inl e ↦ rw (e, withdraw_exact) h
        | inr (slot, e, l, q) ↦ rw (e, withdraw_exact) (removed-IsTyped edge state h)
      ]

  -- Every operation whose value has the type that its handle names keeps every slot under the
  -- contract of its name, with a value of that type.
  pub apply_op-IsTyped :
      (fibers : Fibers) (op : ServiceOp Payload) (state : ServiceState Payload)
      → Fits op state
      → IsTyped state
      → IsTyped (apply_op fibers op state)
  unfolding apply_op
  apply_op-IsTyped fibers (installs slot edge) state w h =
      install-IsTyped fibers slot edge state w h
  apply_op-IsTyped fibers (sets edge occurrence owner value) state w h =
      set_exact-IsTyped fibers edge occurrence owner value state w h
  apply_op-IsTyped fibers (removes edge occurrence owner) state w h =
      remove_exact-IsTyped fibers edge occurrence owner state h
  apply_op-IsTyped fibers (withdraws edge occurrence) state w h =
      withdraw_exact-IsTyped edge occurrence state h

  -- The answer of a lookup whose downcast cannot fail.
  abbrev pub Found :
      String → Option (ServiceSlot Payload) → Result (Value Payload) ServiceLookupError
  Found name none = err (unavailable name)
  Found name (some slot) = ok slot.value

  -- In such a store the downcast of a lookup never fails: a lookup is refused for its contract when
  -- the name is bound to another, and otherwise answers the value of the visible slot, or that there
  -- is none.
  pub visible_value-Found :
      (fibers : Fibers) (type_id : ℕ) (edge : Edge) (state : ServiceState Payload)
      → IsTyped state
      → visible_value fibers type_id edge state ≡ (
          if differs type_id (lookup edge.1 state.contracts)
          then err (lookup_mismatch edge.1)
          else Found edge.1 (visible_slot fibers (lookup edge state.slots)))
  unfolding visible_value
  visible_value-Found fibers type_id edge state h =
      elim (Bool-cases (differs type_id (lookup edge.1 state.contracts))) [
        | inl d ↦ rw d refl
        | inr d ↦ rw d (cast (lookup edge state.slots) refl d)
      ]
    where
      cast :
          (o : Option (ServiceSlot Payload))
          → lookup edge state.slots ≡ o
          → differs type_id (lookup edge.1 state.contracts) ≡ false
          → downcast edge.1 type_id (visible_slot fibers o) ≡ Found edge.1 (visible_slot fibers o)
      cast none e d = refl
      cast (some slot) e d = elim (Bool-cases (visible fibers slot)) [
        | inr b ↦ rw b refl
        | inl b ↦
            let typed = h edge slot e in
            let same : nat_eq slot.contract type_id ≡ true = ground (arith, rw (typed.0) at d) in
            rw (b, typed.1, same) refl
      ]
