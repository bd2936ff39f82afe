-- ===== src/Core/Services.antt =====
-- crates/cordis-core/src/service.rs, `ServiceStore` and `ServicePublication`: the Service slots of a
-- Runtime, keyed by realm and name. An occurrence identity is the address of its `Arc`, a `TypeId` a
-- number, and a value carries the number of its type. A `Weak<Fiber>` is the identity of the Fiber,
-- and upgrades as long as the Fibers of the Runtime have it.
pub mod Visibility
pub mod Contracts
pub mod Handles
pub mod Provide
use cordis_rs.Base.{
  ℕ, Bool, true, false, not, ◌&&◌, Option, none, some, List, [], ◌∷◌, String, String_eq, ℕ_eq,
  pair_eq, nat_eq, if◌then◌else◌, lookup, insert, remove, map, filter, Result, ok, err, ◌==◌,
}
use cordis_rs.Core.Gated.{
  FiberState, active, Liveness, can_register, pending, loading, unloading, failed, disposed,
}

abbrev pub Fibers : Type 0
Fibers = List (ℕ × Liveness)

abbrev pub Edge : Type 0
Edge = ℕ × String

pub record Value (Payload : Type 0) : Type 0 where
  pub type_id : ℕ
  pub payload : Payload

pub record ServiceSlot (Payload : Type 0) : Type 0 where
  pub occurrence : ℕ
  pub value : Value Payload
  pub contract : ℕ
  pub fiber : ℕ

pub record ServiceState (Payload : Type 0) : Type 0 where
  pub contracts : List (String × ℕ)
  pub slots : List (Edge × ServiceSlot Payload)

pub data ServiceInstallRefusal : Type 0 where
  duplicate contract_mismatch : ServiceInstallRefusal

pub data ServiceLookupError : Type 0 where
  unavailable lookup_mismatch : (service : String) → ServiceLookupError

pub data ServiceControlError : Type 0 where
  stale_publication mutation_closed : (service : String) → ServiceControlError

abbrev pub is_active : FiberState → Bool
is_active active = true
is_active _ = false

-- What a slot sees through its `Weak<Fiber>`.
abbrev pub is_alive : Option Liveness → Bool
is_alive none = false
is_alive (some fiber) = fiber.alive

abbrev pub shows : Option Liveness → Bool
shows none = false
shows (some fiber) = fiber.alive && is_active fiber.state

abbrev pub acts : Option Liveness → Bool
acts none = false
acts (some fiber) = is_active fiber.state

abbrev pub admits : Option Liveness → Bool
admits none = false
admits (some fiber) = can_register fiber

-- The edges whose dependents a commit rechecks, where it commits a drift.
abbrev pub drift_if : Bool → List Edge → List Edge
drift_if true edges = edges
drift_if false edges = []

abbrev pub differs : ℕ → Option ℕ → Bool
differs contract none = false
differs contract (some bound) = not (nat_eq bound contract)

abbrev pub set_state : ℕ → FiberState → Option Liveness → Fibers → Fibers
set_state fiber next none fibers = fibers
set_state fiber next (some liveness) fibers = insert fiber (record liveness { state = next }) fibers

module _ {Payload : Type 0} where
  abbrev pub visible : Fibers → ServiceSlot Payload → Bool
  visible fibers slot = shows (lookup slot.fiber fibers)

  abbrev pub visible_slot : Fibers → Option (ServiceSlot Payload) → Option (ServiceSlot Payload)
  visible_slot fibers none = none
  visible_slot fibers (some slot) = if visible fibers slot then some slot else none

  abbrev pub occurrence_of : Option (ServiceSlot Payload) → Option ℕ
  occurrence_of none = none
  occurrence_of (some slot) = some slot.occurrence

  -- `occurrence_id`
  pub occurrence_id : Fibers → Edge → ServiceState Payload → Option ℕ
  occurrence_id fibers edge state = occurrence_of (visible_slot fibers (lookup edge state.slots))

  abbrev pub bind : String → ℕ → Option ℕ → ServiceState Payload → ServiceState Payload
  bind name contract none state = record state { contracts = insert name contract state.contracts }
  bind name contract (some bound) state = state

  abbrev pub taken : Fibers → Option (ServiceSlot Payload) → Bool
  taken fibers none = false
  taken fibers (some existing) = is_alive (lookup existing.fiber fibers)

  -- `install`: the slot evicted and the drift committed, or the refusal; and the state behind it.
  unfoldable pub install :
      Fibers
      → (owner : ℕ) → ServiceSlot Payload
      → Edge
      → ServiceState Payload
      → Result (Option (ServiceSlot Payload) × List Edge) ServiceInstallRefusal
        × ServiceState Payload
  install fibers owner slot edge state =
      if differs slot.contract (lookup edge.1 state.contracts)
      then (err contract_mismatch, state)
      else let bound = bind edge.1 slot.contract (lookup edge.1 state.contracts) state in
        if taken fibers (lookup edge bound.slots) then (err duplicate, bound) else (
          ok (lookup edge bound.slots, drift_if (acts (lookup owner fibers)) (edge ∷ [])),
          record bound { slots = insert edge slot (remove edge bound.slots) },
        )

  abbrev pub downcast :
      String → ℕ → Option (ServiceSlot Payload) → Result (Value Payload) ServiceLookupError
  downcast name type_id none = err (unavailable name)
  downcast name type_id (some slot) =
      if nat_eq slot.value.type_id type_id then ok slot.value else err (lookup_mismatch name)

  -- `visible_value`, for a Service with this type
  pub visible_value :
      Fibers
      → (type_id : ℕ) → Edge
      → ServiceState Payload
      → Result (Value Payload) ServiceLookupError
  visible_value fibers type_id edge state =
      if differs type_id (lookup edge.1 state.contracts)
      then err (lookup_mismatch edge.1)
      else downcast edge.1 type_id (visible_slot fibers (lookup edge state.slots))

  -- The slot of the edge, while it is this occurrence.
  abbrev pub exact : ℕ → Option (ServiceSlot Payload) → Option (ServiceSlot Payload)
  exact occurrence none = none
  exact occurrence (some slot) = if nat_eq slot.occurrence occurrence then some slot else none

  -- `set_exact`: the outgoing value, or the error
  pub set_exact :
      Fibers
      → Edge
      → (occurrence owner : ℕ) → Value Payload
      → ServiceState Payload
      → Result (Value Payload) ServiceControlError × ServiceState Payload
  set_exact fibers edge occurrence owner value state =
      elim (exact occurrence (lookup edge state.slots)) [
        | none ↦ (err (stale_publication edge.1), state)
        | some slot ↦
            if not (admits (lookup owner fibers)) then (err (mutation_closed edge.1), state) else (
              ok slot.value,
              record state { slots = insert edge (record slot { value = value }) state.slots },
            )
      ]

  -- `remove_exact`: the slot removed and the drift committed, or the error
  pub remove_exact :
      Fibers
      → Edge
      → (occurrence owner : ℕ) → ServiceState Payload
      → Result (ServiceSlot Payload × List Edge) ServiceControlError × ServiceState Payload
  remove_exact fibers edge occurrence owner state =
      elim (exact occurrence (lookup edge state.slots)) [
        | none ↦ (err (stale_publication edge.1), state)
        | some slot ↦
            if not (admits (lookup owner fibers)) then (err (mutation_closed edge.1), state) else (
              ok (slot, drift_if (acts (lookup owner fibers)) (edge ∷ [])),
              record state { slots = remove edge state.slots },
            )
      ]

  -- `withdraw_exact`
  pub withdraw_exact : Edge → (occurrence : ℕ) → ServiceState Payload → ServiceState Payload
  withdraw_exact edge occurrence state = elim (exact occurrence (lookup edge state.slots)) [
    | none ↦ state
    | some slot ↦ record state { slots = remove edge state.slots }
  ]

  -- `slots_owned_by`
  abbrev pub slots_owned_by : ℕ → ServiceState Payload → List Edge
  slots_owned_by fiber state = map (λ s. s.0) (filter (λ s. nat_eq s.1.fiber fiber) state.slots)

  -- `commit_fiber_transition`: the drift committed, and the Fibers behind it
  pub commit_fiber_transition : ℕ → FiberState → ServiceState Payload → Fibers → List Edge × Fibers
  commit_fiber_transition fiber next state fibers =
      (slots_owned_by fiber state, set_state fiber next (lookup fiber fibers) fibers)
