-- ===== src/Core/Update.antt =====
-- crates/cordis-core/src/update.rs: the update policies of one Runtime and the precommit chain that
-- `FiberHandle::update` runs. A Plugin contract is the number of its `TypeId`; a change, a callback
-- and what a callback does to the Runtime are parameters. The chain reads the hooks from a list
-- where the source has a vector and an index.
pub mod Claim
pub mod Chain
pub mod Register
use mathlib.Core.Option
use cordis_rs.Base.{
  ℕ, ◌||◌, Bool, true, false, not, Option, none, some, List, [], ◌∷◌, ◌++◌, nat_eq, ℕ_eq, ◌==◌,
  if◌then◌else◌, lookup, insert, remove, filter, length, map, Result, ok, err,
}
use cordis_rs.Core.Events.{covers}
use cordis_rs.Core.Events.Dispatch.{InvocationFailure, correlate}

pub data UpdateKind (Callback : Type 0) : Type 0 where
  mapper around : (callback : Callback) → UpdateKind Callback

pub record UpdateHook (Callback : Type 0) : Type 0 where
  pub id : ℕ
  pub prepend : Bool
  pub global : Bool
  pub scope : List ℕ
  pub once : Bool
  pub kind : UpdateKind Callback

pub record UpdateSnap (Callback : Type 0) : Type 0 where
  pub id : ℕ
  pub kind : UpdateKind Callback

-- `UpdateState`
abbrev pub UpdateState : Type 0 → Type 0
UpdateState Callback = List (ℕ × List (UpdateHook Callback))

module _ {Callback : Type 0} where
  abbrev pub hooks_for : ℕ → UpdateState Callback → List (UpdateHook Callback)
  hooks_for contract state = Option.get_or (lookup contract state) []

  -- `UpdateStore::add`
  pub add : ℕ → UpdateHook Callback → UpdateState Callback → UpdateState Callback
  add contract hook state =
      insert contract
        (if hook.prepend
          then hook ∷ hooks_for contract state
          else hooks_for contract state ++ (hook ∷ []))
        state

  -- `iter().position(..)` with the hook there, and `remove(at)`
  abbrev pub find_hook : ℕ → List (UpdateHook Callback) → Option (UpdateHook Callback)
  find_hook id [] = none
  find_hook id (h ∷ hooks) = if h.id == id then some h else find_hook id hooks

  abbrev pub remove_at : ℕ → List (UpdateHook Callback) → List (UpdateHook Callback)
  remove_at id [] = []
  remove_at id (h ∷ hooks) = let rest = remove_at id hooks in if h.id == id then hooks else h ∷ rest

  -- A list that became empty leaves the map.
  abbrev pub put_list : ℕ → List (UpdateHook Callback) → UpdateState Callback → UpdateState Callback
  put_list contract [] state = remove contract state
  put_list contract (h ∷ hooks) state = insert contract (h ∷ hooks) state

  -- `UpdateStore::remove`
  pub remove_policy : ℕ → ℕ → UpdateState Callback → Bool × UpdateState Callback
  remove_policy contract id state = elim (lookup contract state) [
    | none ↦ (false, state)
    | some hooks ↦ elim (find_hook id hooks) [
      | none ↦ (false, state)
      | some hook ↦ (true, put_list contract (remove_at id hooks) state)
    ]
  ]

  -- `UpdateStore::claim`
  pub claim_policy : ℕ → ℕ → UpdateState Callback → Bool × UpdateState Callback
  claim_policy contract id state = elim (lookup contract state) [
    | none ↦ (false, state)
    | some hooks ↦ elim (find_hook id hooks) [
      | none ↦ (false, state)
      | some hook ↦
          if not hook.once
          then (true, state)
          else (true, put_list contract (remove_at id hooks) state)
    ]
  ]

  -- `UpdateStore::snapshot`
  unfoldable pub snapshot : ℕ → List ℕ → UpdateState Callback → List (UpdateSnap Callback)
  snapshot contract target state =
      map (λ h. record { id = h.id; kind = h.kind })
        (filter (λ h. h.global || covers h.scope target) (hooks_for contract state))

-- The Runtime while a chain runs: the policies, the flag `reached`, and the rest.
pub record Control (Callback Rest : Type 0) : Type 0 where
  pub policies : UpdateState Callback
  pub reached : Bool
  pub rest : Rest

abbrev pub Controlled : Type 0 → Type 0 → Type 0 → Type 0
Controlled Callback Change Rest = Result Change InvocationFailure × Control Callback Rest

-- `invoke_mapper` and `invoke_around`, with panics already turned into failures. The callback of an
-- Around may call its continuation or not.
pub record Policies (Callback Change Rest : Type 0) : Type 0 where
  pub invoke_mapper : Callback → Change → Control Callback Rest → Controlled Callback Change Rest
  pub invoke_around :
      Callback
      → Change
      → (Change → Control Callback Rest → Controlled Callback Change Rest)
      → Control Callback Rest
      → Controlled Callback Change Rest

module _ {Callback Change Rest : Type 0} (policies : Policies Callback Change Rest) where
  -- `result.map_err(|failure| failure.correlate(hook.id))`
  abbrev pub correlate_result :
      ℕ → Controlled Callback Change Rest → Controlled Callback Change Rest
  correlate_result id (ok change, w) = (ok change, w)
  correlate_result id (err failure, w) = (err (correlate failure id), w)

  pub run_chain :
      ℕ
      → List (UpdateSnap Callback)
      → Change
      → Control Callback Rest
      → Controlled Callback Change Rest
  unfolding claim_policy
  run_chain contract [] change w = (ok change, record w { reached = true })
  run_chain contract (hook ∷ hooks) change w =
      let (claimed, state) = claim_policy contract hook.id w.policies in
      let w1 : Control Callback Rest = record w { policies = state } in
      elim claimed [
        | false ↦ run_chain contract hooks change w1
        | true ↦ correlate_result hook.id (elim hook.kind [
          | mapper callback ↦
              let (result, w2) = policies.invoke_mapper callback change w1 in
              elim result [
                | ok mapped ↦ run_chain contract hooks mapped w2
                | err failure ↦ (err failure, w2)
              ]
          | around callback ↦
              policies.invoke_around callback change (λ c. λ x. run_chain contract hooks c x) w1
        ])
      ]

  abbrev pub delivered :
      Controlled Callback Change Rest
      → Result (Option Change) InvocationFailure × Control Callback Rest
  delivered (ok output, w) = (ok (if w.reached then some output else none), w)
  delivered (err failure, w) = (err failure, w)

  -- `UpdateStore::control`: the change that the chain accepted, or `none` for a veto.
  pub control :
      ℕ
      → List ℕ
      → Change
      → Control Callback Rest
      → Result (Option Change) InvocationFailure × Control Callback Rest
  unfolding run_chain snapshot
  control contract target change w = delivered (
      run_chain contract (snapshot contract target w.policies) change
        (record w { reached = false }))
