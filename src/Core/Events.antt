-- ===== src/Core/Events.antt =====
-- crates/cordis-core/src/events/store.rs: the Event contracts and the listeners of one Runtime, and
-- the listener options and dispatch errors of listener.rs and types.rs that it uses.
-- A registration identity is the address of its `Arc`; a `TypeId` is a number; a scope is a chain of
-- addresses, innermost first, and the empty list where the source has `None`.
pub mod Listing
pub mod Claim
pub mod Selection
pub mod Preflight
pub mod Publish
pub mod Blame
pub mod Dispatch
pub mod Parallel
pub mod Waterfall
use mathlib.Core.Option
use cordis_rs.Base.{
  ℕ, ◌+◌, ◌-◌, ◌||◌, ◌&&◌, Bool, true, false, not, Option, none, some, List, [], ◌∷◌, ◌++◌, String,
  String_eq, nat_eq, ℕ_eq, ◌==◌, ltb, if◌then◌else◌, lookup, insert, remove, filter, length, map,
  Result, ok, err, Eq,
}
use cordis_rs.Core.Context.{Scope, reaches}

pub data ListenerRole : Type 0 where
  observer responder mapper around : ListenerRole

pub data EventOperation : Type 0 where
  emit emit_parallel query waterfall : EventOperation

pub data Routing : Type 0 where
  unscoped : Routing
  scoped : Scope → Routing

pub record ListenerOptions : Type 0 where
  pub prepend : Bool
  pub global : Bool
  pub once : Bool

-- `DispatchError`, with the failures of an invocation as a parameter.
pub data DispatchError (Failure : Type 0) : Type 0 where
  event_contract_mismatch : (event : String) → DispatchError Failure
  foreign_scope : DispatchError Failure
  incompatible_role : (operation : EventOperation) → (role : ListenerRole) → DispatchError Failure
  invocation : Failure → DispatchError Failure
  parallel : List Failure → DispatchError Failure

pub record EventContract : Type 0 where
  pub args : ℕ
  pub output : ℕ

abbrev pub event_contract_beq : EventContract → EventContract → Bool
event_contract_beq a b = nat_eq a.args b.args && nat_eq a.output b.output

-- An `Event` type: its `NAME` and its contract.
pub record Event : Type 0 where
  pub name : String
  pub contract : EventContract

pub data HookKind (Callback : Type 0) : Type 0 where
  plain : (role : ListenerRole) → (callback : Callback) → HookKind Callback
  around : (callback : Callback) → HookKind Callback

abbrev pub role_of : {Callback : Type 0} → HookKind Callback → ListenerRole
role_of (plain role callback) = role
role_of (HookKind.around callback) = ListenerRole.around

pub record Hook (Callback : Type 0) : Type 0 where
  pub id : ℕ
  pub scope : List ℕ
  pub options : ListenerOptions
  pub kind : HookKind Callback

-- `HookSnap`, and `Hook::snap`
pub record HookSnap (Callback : Type 0) : Type 0 where
  pub id : ℕ
  pub scope : List ℕ
  pub options : ListenerOptions
  pub kind : HookKind Callback

abbrev pub snap : {Callback : Type 0} → Hook Callback → HookSnap Callback
snap h = record { id = h.id; scope = h.scope; options = h.options; kind = h.kind }

pub record EventHooks (Callback : Type 0) : Type 0 where
  pub order : List ℕ
  pub entries : List (ℕ × Hook Callback)

pub record EventState (Callback : Type 0) : Type 0 where
  pub contracts : List (String × EventContract)
  pub hooks : List (String × EventHooks Callback)

abbrev pub is_some {ℓ} : {A : Type ℓ} → Option A → Bool
is_some none = false
is_some (some a) = true

-- The match on the scopes of a registration and of a dispatch.
abbrev pub covers : List ℕ → List ℕ → Bool
covers [] dispatch = true
covers (head ∷ _) [] = false
covers (head ∷ _) (d ∷ dispatch) = reaches (d ∷ dispatch) head

-- The closure `compatible` of `preflight`.
abbrev pub compatible : EventOperation → ListenerRole → Bool
compatible waterfall mapper = true
compatible waterfall ListenerRole.around = true
compatible waterfall _ = false
compatible _ observer = true
compatible _ responder = true
compatible _ _ = false

-- One round of `filter_map`.
abbrev pub keep {ℓ} : {A : Type ℓ} → Option A → List A → List A
keep none xs = xs
keep (some a) xs = a ∷ xs

module _ {Callback : Type 0} where
  abbrev pub no_hooks : EventHooks Callback
  no_hooks = record { order = []; entries = [] }

  abbrev pub listed : List (ℕ × Hook Callback) → List ℕ → List (Hook Callback)
  listed entries [] = []
  listed entries (id ∷ order) = keep (lookup id entries) (listed entries order)

  -- `EventHooks::iter`
  abbrev pub iter : EventHooks Callback → List (Hook Callback)
  iter hooks = listed hooks.entries hooks.order

  -- The source asserts that `order` is at least as long as `entries`.
  pub compact_if_sparse : EventHooks Callback → EventHooks Callback
  compact_if_sparse hooks =
      let stale = length hooks.order - length hooks.entries in
      if ltb stale 32 || ltb stale (length hooks.entries)
      then hooks
      else record hooks { order = filter (λ id. is_some (lookup id hooks.entries)) hooks.order }

  -- `EventHooks::add`
  pub add : EventHooks Callback → Hook Callback → EventHooks Callback
  unfolding compact_if_sparse
  add hooks hook =
      let compacted = compact_if_sparse hooks in
      record {
        entries = insert hook.id hook compacted.entries;
        order =
            if hook.options.prepend
            then hook.id ∷ compacted.order
            else compacted.order ++ (hook.id ∷ []);
      }

  -- `EventHooks::remove`, with the map behind it
  pub remove_hook : EventHooks Callback → ℕ → Option (Hook Callback) × EventHooks Callback
  remove_hook hooks id =
      (lookup id hooks.entries, record hooks { entries = remove id hooks.entries })

  abbrev pub is_empty : EventHooks Callback → Bool
  is_empty hooks = nat_eq (length hooks.entries) 0

  -- `bind_locked`: its answer, `none` for a mismatch, is the state behind it.
  pub bind_locked : Event → EventState Callback → Option (EventState Callback)
  bind_locked e state = elim (lookup e.name state.contracts) [
    | some bound ↦ if not (event_contract_beq bound e.contract) then none else some state
    | none ↦ some (record state { contracts = insert e.name e.contract state.contracts })
  ]

  abbrev pub hooks_of : String → EventState Callback → EventHooks Callback
  hooks_of name state = Option.get_or (lookup name state.hooks) no_hooks

  -- Whether the listener was added, and the state behind it.
  pub add_reserved : Event → Hook Callback → EventState Callback → Bool × EventState Callback
  unfolding bind_locked add
  add_reserved e hook state = elim (bind_locked e state) [
    | none ↦ (false, state)
    | some bound ↦ (
      true,
      record bound { hooks = insert e.name (add (hooks_of e.name bound) hook) bound.hooks },
    )
  ]

  -- A list that became empty leaves the map.
  abbrev pub put_back : String → EventHooks Callback → EventState Callback → EventState Callback
  put_back name list state =
      if is_empty list
      then record state { hooks = remove name state.hooks }
      else record state { hooks = insert name list state.hooks }

  -- `EventStore::remove`
  pub remove_listener : String → ℕ → EventState Callback → Bool × EventState Callback
  unfolding remove_hook
  remove_listener name id state = elim (lookup name state.hooks) [
    | none ↦ (false, state)
    | some list ↦ elim (remove_hook list id).0 [
      | none ↦ (false, state)
      | some removed ↦ (true, put_back name (remove_hook list id).1 state)
    ]
  ]

  -- `EventStore::claim`: whether the listener is claimed, whether that unregistered it, and the state.
  pub claim : String → ℕ → EventState Callback → (Bool × Bool) × EventState Callback
  unfolding remove_hook
  claim name id state = elim (lookup name state.hooks) [
    | none ↦ ((false, false), state)
    | some list ↦ elim (lookup id list.entries) [
      | none ↦ ((false, false), state)
      | some hook ↦
          if not hook.options.once
          then ((true, false), state)
          else ((true, true), put_back name (remove_hook list id).1 state)
    ]
  ]

  -- The closure `eligible` of `preflight`.
  abbrev pub eligible : Routing → Hook Callback → Bool
  eligible unscoped hook = true
  eligible (scoped scope) hook = hook.options.global || covers hook.scope scope.layer

  abbrev pub first_incompatible : EventOperation → List (Hook Callback) → Option ListenerRole
  first_incompatible operation [] = none
  first_incompatible operation (h ∷ hs) =
      let rest = first_incompatible operation hs in
      if not (compatible operation (role_of h.kind)) then some (role_of h.kind) else rest

  module _ {Failure : Type 0} where
    abbrev pub select :
        Routing
        → EventOperation
        → List (Hook Callback)
        → Result (List (HookSnap Callback)) (DispatchError Failure)
    select routing operation hooks =
        elim (first_incompatible operation (filter (eligible routing) hooks)) [
          | some role ↦ err (incompatible_role operation role)
          | none ↦ ok (map snap (filter (eligible routing) hooks))
        ]

    -- `EventStore::preflight`
    unfoldable pub preflight :
        Event
        → Routing
        → EventOperation
        → EventState Callback
        → Result (List (HookSnap Callback)) (DispatchError Failure) × EventState Callback
    unfolding bind_locked compact_if_sparse
    preflight e routing operation state = elim (bind_locked e state) [
      | none ↦ (err (event_contract_mismatch e.name), state)
      | some bound ↦ elim (lookup e.name bound.hooks) [
        | none ↦ (ok [], bound)
        | some list ↦
            let compacted = compact_if_sparse list in
            (
              select routing operation (iter compacted),
              record bound { hooks = insert e.name compacted bound.hooks },
            )
      ]
    ]
