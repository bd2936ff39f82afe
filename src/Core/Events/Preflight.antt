-- ===== src/Core/Events/Preflight.antt =====
-- store.rs, `EventStore::preflight` and `bind_locked`: the
-- listeners that a dispatch selects.
use mathlib.Core.Option
use mathlib.Core.Option.{none-ne-some}
use cordis_rs.Base.{
  arith, ◌≡◌, ◌⊎◌, refl, sym, ap, subst, ◌∙◌, inl, inr, Bool, true, false, not, Option, none, some,
  List, [], String, String_eq, ℕ_eq, beq_cases, lookup, insert, lookup-insert_self,
  lookup-insert_ne, Result, ok, err, Bool-cases, Option-cases,
}
use cordis_rs.Core.Events.{
  Hook, HookSnap, Event, EventContract, event_contract_beq, EventHooks, EventState, EventOperation,
  Routing, DispatchError, event_contract_mismatch, iter, no_hooks, hooks_of, bind_locked, select,
  preflight, compact_if_sparse,
}
use cordis_rs.Core.Events.Selection.{Answers, select-Answers}
use cordis_rs.Core.Events.Listing.{iter-compact_if_sparse}

abbrev pub conflicts : EventContract → Option EventContract → Bool
conflicts contract none = false
conflicts contract (some bound) = not (event_contract_beq bound contract)

-- The binding of a contract: refused, or there behind the call with every listener as before.
module _ {Callback : Type 0} (e : Event) (state : EventState Callback) where
  -- The Event has this contract, and every other one what it had.
  abbrev pub Contracts : List (String × EventContract) → Type 0
  Contracts contracts =
      (lookup e.name contracts ≡ some e.contract)
      × ((other : String)
          → (e.name ≡ other) ⊎ (lookup other contracts ≡ lookup other state.contracts))

  abbrev pub Bound : Bool → Type 0
  Bound true = bind_locked e state ≡ none
  Bound false =
      (bound : EventState Callback) × (bind_locked e state ≡ some bound)
      × (bound.hooks ≡ state.hooks)
      × Contracts bound.contracts

  pub bind_locked-Bound : Bound (conflicts e.contract (lookup e.name state.contracts))
  unfolding bind_locked
  bind_locked-Bound = elim (Option-cases (lookup e.name state.contracts)) [
    | inl h ↦ rw h (
      record state { contracts = insert e.name e.contract state.contracts },
      rw (h, bind_locked) refl,
      refl,
      (
        lookup-insert_self e.name e.contract state.contracts,
        λ other. elim (beq_cases e.name other) [
          | inl (b, q) ↦ inl q
          | inr (b, q) ↦ inr (lookup-insert_ne e.name other e.contract state.contracts q)
        ],
      ),
    )
    | inr (bound, h) ↦ elim (Bool-cases (event_contract_beq bound e.contract)) [
      | inl b ↦
          rw (h, b)
            (
              state,
              rw (h, bind_locked, b) refl,
              refl,
              (h ∙ ap some (same_contract bound e.contract b), λ other. inr refl),
            )
      | inr b ↦ rw (h, b) (rw (h, bind_locked, b) refl)
    ]
  ]
    where
      same_contract : (a b : EventContract) → event_contract_beq a b ≡ true → a ≡ b
      same_contract a b h = ground arith

module _ {Callback : Type 0} where
  iter-put :
      (name other : String) (list list' : EventHooks Callback)
      (hooks : List (String × EventHooks Callback))
      → lookup name hooks ≡ some list
      → iter list' ≡ iter list
      → iter (Option.get_or (lookup other (insert name list' hooks)) no_hooks)
        ≡ iter (Option.get_or (lookup other hooks) no_hooks)
  iter-put name other list list' hooks h i = elim (beq_cases name other) [
    | inl (b, q) ↦
        ap (λ o. iter (Option.get_or o no_hooks))
          (subst (λ z. lookup z (insert name list' hooks) ≡ some list') q
            (lookup-insert_self name list' hooks))
        ∙ i
        ∙ ap (λ o. iter (Option.get_or o no_hooks)) (sym h ∙ ap (λ z. lookup z hooks) q)
    | inr (b, q) ↦
        ap (λ o. iter (Option.get_or o no_hooks)) (lookup-insert_ne name other list' hooks q)
  ]

module _ {Callback : Type 0} (Failure : Type 0) where
  -- What a preflight does, given whether the contract conflicts with the bound one.
  abbrev pub Chooses : Event → Routing → EventOperation → EventState Callback → Bool → Type 0
  Chooses e routing operation state true =
      preflight {Failure = Failure} e routing operation state
      ≡ (err (event_contract_mismatch e.name), state)
  Chooses e routing operation state false =
      ((preflight {Failure = Failure} e routing operation state).0
        ≡ select routing operation (iter (hooks_of e.name state)))
      × Contracts e state (preflight {Failure = Failure} e routing operation state).1.contracts
      × ((other : String)
          → iter (hooks_of other (preflight {Failure = Failure} e routing operation state).1)
            ≡ iter (hooks_of other state))

  pub preflight-Chooses :
      (e : Event) (routing : Routing) (operation : EventOperation) (state : EventState Callback)
      → Chooses e routing operation state (conflicts e.contract (lookup e.name state.contracts))
  unfolding preflight
  preflight-Chooses e routing operation state =
      from (conflicts e.contract (lookup e.name state.contracts)) (bind_locked-Bound e state)
    where
      answer :
          Option (EventHooks Callback) → Result (List (HookSnap Callback)) (DispatchError Failure)
      answer o = select routing operation (iter (Option.get_or o no_hooks))

      seen : String → List (String × EventHooks Callback) → List (Hook Callback)
      seen other hooks = iter (Option.get_or (lookup other hooks) no_hooks)

      at_name :
          (bound : EventState Callback)
          → bound.hooks ≡ state.hooks
          → lookup e.name state.hooks ≡ lookup e.name bound.hooks
      at_name bound same = ap (lookup e.name) (sym same)

      refused :
          bind_locked e state ≡ none
          → preflight {Failure = Failure} e routing operation state
            ≡ (err (event_contract_mismatch e.name), state)
      refused h = rw (h, preflight) refl

      unlisted :
          (bound : EventState Callback)
          → bind_locked e state ≡ some bound
          → lookup e.name bound.hooks ≡ none
          → preflight {Failure = Failure} e routing operation state ≡ (ok [], bound)
      unlisted bound h f = rw (h, preflight, f) refl

      selected :
          (bound : EventState Callback) (list : EventHooks Callback)
          → bind_locked e state ≡ some bound
          → lookup e.name bound.hooks ≡ some list
          → preflight {Failure = Failure} e routing operation state ≡ (
            select routing operation (iter (compact_if_sparse list)),
            record bound { hooks = insert e.name (compact_if_sparse list) bound.hooks },
          )
      selected bound list h f = rw (h, preflight, f) refl

      from : (c : Bool) → Bound e state c → Chooses e routing operation state c
      from true h = refused h
      from false (bound, h, same, there) = elim (Option-cases (lookup e.name bound.hooks)) [
        | inl f ↦
            rw (unlisted bound h f)
              (sym (ap answer (at_name bound same ∙ f)), there, λ other. ap (seen other) same)
        | inr (list, f) ↦ rw (selected bound list h f) (
          ap (select routing operation) (iter-compact_if_sparse list)
              ∙ sym (ap answer (at_name bound same ∙ f)),
          there,
          λ other.
              iter-put e.name other list (compact_if_sparse list) bound.hooks f
                (iter-compact_if_sparse list)
              ∙ ap (seen other) same,
        )
      ]

  -- The same, with what the answer says of the live listeners.
  abbrev pub Selects : Event → Routing → EventOperation → EventState Callback → Bool → Type 0
  Selects e routing operation state true =
      preflight {Failure = Failure} e routing operation state
      ≡ (err (event_contract_mismatch e.name), state)
  Selects e routing operation state false =
      Answers routing operation {Failure = Failure} (iter (hooks_of e.name state))
        (preflight {Failure = Failure} e routing operation state).0
      × Contracts e state (preflight {Failure = Failure} e routing operation state).1.contracts
      × ((other : String)
          → iter (hooks_of other (preflight {Failure = Failure} e routing operation state).1)
            ≡ iter (hooks_of other state))

  -- A contract that differs from the bound one is refused with nothing changed. Otherwise this
  -- contract is bound and no other binding changes; the answer is the eligible live listeners in
  -- their order, when the operation may invoke each of them, or else the role of the first one
  -- that it may not; and the live listeners of every name stay what they were.
  pub preflight-Selects :
      (e : Event) (routing : Routing) (operation : EventOperation) (state : EventState Callback)
      → Selects e routing operation state (conflicts e.contract (lookup e.name state.contracts))
  preflight-Selects e routing operation state =
      from (conflicts e.contract (lookup e.name state.contracts))
        (preflight-Chooses e routing operation state)
    where
      from : (c : Bool) → Chooses e routing operation state c → Selects e routing operation state c
      from true h = h
      from false (h, bound, kept) = (
        subst (Answers routing operation (iter (hooks_of e.name state))) (sym h)
            (select-Answers routing operation Failure (iter (hooks_of e.name state))),
        bound,
        kept,
      )
