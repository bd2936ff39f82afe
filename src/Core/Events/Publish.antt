-- ===== src/Core/Events/Publish.antt =====
-- store.rs, `add_reserved`: a listener is published under its contract, or nothing is.
use mathlib.Core.Option
use cordis_rs.Base.{
  ◌≡◌, refl, ap, ◌∙◌, Bool, true, false, some, String_eq, ℕ_eq, lookup, insert, lookup-insert_self,
}
use cordis_rs.Core.Events.{
  Event, Hook, EventState, hooks_of, no_hooks, add, add_reserved, compact_if_sparse,
}
use cordis_rs.Core.Events.Claim.{find}
use cordis_rs.Core.Events.Preflight.{conflicts, Bound, bind_locked-Bound}

module _ {Callback : Type 0} (e : Event) (hook : Hook Callback) (state : EventState Callback) where
  -- What a publication does, given whether its contract conflicts with the bound one.
  abbrev pub Publishes : Bool → Type 0
  Publishes true = add_reserved e hook state ≡ (false, state)
  Publishes false =
      ((add_reserved e hook state).0 ≡ true)
      × (find e.name hook.id (add_reserved e hook state).1 ≡ some hook)

  published :
      (bound : EventState Callback)
      → find e.name hook.id
          (record bound { hooks = insert e.name (add (hooks_of e.name bound) hook) bound.hooks })
        ≡ some hook
  unfolding add
  published bound =
      ap (λ o. lookup hook.id (Option.get_or o no_hooks).entries)
        (lookup-insert_self e.name (add (hooks_of e.name bound) hook) bound.hooks)
      ∙ lookup-insert_self hook.id hook (compact_if_sparse (hooks_of e.name bound)).entries

  by_binding : (c : Bool) → Bound e state c → Publishes c
  unfolding add_reserved
  by_binding true h = rw (h, add_reserved) refl
  by_binding false (bound, h, same, there) = rw (h, add_reserved) (refl, published bound)

  pub add_reserved-Publishes : Publishes (conflicts e.contract (lookup e.name state.contracts))
  add_reserved-Publishes =
      by_binding (conflicts e.contract (lookup e.name state.contracts)) (bind_locked-Bound e state)
