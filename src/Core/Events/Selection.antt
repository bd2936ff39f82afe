-- ===== src/Core/Events/Selection.antt =====
-- store.rs, the end of `EventStore::preflight`: the eligible listeners, or the first of them that the
-- operation may not invoke.
use mathlib.Core.Option
use mathlib.Core.Option.{none-ne-some}
use cordis_rs.Base.{
  filter, map, All, ◌∷◌, ◌++◌, if◌then◌else◌, ◌≡◌, refl, sym, ap, inl, inr, Bool, true, false, none,
  some, List, [], String_eq, ℕ_eq, Result, ok, err, Bool-cases, Option-cases,
}
use cordis_rs.Core.Events.{
  Hook, HookSnap, EventOperation, Routing, DispatchError, select, snap, eligible,
  first_incompatible, compatible, role_of, incompatible_role, ListenerRole,
}

module _ {Callback : Type 0} (routing : Routing) (operation : EventOperation) where
  abbrev pub AllCompatible : List (Hook Callback) → Type 0
  AllCompatible hooks =
      All (λ h. compatible operation (role_of h.kind) ≡ true) (filter (eligible routing) hooks)

  -- The first eligible listener whose role the operation may not invoke.
  pub record Offends (role : ListenerRole) (hooks : List (Hook Callback)) : Type 0 where
    pub before : List (Hook Callback)
    pub hook : Hook Callback
    pub after : List (Hook Callback)
    pub split : hooks ≡ before ++ (hook ∷ after)
    pub earlier : AllCompatible before
    pub is_eligible : eligible routing hook ≡ true
    pub offends : compatible operation (role_of hook.kind) ≡ false
    pub names : role ≡ role_of hook.kind

  module _ {Failure : Type 0} where
    -- What an answer says of the live listeners.
    abbrev pub Answers :
        List (Hook Callback) → Result (List (HookSnap Callback)) (DispatchError Failure) → Type 0
    Answers hooks (ok snaps) =
        AllCompatible hooks × (snaps ≡ map snap (filter (eligible routing) hooks))
    Answers hooks (err (incompatible_role op role)) = (op ≡ operation) × Offends role hooks
    Answers hooks (err _) = ⊥

  skips-Offends :
      (role : ListenerRole) (h : Hook Callback) (hooks : List (Hook Callback))
      → AllCompatible (h ∷ [])
      → Offends role hooks
      → Offends role (h ∷ hooks)
  skips-Offends role h hooks c o = record {
    before = h ∷ o.before;
    hook = o.hook;
    after = o.after;
    split = ap (◌∷◌ h) o.split;
    earlier = joins (eligible routing h) c o.earlier;
    is_eligible = o.is_eligible;
    offends = o.offends;
    names = o.names;
  }
    where
      joins :
          (b : Bool)
          → All (λ x. compatible operation (role_of x.kind) ≡ true) (if b then h ∷ [] else [])
          → AllCompatible o.before
          → All
              (λ x. compatible operation (role_of x.kind) ≡ true)
              (if b
                then h ∷ filter (eligible routing) o.before
                else filter (eligible routing) o.before)
      joins true c d = (c.0, d)
      joins false c d = d

  first_incompatible-all :
      (hooks : List (Hook Callback))
      → first_incompatible operation (filter (eligible routing) hooks) ≡ none
      → AllCompatible hooks
  first_incompatible-all [] n = tt
  first_incompatible-all (h ∷ hooks) n = elim (Bool-cases (eligible routing h)) [
    | inr b ↦ rw (b) (first_incompatible-all hooks (rw (b) at n))
    | inl b ↦ elim (Bool-cases (compatible operation (role_of h.kind))) [
      | inl c ↦ rw (b) (c, first_incompatible-all hooks (rw (b, c) at n))
      | inr c ↦ absurd (none-ne-some _ (sym (rw (b, c) at n)))
    ]
  ]

  first_incompatible-Offends :
      (role : ListenerRole) (hooks : List (Hook Callback))
      → first_incompatible operation (filter (eligible routing) hooks) ≡ some role
      → Offends role hooks
  first_incompatible-Offends role [] n = absurd (none-ne-some role n)
  first_incompatible-Offends role (h ∷ hooks) n = elim (Bool-cases (eligible routing h)) [
    | inr b ↦
        skips-Offends role h hooks (rw (b) tt) (first_incompatible-Offends role hooks (rw (b) at n))
    | inl b ↦ elim (Bool-cases (compatible operation (role_of h.kind))) [
      | inl c ↦
          skips-Offends role h hooks (rw (b) (c, tt))
            (first_incompatible-Offends role hooks (rw (b, c) at n))
      | inr c ↦ record {
        before = [];
        hook = h;
        after = hooks;
        split = refl;
        earlier = tt;
        is_eligible = b;
        offends = c;
        names = sym (ap (λ o. Option.get_or o role) (rw (b, c) at n));
      }
    ]
  ]

  pub select-Answers :
      (Failure : Type 0) (hooks : List (Hook Callback))
      → Answers {Failure = Failure} hooks (select routing operation hooks)
  select-Answers Failure hooks =
      elim (Option-cases (first_incompatible operation (filter (eligible routing) hooks))) [
        | inl n ↦ rw (n, Answers) (first_incompatible-all hooks n, refl)
        | inr (role, n) ↦ rw (n, Answers) (refl, first_incompatible-Offends role hooks n)
      ]
