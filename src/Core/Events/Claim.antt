-- ===== src/Core/Events/Claim.antt =====
-- store.rs, `EventStore::claim` and `remove`: a `once` listener is claimed at most once.
use cordis_rs.Base.{
  ℕ, ◌&&◌, ◌≡◌, refl, sym, ap, subst, ◌∙◌, inl, inr, Bool, true, false, Option, none, some, List,
  [], ◌∷◌, String, String_eq, nat_eq, ℕ_eq, ◌==◌, beq_cases, beq_refl, arith, if◌then◌else◌, lookup,
  lookup-insert, lookup-remove, length, Bool-cases, Option-cases,
}
use mathlib.Core.Option
use cordis_rs.Core.Events.{
  Hook, EventHooks, EventState, is_some, is_empty, no_hooks, hooks_of, put_back, remove_hook,
  remove_listener, claim,
}

module _ {Callback : Type 0} where
  -- The live listener of a name under an identity.
  abbrev pub find : String → ℕ → EventState Callback → Option (Hook Callback)
  find name id state = lookup id (hooks_of name state).entries

  abbrev pub is_once : Option (Hook Callback) → Bool
  is_once none = false
  is_once (some h) = h.options.once

  lookup-empty :
      (list : EventHooks Callback) (id : ℕ) → is_empty list ≡ true → lookup id list.entries ≡ none
  lookup-empty list id h = go list.entries h
    where
      go :
          (entries : List (ℕ × Hook Callback))
          → nat_eq (length entries) 0 ≡ true
          → lookup id entries ≡ none
      go [] e = refl
      go (x ∷ entries) e = absurd (ground (arith, e))

  find-put_back :
      (name other : String) (j : ℕ) (list : EventHooks Callback) (state : EventState Callback)
      → find other j (put_back name list state)
        ≡ (if name == other then lookup j list.entries else find other j state)
  find-put_back name other j list state = elim (Bool-cases (is_empty list)) [
    | inl b ↦ rw b (
        ap (λ o. lookup j (Option.get_or o no_hooks).entries) (lookup-remove name other state.hooks)
        ∙ emptied (name == other) b)
    | inr b ↦ rw b (
        ap (λ o. lookup j (Option.get_or o no_hooks).entries)
          (lookup-insert name other list state.hooks)
        ∙ placed (name == other))
  ]
    where
      emptied :
          (c : Bool)
          → is_empty list ≡ true
          → lookup j (Option.get_or (if c then none else lookup other state.hooks) no_hooks).entries
            ≡ (if c then lookup j list.entries else find other j state)
      emptied true b = sym (lookup-empty list j b)
      emptied false b = refl

      placed :
          (c : Bool)
          → lookup j
              (Option.get_or (if c then some list else lookup other state.hooks) no_hooks).entries
            ≡ (if c then lookup j list.entries else find other j state)
      placed true = refl
      placed false = refl

  -- What the withdrawal of one listener leaves.
  abbrev pub Withdrawn : Bool → String → ℕ → EventState Callback → EventState Callback → Type 0
  Withdrawn gone name id before later =
      (other : String) (j : ℕ)
      → find other j later
        ≡ (if gone && name == other && id == j then none else find other j before)

  put_back-Withdrawn :
      (name : String) (id : ℕ) (list : EventHooks Callback) (state : EventState Callback)
      → lookup name state.hooks ≡ some list
      → Withdrawn true name id state (put_back name (remove_hook list id).1 state)
  unfolding remove_hook
  put_back-Withdrawn name id list state e other j =
      find-put_back name other j (remove_hook list id).1 state ∙ elim (beq_cases name other) [
        | inl (b, q) ↦
            let here : find other j state ≡ lookup j list.entries =
              subst (λ z. find z j state ≡ lookup j list.entries) q (rw e refl) in
            rw b
              (lookup-remove id j list.entries ∙ ap (λ o. if id == j then none else o) (sym here))
        | inr (b, q) ↦ rw b refl
      ]

  absent-Withdrawn :
      (name : String) (id : ℕ) (state : EventState Callback)
      → find name id state ≡ none
      → Withdrawn true name id state state
  absent-Withdrawn name id state h other j = elim (beq_cases name other) [
    | inl (b, q) ↦ elim (beq_cases id j) [
      | inl (c, r) ↦
          rw (b, c)
            (subst (λ z. find z j state ≡ none) q (subst (λ z. find name z state ≡ none) r h))
      | inr (c, r) ↦ rw (b, c) refl
    ]
    | inr (b, q) ↦ rw b refl
  ]

  -- `claim` answers whether the listener is registered, and whether it is a `once` listener; then,
  -- and only then, it withdraws it, and no other listener of any name.
  pub claim-find :
      (name : String) (id : ℕ) (state : EventState Callback)
      → ((claim name id state).0 ≡ (is_some (find name id state), is_once (find name id state)))
        × Withdrawn (is_once (find name id state)) name id state (claim name id state).1
  unfolding claim
  claim-find name id state = elim (Option-cases (lookup name state.hooks)) [
    | inl e ↦ rw (e, claim) (refl, λ other j. refl)
    | inr (list, e) ↦ elim (Option-cases (lookup id list.entries)) [
      | inl f ↦ rw (e, claim, f) (refl, λ other j. refl)
      | inr (hook, f) ↦ elim (Bool-cases hook.options.once) [
        | inl b ↦ rw (e, claim, f, b) (refl, put_back-Withdrawn name id list state e)
        | inr b ↦ rw (e, claim, f, b) (refl, λ other j. refl)
      ]
    ]
  ]

  -- `remove` answers whether the listener was registered, and withdraws it and no other.
  remove_listener-find :
      (name : String) (id : ℕ) (state : EventState Callback)
      → ((remove_listener name id state).0 ≡ is_some (find name id state))
        × Withdrawn true name id state (remove_listener name id state).1
  unfolding remove_listener remove_hook
  remove_listener-find name id state = elim (Option-cases (lookup name state.hooks)) [
    | inl e ↦ rw (e, remove_listener) (refl, absent-Withdrawn name id state (rw e refl))
    | inr (list, e) ↦ elim (Option-cases (lookup id list.entries)) [
      | inl f ↦ rw (e, remove_listener, f) (refl, absent-Withdrawn name id state (rw (e, f) refl))
      | inr (hook, f) ↦ rw (e, remove_listener, f) (refl, put_back-Withdrawn name id list state e)
    ]
  ]

  -- After a claim that unregistered a listener, no later claim gets it, as long as nothing
  -- registers under its identity again.
  claim-at_most_once :
      (name : String) (id : ℕ) (state : EventState Callback)
      → (claim name id state).0 ≡ (true, true)
      → (claim name id (claim name id state).1).0 ≡ (false, false)
  claim-at_most_once name id state h =
      let (first, left) = claim-find name id state in
      let once : is_once (find name id state) ≡ true = ap (λ p. p.1) (sym first ∙ h) in
      let gone : find name id (claim name id state).1 ≡ none =
        left name id ∙ rw (once, beq_refl name, beq_refl id) refl in
      (claim-find name id (claim name id state).1).0 ∙ ap (λ o. (is_some o, is_once o)) gone
