-- ===== src/Core/Update/Claim.antt =====
-- update.rs, `UpdateStore`: a registration is claimed as long as it is there, once if it is `once`.
use mathlib.Core.Option
use cordis_rs.Base.{
  ℕ, ◌≡◌, refl, sym, ap, subst, ◌∙◌, inl, inr, Bool, true, false, ◌&&◌, Option, none, some, List,
  [], ◌∷◌, map, arith, ℕ_eq, ◌==◌, beq_cases, beq_of_ne, Bool-cases, Option-cases, if◌then◌else◌,
  lookup, lookup-insert, lookup-remove, contains, Distinct,
}
use cordis_rs.Core.Events.{is_some}
use cordis_rs.Core.Update.{
  UpdateHook, UpdateState, hooks_for, find_hook, remove_at, put_list, claim_policy,
}

module _ {Callback : Type 0} where
  abbrev pub ids : List (UpdateHook Callback) → List ℕ
  ids = map (λ h. h.id)

  find_hook-absent :
      (id : ℕ) (hooks : List (UpdateHook Callback))
      → contains (ids hooks) id ≡ false
      → find_hook id hooks ≡ none
  find_hook-absent id [] h = refl
  find_hook-absent id (x ∷ hooks) h = ground (arith, find_hook-absent id hooks)

  -- With no identity twice, a removal takes out the one listener.
  find_hook-remove_at :
      (id j : ℕ) (hooks : List (UpdateHook Callback))
      → Distinct (ids hooks)
      → find_hook j (remove_at id hooks) ≡ (if id == j then none else find_hook j hooks)
  find_hook-remove_at id j [] d = elim (Bool-cases (id == j)) [
    | inl b ↦ rw b refl
    | inr b ↦ rw b refl
  ]
  find_hook-remove_at id j (x ∷ hooks) d = elim (beq_cases x.id id) [
    | inl (b, q) ↦ elim (beq_cases id j) [
      | inl (c, r) ↦
          rw (b, c)
            (find_hook-absent j hooks (subst (λ z. contains (ids hooks) z ≡ false) (q ∙ r) d.0))
      | inr (c, r) ↦ rw (b, c, beq_of_ne x.id j (λ s. r (sym q ∙ s))) refl
    ]
    | inr (b, q) ↦ elim (beq_cases x.id j) [
      | inl (c, r) ↦ rw (b, c, beq_of_ne id j (λ s. q (r ∙ sym s))) refl
      | inr (c, r) ↦ rw (b, c) (find_hook-remove_at id j hooks d.1)
    ]
  ]

  hooks_for-put_list :
      (contract other : ℕ) (hooks : List (UpdateHook Callback)) (state : UpdateState Callback)
      → hooks_for other (put_list contract hooks state)
        ≡ (if contract == other then hooks else hooks_for other state)
  hooks_for-put_list contract other [] state =
      ap (λ o. Option.get_or o []) (lookup-remove contract other state)
      ∙ emptied (contract == other)
    where
      emptied :
          (c : Bool)
          → Option.get_or (if c then none else lookup other state) []
            ≡ (if c then [] else hooks_for other state)
      emptied true = refl
      emptied false = refl
  hooks_for-put_list contract other (h ∷ hooks) state =
      ap (λ o. Option.get_or o []) (lookup-insert contract other (h ∷ hooks) state)
      ∙ placed (contract == other)
    where
      placed :
          (c : Bool)
          → Option.get_or (if c then some (h ∷ hooks) else lookup other state) []
            ≡ (if c then h ∷ hooks else hooks_for other state)
      placed true = refl
      placed false = refl

  -- The registered policy of a contract under an identity.
  abbrev pub policy : ℕ → ℕ → UpdateState Callback → Option (UpdateHook Callback)
  policy contract id state = find_hook id (hooks_for contract state)

  abbrev pub is_once : Option (UpdateHook Callback) → Bool
  is_once none = false
  is_once (some h) = h.once

  abbrev pub Left : Bool → ℕ → ℕ → UpdateState Callback → UpdateState Callback → Type 0
  Left gone contract id before later =
      (other j : ℕ)
      → policy other j later
        ≡ (if gone && contract == other && id == j then none else policy other j before)

  put_list-Left :
      (contract id : ℕ) (hooks : List (UpdateHook Callback)) (state : UpdateState Callback)
      → lookup contract state ≡ some hooks
      → Distinct (ids hooks)
      → Left true contract id state (put_list contract (remove_at id hooks) state)
  put_list-Left contract id hooks state e d other j =
      ap (find_hook j) (hooks_for-put_list contract other (remove_at id hooks) state)
      ∙ elim (beq_cases contract other) [
        | inl (b, q) ↦
            let here : policy other j state ≡ find_hook j hooks =
              subst (λ z. policy z j state ≡ find_hook j hooks) q (rw e refl) in
            rw b
              (find_hook-remove_at id j hooks d ∙ ap (λ o. if id == j then none else o) (sym here))
        | inr (b, q) ↦ rw b refl
      ]

  -- With no identity twice for a contract, a claim answers whether the policy is registered, and
  -- withdraws it when it is a `once` policy, and no other policy of any contract.
  pub claim_policy-find :
      (contract id : ℕ) (state : UpdateState Callback)
      → Distinct (ids (hooks_for contract state))
      → ((claim_policy contract id state).0 ≡ is_some (policy contract id state))
        × Left
            (is_once (policy contract id state))
            contract
            id
            state
            (claim_policy contract id state).1
  unfolding claim_policy
  claim_policy-find contract id state d = elim (Option-cases (lookup contract state)) [
    | inl e ↦ rw (e, claim_policy) (refl, λ other j. refl)
    | inr (hooks, e) ↦
        let d' : Distinct (ids hooks) = rw e at d in
        elim (Option-cases (find_hook id hooks)) [
          | inl f ↦ rw (e, claim_policy, f) (refl, λ other j. refl)
          | inr (hook, f) ↦ elim (Bool-cases hook.once) [
            | inl b ↦ rw (e, claim_policy, f, b) (refl, put_list-Left contract id hooks state e d')
            | inr b ↦ rw (e, claim_policy, f, b) (refl, λ other j. refl)
          ]
        ]
  ]
