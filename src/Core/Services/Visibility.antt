-- ===== src/Core/Services/Visibility.antt =====
-- service.rs: a visible publication changes only at the edges of a committed drift.
use cordis_rs.Base.{
  ℕ, ◌≡◌, ◌⊎◌, refl, sym, ap, subst, ◌∙◌, inl, inr, Bool, true, false, Option, none, some, List, [],
  ◌∷◌, arith, String, String_eq, ℕ_eq, pair_eq, ◌==◌, beq_cases, Bool-cases, Option-cases, nat_eq,
  nat_eq_iff, if◌then◌else◌, lookup, insert, remove, lookup-insert, lookup-remove, contains, Result,
  ok, err, map, filter,
}
use cordis_rs.Core.Gated.{FiberState, Liveness}
use cordis_rs.Core.Services.{
  Fibers, Edge, ServiceSlot, ServiceState, is_alive, shows, acts, admits, drift_if, differs,
  visible, visible_slot, occurrence_of, occurrence_id, bind, taken, install, exact, remove_exact,
  set_state, commit_fiber_transition,
}

abbrev pub drift_of {ℓ κ} : {A : Type ℓ} {E : Type κ} → Result (A × List Edge) E → List Edge
drift_of (ok (a, drift)) = drift
drift_of (err e) = []

shows-acts : (o : Option Liveness) → acts o ≡ false → shows o ≡ false
shows-acts none h = refl
shows-acts (some fiber) h = ground arith

shows-is_alive : (o : Option Liveness) → is_alive o ≡ false → shows o ≡ false
shows-is_alive none h = refl
shows-is_alive (some fiber) h = ground arith

drifted :
    (b : Bool) (edge j : Edge)
    → contains (drift_if b (edge ∷ [])) j ≡ false
    → (edge == j) ≡ true
    → b ≡ false
drifted true edge j h q = ground arith
drifted false edge j h q = refl

lookup-set_state :
    (fiber other : ℕ) (next : FiberState) (o : Option Liveness) (fibers : Fibers)
    → nat_eq other fiber ≡ false
    → lookup other (set_state fiber next o fibers) ≡ lookup other fibers
lookup-set_state fiber other next none fibers h = refl
lookup-set_state fiber other next (some liveness) fibers h =
    lookup-insert fiber other (record liveness { state = next }) fibers ∙ ground arith

-- What commits a drift: an installation, a removal by its handle, and a transition of a Fiber.
pub data Commit (Payload : Type 0) : Type 0 where
  installs : ServiceSlot Payload → Edge → Commit Payload
  removes : Edge → (occurrence owner : ℕ) → Commit Payload
  transitions : (fiber : ℕ) → FiberState → Commit Payload

module _ {Payload : Type 0} where
  -- At an edge that the drift does not have, the visible publication is what it was.
  abbrev pub Unmoved :
      List Edge → Fibers → ServiceState Payload → Fibers → ServiceState Payload → Type 0
  Unmoved drift fibers state fibers' state' =
      (edge : Edge)
      → contains drift edge ≡ false
      → occurrence_id fibers' edge state' ≡ occurrence_id fibers edge state

  shown : Fibers → Option (ServiceSlot Payload) → Option ℕ
  shown fibers o = occurrence_of (visible_slot fibers o)

  -- A slot whose owner does not show is as good as none.
  shown-hidden :
      (fibers : Fibers) (o : Option (ServiceSlot Payload))
      → ((slot : ServiceSlot Payload) → o ≡ some slot → visible fibers slot ≡ false)
      → shown fibers o ≡ none
  unfolding shown
  shown-hidden fibers none h = refl
  shown-hidden fibers (some slot) h = rw (h slot refl) refl

  shown-taken :
      (fibers : Fibers) (o : Option (ServiceSlot Payload))
      → taken fibers o ≡ false
      → shown fibers o ≡ none
  unfolding shown
  shown-taken fibers none h = refl
  shown-taken fibers (some slot) h = rw (shows-is_alive (lookup slot.fiber fibers) h) refl

  pub lookup-place :
      (edge j : Edge) (slot : ServiceSlot Payload) (slots : List (Edge × ServiceSlot Payload))
      → lookup j (insert edge slot (remove edge slots))
        ≡ (if edge == j then some slot else lookup j slots)
  lookup-place edge j slot slots =
      lookup-insert edge j slot (remove edge slots) ∙ beside (edge == j) refl
    where
      beside :
          (b : Bool)
          → (edge == j) ≡ b
          → (if b then some slot else lookup j (remove edge slots))
            ≡ (if b then some slot else lookup j slots)
      beside true q = refl
      beside false q = lookup-remove edge j slots ∙ rw q refl

  pub bind-slots :
      (name : String) (contract : ℕ) (o : Option ℕ) (state : ServiceState Payload)
      → (bind name contract o state).slots ≡ state.slots
  bind-slots name contract none state = refl
  bind-slots name contract (some bound) state = refl

  shown-placed :
      (fibers : Fibers) (edge j : Edge) (slot : ServiceSlot Payload)
      (slots : List (Edge × ServiceSlot Payload))
      → contains (drift_if (acts (lookup slot.fiber fibers)) (edge ∷ [])) j ≡ false
      → taken fibers (lookup edge slots) ≡ false
      → shown fibers (if edge == j then some slot else lookup j slots)
        ≡ shown fibers (lookup j slots)
  unfolding shown
  shown-placed fibers edge j slot slots h t = elim (beq_cases edge j) [
    | inl (b, q) ↦
        let hidden : visible fibers slot ≡ false =
          shows-acts (lookup slot.fiber fibers)
            (drifted (acts (lookup slot.fiber fibers)) edge j h b) in
        rw (b, hidden)
          (sym (
            subst (λ x. occurrence_of (visible_slot fibers (lookup x slots)) ≡ none) q
              (shown-taken fibers (lookup edge slots) t)))
    | inr (b, q) ↦ rw b refl
  ]

  -- An installation, accepted or refused, moves a visible publication only at the edges of the drift
  -- that it commits.
  install-Unmoved :
      (fibers : Fibers) (slot : ServiceSlot Payload) (edge : Edge) (state : ServiceState Payload)
      → Unmoved
          (drift_of (install fibers slot.fiber slot edge state).0)
          fibers
          state
          fibers
          (install fibers slot.fiber slot edge state).1
  unfolding install occurrence_id shown
  install-Unmoved fibers slot edge state j h =
      let o : Option ℕ = lookup edge.1 state.contracts in
      let bound : ServiceState Payload = bind edge.1 slot.contract o state in
      let same : shown fibers (lookup j bound.slots) ≡ shown fibers (lookup j state.slots) =
        ap (λ m. shown fibers (lookup j m)) (bind-slots edge.1 slot.contract o state) in
      elim (Bool-cases (differs slot.contract o)) [
        | inl d ↦ rw d refl
        | inr d ↦ elim (Bool-cases (taken fibers (lookup edge bound.slots))) [
          | inl t ↦ rw (d, t) same
          | inr t ↦
              rw (d, t)
                (ap (shown fibers) (lookup-place edge j slot bound.slots)
                  ∙ shown-placed fibers edge j slot bound.slots (rw (d, t) at h) t
                  ∙ same)
        ]
      ]

  pub exact-cases :
      (occurrence : ℕ) (o : Option (ServiceSlot Payload))
      → ((exact occurrence o ≡ none)
          ⊎ ((slot : ServiceSlot Payload) × (exact occurrence o ≡ some slot)
              × (o ≡ some slot)
              × (slot.occurrence ≡ occurrence)))
  exact-cases occurrence none = inl refl
  exact-cases occurrence (some slot) = elim (Bool-cases (nat_eq slot.occurrence occurrence)) [
    | inl b ↦ inr (slot, rw b refl, refl, (nat_eq_iff slot.occurrence occurrence).0 b)
    | inr b ↦ inl (rw b refl)
  ]

  -- The owner that a publication handle names is the one of its occurrence.
  abbrev pub Owns : ℕ → ℕ → Edge → ServiceState Payload → Type 0
  Owns owner occurrence edge state =
      (slot : ServiceSlot Payload)
      → lookup edge state.slots ≡ some slot
      → slot.occurrence ≡ occurrence
      → slot.fiber ≡ owner

  shown-removed :
      (fibers : Fibers) (edge j : Edge) (slots : List (Edge × ServiceSlot Payload))
      → contains (drift_if false (edge ∷ [])) j ≡ false
      → shown fibers (lookup edge slots) ≡ none
      → shown fibers (lookup j (remove edge slots)) ≡ shown fibers (lookup j slots)
  unfolding shown
  shown-removed fibers edge j slots h k =
      ap (shown fibers) (lookup-remove edge j slots) ∙ elim (beq_cases edge j) [
        | inl (b, q) ↦ rw b (sym (subst (λ x. shown fibers (lookup x slots) ≡ none) q k))
        | inr (b, q) ↦ rw b refl
      ]

  -- A removal by the owner of the occurrence, accepted or refused, moves a visible publication only
  -- at the edges of the drift that it commits.
  remove_exact-Unmoved :
      (fibers : Fibers) (edge : Edge) (occurrence owner : ℕ) (state : ServiceState Payload)
      → Owns owner occurrence edge state
      → Unmoved
          (drift_of (remove_exact fibers edge occurrence owner state).0)
          fibers
          state
          fibers
          (remove_exact fibers edge occurrence owner state).1
  unfolding remove_exact occurrence_id shown
  remove_exact-Unmoved fibers edge occurrence owner state w j h =
      elim (exact-cases occurrence (lookup edge state.slots)) [
        | inl e ↦ rw (e, remove_exact) refl
        | inr (slot, e, l, q) ↦ elim (Bool-cases (admits (lookup owner fibers))) [
          | inr a ↦ rw (e, remove_exact, a) refl
          | inl a ↦ elim (Bool-cases (acts (lookup owner fibers))) [
            | inr b ↦
                rw (e, remove_exact, a)
                  (shown-removed fibers edge j state.slots refl
                    (ap (shown fibers) l ∙ unseen slot (w slot l q) b))
            | inl b ↦
                rw (e, remove_exact, a)
                  (ap (shown fibers) (lookup-remove edge j state.slots)
                    ∙ beside (edge == j) refl (rw (e, remove_exact, a, b) at h))
          ]
        ]
      ]
    where
      unseen :
          (slot : ServiceSlot Payload)
          → slot.fiber ≡ owner
          → acts (lookup owner fibers) ≡ false
          → shown fibers (some slot) ≡ none
      unseen slot q b = rw (shows-acts (lookup slot.fiber fibers) (rw q b)) refl

      beside :
          (b : Bool)
          → (edge == j) ≡ b
          → contains (edge ∷ []) j ≡ false
          → shown fibers (if edge == j then none else lookup j state.slots)
            ≡ shown fibers (lookup j state.slots)
      beside true q k = absurd (ground arith)
      beside false q k = rw q refl

  lookup-owned :
      (fiber : ℕ) (j : Edge) (slot : ServiceSlot Payload)
      (slots : List (Edge × ServiceSlot Payload))
      → lookup j slots ≡ some slot
      → nat_eq slot.fiber fiber ≡ true
      → contains (map (λ s. s.0) (filter (λ s. nat_eq s.1.fiber fiber) slots)) j ≡ true
  lookup-owned fiber j slot [] l q = absurd (ground arith)
  lookup-owned fiber j slot ((k, s) ∷ slots) l q = elim (Bool-cases (k == j)) [
    | inl b ↦ ground arith
    | inr b ↦ ground (arith, lookup-owned fiber j slot slots)
  ]

  -- A transition of a Fiber moves a visible publication only at the edges of the drift that it
  -- commits: those of the slots that the Fiber owns.
  commit_fiber_transition-Unmoved :
      (fiber : ℕ) (next : FiberState) (state : ServiceState Payload) (fibers : Fibers)
      → Unmoved
          (commit_fiber_transition fiber next state fibers).0
          fibers
          state
          (commit_fiber_transition fiber next state fibers).1
          state
  unfolding commit_fiber_transition occurrence_id
  commit_fiber_transition-Unmoved fiber next state fibers j h =
      elim (Option-cases (lookup j state.slots)) [
        | inl e ↦ rw e refl
        | inr (slot, e) ↦
            rw
              (
                e,
                lookup-set_state fiber slot.fiber next (lookup fiber fibers) fibers (other slot e),
              )
              refl
      ]
    where
      other :
          (slot : ServiceSlot Payload)
          → lookup j state.slots ≡ some slot
          → nat_eq slot.fiber fiber ≡ false
      other slot e = elim (Bool-cases (nat_eq slot.fiber fiber)) [
        | inl b ↦ absurd (ground (arith, lookup-owned fiber j slot state.slots e b, h))
        | inr b ↦ b
      ]

  -- The drift that a commit reports, and what it leaves.
  pub commit :
      Commit Payload → Fibers → ServiceState Payload → List Edge × Fibers × ServiceState Payload
  commit (installs slot edge) fibers state =
      let (answer, state') = install fibers slot.fiber slot edge state in
      (drift_of answer, fibers, state')
  commit (removes edge occurrence owner) fibers state =
      let (answer, state') = remove_exact fibers edge occurrence owner state in
      (drift_of answer, fibers, state')
  commit (transitions fiber next) fibers state =
      let (drift, fibers') = commit_fiber_transition fiber next state fibers in
      (drift, fibers', state)

  abbrev pub IsOwned : Commit Payload → ServiceState Payload → Type 0
  IsOwned (installs slot edge) state = Unit
  IsOwned (removes edge occurrence owner) state = Owns owner occurrence edge state
  IsOwned (transitions fiber next) state = Unit

  -- No visible publication changes behind the back of its dependents: a commit, accepted or refused,
  -- whose handle names the owner of its occurrence moves a visible publication only at the edges of
  -- the drift that it reports.
  pub commit-Unmoved :
      (c : Commit Payload) (fibers : Fibers) (state : ServiceState Payload)
      → IsOwned c state
      → Unmoved
          (commit c fibers state).0
          fibers
          state
          (commit c fibers state).1
          (commit c fibers state).2
  unfolding commit
  commit-Unmoved (installs slot edge) fibers state w = install-Unmoved fibers slot edge state
  commit-Unmoved (removes edge occurrence owner) fibers state w =
      remove_exact-Unmoved fibers edge occurrence owner state w
  commit-Unmoved (transitions fiber next) fibers state w =
      commit_fiber_transition-Unmoved fiber next state fibers
