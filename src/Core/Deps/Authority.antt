-- ===== src/Core/Deps/Authority.antt =====
-- deps.rs: through any use of the index, its answers are those of a scan of the Fibers registered.
use cordis_rs.Base.{
  ℕ, ◌≡◌, refl, ap, subst, ◌∙◌, inl, inr, Bool, true, false, not, ◌&&◌, Option, none, some, List,
  [], ◌∷◌, arith, String_eq, ℕ_eq, pair_eq, Bool-cases, if◌then◌else◌, nat_eq, nat_eq_iff, filter,
  contains, any, Distinct, beq_cases,
}
use cordis_rs.Core.Services.{Edge}
use cordis_rs.Core.Deps.{
  DependencyIndex, new_index, register, unregister, upgrade_all, dependents_of,
}
use cordis_rs.Core.Deps.Refine.{
  holds, push_all-holds, retain_all-holds, upgrade_all-holds, upgrade_all-upgraded,
  upgrade_all-emptied, remove_all-row, unique-contains, unique-Distinct,
}

-- What happens to the index: a Fiber registers, alive or dead by then, unregisters, is dropped, or
-- its dependents are asked for.
pub data IndexOp : Type 0 where
  registers : (id : ℕ) → (alive : Bool) → IndexOp
  unregisters : (id : ℕ) → IndexOp
  drops : (id : ℕ) → IndexOp
  queries : List Edge → IndexOp

-- The Fibers registered alive and not unregistered since, and those dropped.
pub record Authority : Type 0 where
  pub registered : List ℕ
  pub dropped : List ℕ

abbrev pub no_fibers : Authority
no_fibers = record { registered = []; dropped = [] }

abbrev pub upgrades : Authority → ℕ → Bool
upgrades a id = not (contains a.dropped id)

module _ (edges_of : ℕ → List Edge) where
  pub use_index : DependencyIndex → Authority → List IndexOp → DependencyIndex × Authority
  use_index state a [] = (state, a)
  use_index state a (registers id alive ∷ ops) =
      use_index (register id alive (edges_of id) state)
        (record a { registered = if alive then id ∷ a.registered else a.registered }) ops
  use_index state a (unregisters id ∷ ops) =
      use_index (unregister id (edges_of id) state)
        (record a { registered = filter (λ d. not (nat_eq d id)) a.registered }) ops
  use_index state a (drops id ∷ ops) = use_index state (record a { dropped = id ∷ a.dropped }) ops
  use_index state a (queries edges ∷ ops) =
      use_index (dependents_of (upgrades a) edges state).1 a ops

  -- Whether a scan of the registered Fibers finds this one, for a row of edges.
  abbrev pub scans : Authority → List Edge → ℕ → Bool
  scans a edges id =
      upgrades a id && contains a.registered id && any (λ e. contains (edges_of id) e) edges

  abbrev Agrees : DependencyIndex → Authority → Type 0
  Agrees state a =
      (state.complete ≡ true)
      × ((j : Edge) (d : ℕ)
          → upgrades a d ≡ true
          → holds j d state.reverse ≡ (contains a.registered d && contains (edges_of d) j))

  contains-without :
      (id d : ℕ) (ids : List ℕ)
      → contains (filter (λ x. not (nat_eq x id)) ids) d ≡ (contains ids d && not (nat_eq d id))
  contains-without id d [] = refl
  contains-without id d (x ∷ ids) = elim (beq_cases x d) [
    | inl (b, q) ↦ elim (Bool-cases (nat_eq x id)) [
      | inl k ↦
          rw (k, contains-without id d ids, b, subst (λ z. nat_eq z id ≡ true) q k) (ground arith)
      | inr k ↦ rw (k, b, subst (λ z. nat_eq z id ≡ false) q k) (ground arith)
    ]
    | inr (b, q) ↦ elim (Bool-cases (nat_eq x id)) [
      | inl k ↦ rw (k, contains-without id d ids, b) refl
      | inr k ↦ rw (k, contains-without id d ids, b) refl
    ]
  ]

  register-Agrees :
      (id : ℕ) (alive : Bool) (state : DependencyIndex) (a : Authority)
      → Agrees state a
      → Agrees
          (register id alive (edges_of id) state)
          (record a { registered = if alive then id ∷ a.registered else a.registered })
  unfolding register
  register-Agrees id false state a h = rw (h.0) (refl, h.1)
  register-Agrees id true state a h = rw (h.0) (
    refl,
    λ j d u.
        push_all-holds id (edges_of id) state.reverse j d
        ∙ rw (h.1 j d u) (elim (beq_cases id d) [
          | inl (b, q) ↦
              let same : contains (edges_of id) j ≡ contains (edges_of d) j =
                ap (λ x. contains (edges_of x) j) q in
              rw (b, same) (ground arith)
          | inr (b, q) ↦ rw b (ground arith)
        ]),
  )

  unregister-Agrees :
      (id : ℕ) (state : DependencyIndex) (a : Authority)
      → Agrees state a
      → Agrees
          (unregister id (edges_of id) state)
          (record a { registered = filter (λ d. not (nat_eq d id)) a.registered })
  unfolding unregister
  unregister-Agrees id state a h = (
    h.0,
    λ j d u.
        retain_all-holds id (edges_of id) state.reverse j d
        ∙ rw (h.1 j d u, contains-without id d a.registered)
            (elim (Bool-cases (nat_eq d id)) [
              | inl b ↦
                  let same : contains (edges_of d) j ≡ contains (edges_of id) j =
                    ap (λ x. contains (edges_of x) j) ((nat_eq_iff d id).0 b) in
                  rw (b, same) (ground arith)
              | inr b ↦ rw b (ground arith)
            ]),
  )

  drop-Agrees :
      (id : ℕ) (state : DependencyIndex) (a : Authority)
      → Agrees state a
      → Agrees state (record a { dropped = id ∷ a.dropped })
  drop-Agrees id state a h = (h.0, λ j d u. h.1 j d (ground arith))

  query-Agrees :
      (edges : List Edge) (state : DependencyIndex) (a : Authority)
      → Agrees state a
      → Agrees (dependents_of (upgrades a) edges state).1 a
  unfolding dependents_of
  query-Agrees edges state a h = rw (h.0) (
    refl,
    λ j d u.
        ap (λ r. contains r d)
          (remove_all-row (upgrade_all (upgrades a) edges state.reverse).1
            (upgrade_all (upgrades a) edges state.reverse).2 j
            (upgrade_all-emptied (upgrades a) edges state.reverse))
        ∙ upgrade_all-holds (upgrades a) edges state.reverse j d u
        ∙ h.1 j d u,
  )

  use_index-Agrees :
      (ops : List IndexOp) (state : DependencyIndex) (a : Authority)
      → Agrees state a
      → Agrees (use_index state a ops).0 (use_index state a ops).1
  unfolding use_index
  use_index-Agrees [] state a h = h
  use_index-Agrees (registers id alive ∷ ops) state a h =
      use_index-Agrees ops (register id alive (edges_of id) state)
        (record a { registered = if alive then id ∷ a.registered else a.registered })
        (register-Agrees id alive state a h)
  use_index-Agrees (unregisters id ∷ ops) state a h =
      use_index-Agrees ops (unregister id (edges_of id) state)
        (record a { registered = filter (λ d. not (nat_eq d id)) a.registered })
        (unregister-Agrees id state a h)
  use_index-Agrees (drops id ∷ ops) state a h =
      use_index-Agrees ops state (record a { dropped = id ∷ a.dropped }) (drop-Agrees id state a h)
  use_index-Agrees (queries edges ∷ ops) state a h =
      use_index-Agrees ops (dependents_of (upgrades a) edges state).1 a
        (query-Agrees edges state a h)

  abbrev pub IsScan : Authority → List Edge → Option (List ℕ) → Type 0
  IsScan a edges none = true ≡ false
  IsScan a edges (some ids) = Distinct ids × ((id : ℕ) → contains ids id ≡ scans a edges id)

  query-IsScan :
      (edges : List Edge) (state : DependencyIndex) (a : Authority)
      → Agrees state a
      → IsScan a edges (dependents_of (upgrades a) edges state).0
  unfolding dependents_of
  query-IsScan edges state a h = rw (h.0) (
    unique-Distinct [] (upgrade_all (upgrades a) edges state.reverse).0,
    λ d.
        unique-contains [] (upgrade_all (upgrades a) edges state.reverse).0 d
        ∙ rw (upgrade_all-upgraded (upgrades a) edges state.reverse d)
            (elim (Bool-cases (upgrades a d)) [
              | inl u ↦ rw (u, any-declared d u edges) (ground arith)
              | inr u ↦ rw u refl
            ]),
  )
    where
      any-declared :
          (d : ℕ)
          → upgrades a d ≡ true
          → (es : List Edge)
          → any (λ e. holds e d state.reverse) es
            ≡ (contains a.registered d && any (λ e. contains (edges_of d) e) es)
      any-declared d u [] = ground arith
      any-declared d u (e ∷ es) = rw (h.1 e d u, any-declared d u es) (ground arith)

  -- After any use of a new index, registrations of dead Fibers, drops and earlier queries included,
  -- the dependents of a row of edges are the Fibers that a scan of those registered and not dropped
  -- finds with one of the edges, each once.
  pub use_index-IsScan :
      (ops : List IndexOp) (edges : List Edge)
      → IsScan
          (use_index new_index no_fibers ops).1
          edges
          (dependents_of
            (upgrades (use_index new_index no_fibers ops).1)
            edges
            (use_index new_index no_fibers ops).0).0
  use_index-IsScan ops edges =
      let (state, a) = use_index new_index no_fibers ops in
      query-IsScan edges state a (use_index-Agrees ops new_index no_fibers (refl, λ j d u. refl))
