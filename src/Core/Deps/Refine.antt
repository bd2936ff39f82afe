-- ===== src/Core/Deps/Refine.antt =====
-- deps.rs: the answers of the index are those of a scan of the registered Fibers.
use mathlib.Core.Option
use cordis_rs.Base.{
  ℕ, ◌≡◌, refl, sym, ap, subst, ◌∙◌, inl, inr, Bool, true, false, not, ◌&&◌, ◌||◌, none, some, List,
  [], ◌∷◌, ◌++◌, arith, String_eq, ℕ_eq, pair_eq, ◌==◌, beq_refl, beq_cases, Bool-cases,
  Option-cases, if◌then◌else◌, nat_eq, lookup, insert, remove, lookup-insert, lookup-remove, filter,
  contains, contains-append, any, Distinct, All,
}
use cordis_rs.Core.Services.{Edge}
use cordis_rs.Core.Deps.{
  Reverse, row, push_all, put_row, retain_row, retain_all, prune_row, emptied_row, upgrade_all,
  remove_all, unique,
}

row-insert :
    (edge j : Edge) (ids : List ℕ) (reverse : Reverse)
    → row j (insert edge ids reverse) ≡ (if edge == j then ids else row j reverse)
row-insert edge j ids reverse =
    ap (λ o. Option.get_or o []) (lookup-insert edge j ids reverse)
    ∙ elim (Bool-cases (edge == j)) [ inl b ↦ rw b refl | inr b ↦ rw b refl ]

row-remove :
    (edge j : Edge) (reverse : Reverse)
    → row j (remove edge reverse) ≡ (if edge == j then [] else row j reverse)
row-remove edge j reverse =
    ap (λ o. Option.get_or o []) (lookup-remove edge j reverse)
    ∙ elim (Bool-cases (edge == j)) [ inl b ↦ rw b refl | inr b ↦ rw b refl ]

contains-filter :
    (keep : ℕ → Bool) (ids : List ℕ) (id : ℕ)
    → contains (filter keep ids) id ≡ (contains ids id && keep id)
contains-filter keep [] id = refl
contains-filter keep (d ∷ ids) id = elim (beq_cases d id) [
  | inl (b, q) ↦ elim (Bool-cases (keep d)) [
    | inl k ↦ rw (b, k, subst (λ x. keep x ≡ true) q k) (ground arith)
    | inr k ↦ rw (b, k, contains-filter keep ids id, subst (λ x. keep x ≡ false) q k) (ground arith)
  ]
  | inr (b, q) ↦ elim (Bool-cases (keep d)) [
    | inl k ↦ rw (k, contains-filter keep ids id, b) refl
    | inr k ↦ rw (k, contains-filter keep ids id, b) refl
  ]
]

-- Whether the index has the Fiber under the edge.
abbrev pub holds : Edge → ℕ → Reverse → Bool
holds edge id reverse = contains (row edge reverse) id

-- After registering, `id` stands under its edges, and nothing else has changed.
pub push_all-holds :
    (id : ℕ) (edges : List Edge) (reverse : Reverse) (j : Edge) (d : ℕ)
    → holds j d (push_all id edges reverse) ≡ (holds j d reverse || (contains edges j && id == d))
push_all-holds id [] reverse j d = ground arith
push_all-holds id (edge ∷ edges) reverse j d =
    push_all-holds id edges (insert edge (row edge reverse ++ (id ∷ [])) reverse) j d
    ∙ pushed (row-insert edge j (row edge reverse ++ (id ∷ [])) reverse)
  where
    pushed :
        row j (insert edge (row edge reverse ++ (id ∷ [])) reverse)
          ≡ (if edge == j then row edge reverse ++ (id ∷ []) else row j reverse)
        → (holds j d (insert edge (row edge reverse ++ (id ∷ [])) reverse)
            || (contains edges j && id == d))
          ≡ (holds j d reverse || ((edge == j || contains edges j) && id == d))
    pushed e = elim (beq_cases edge j) [
      | inl (b, q) ↦
          let here : contains (row edge reverse) d ≡ contains (row j reverse) d =
            ap (λ x. contains (row x reverse) d) q in
          rw (e, b, contains-append d (row edge reverse) (id ∷ []), here) (ground arith)
      | inr (b, q) ↦ rw (e, b) refl
    ]

put_row-holds :
    (edge j : Edge) (ids : List ℕ) (reverse : Reverse)
    → row j (put_row edge ids reverse) ≡ (if edge == j then ids else row j reverse)
put_row-holds edge j [] reverse = row-remove edge j reverse
put_row-holds edge j (id ∷ ids) reverse = row-insert edge j (id ∷ ids) reverse

retain_row-holds :
    (edge j : Edge) (keep : ℕ → Bool) (reverse : Reverse) (d : ℕ)
    → holds j d (retain_row edge (lookup edge reverse) keep reverse)
      ≡ (holds j d reverse && (not (edge == j) || keep d))
retain_row-holds edge j keep reverse d = elim (Option-cases (lookup edge reverse)) [
  | inl e ↦ rw e (elim (beq_cases edge j) [
    | inl (b, q) ↦
        let none_here : lookup j reverse ≡ none = subst (λ x. lookup x reverse ≡ none) q e in
        rw none_here refl
    | inr (b, q) ↦ rw b (ground arith)
  ])
  | inr (list, e) ↦ rw e (
      ap (λ r. contains r d) (put_row-holds edge j (filter keep list) reverse)
      ∙ elim (beq_cases edge j) [
        | inl (b, q) ↦
            let here : lookup j reverse ≡ some list =
              subst (λ x. lookup x reverse ≡ some list) q e in
            rw (b, here) (contains-filter keep list d)
        | inr (b, q) ↦ rw b (ground arith)
      ])
]

-- After unregistering, `id` stands under none of its edges, and nothing else has changed.
pub retain_all-holds :
    (id : ℕ) (edges : List Edge) (reverse : Reverse) (j : Edge) (d : ℕ)
    → holds j d (retain_all id edges reverse)
      ≡ (holds j d reverse && not (contains edges j && nat_eq d id))
retain_all-holds id [] reverse j d = ground arith
retain_all-holds id (edge ∷ edges) reverse j d =
    retain_all-holds id edges
      (retain_row edge (lookup edge reverse) (λ x. not (nat_eq x id)) reverse) j d
    ∙ rw (retain_row-holds edge j (λ x. not (nat_eq x id)) reverse d) (ground arith)

prune_row-holds :
    (upgrades : ℕ → Bool) (edge j : Edge) (reverse : Reverse) (d : ℕ)
    → upgrades d ≡ true
    → holds j d (prune_row upgrades edge (lookup edge reverse) reverse).1 ≡ holds j d reverse
prune_row-holds upgrades edge j reverse d u = elim (Option-cases (lookup edge reverse)) [
  | inl e ↦ rw e refl
  | inr (list, e) ↦ rw e (
      ap (λ r. contains r d) (row-insert edge j (filter upgrades list) reverse)
      ∙ elim (beq_cases edge j) [
        | inl (b, q) ↦
            let here : lookup j reverse ≡ some list =
              subst (λ x. lookup x reverse ≡ some list) q e in
            rw (b, here) (contains-filter upgrades list d ∙ rw u (ground arith))
        | inr (b, q) ↦ rw b refl
      ])
]

prune_row-upgraded :
    (upgrades : ℕ → Bool) (edge : Edge) (reverse : Reverse) (d : ℕ)
    → contains (prune_row upgrades edge (lookup edge reverse) reverse).0 d
      ≡ (holds edge d reverse && upgrades d)
prune_row-upgraded upgrades edge reverse d = elim (Option-cases (lookup edge reverse)) [
  | inl e ↦ rw e refl
  | inr (list, e) ↦ rw e (contains-filter upgrades list d)
]

-- An empty row stays empty, and an edge noted as emptied has one.
prune_row_empty :
    (upgrades : ℕ → Bool) (edge j : Edge) (reverse : Reverse)
    → row j reverse ≡ []
    → row j (prune_row upgrades edge (lookup edge reverse) reverse).1 ≡ []
prune_row_empty upgrades edge j reverse h = elim (Option-cases (lookup edge reverse)) [
  | inl e ↦ rw e h
  | inr (list, e) ↦ rw e (
      row-insert edge j (filter upgrades list) reverse ∙ elim (beq_cases edge j) [
        | inl (b, q) ↦
            let here : lookup j reverse ≡ some list =
              subst (λ x. lookup x reverse ≡ some list) q e in
            rw (b, rw here at h) refl
        | inr (b, q) ↦ rw b h
      ])
]

prune_row_emptied :
    (upgrades : ℕ → Bool) (edge : Edge) (list : List ℕ) (reverse : Reverse)
    → filter upgrades list ≡ []
    → row edge (prune_row upgrades edge (some list) reverse).1 ≡ []
prune_row_emptied upgrades edge list reverse h =
    row-insert edge edge (filter upgrades list) reverse ∙ rw (beq_refl edge, h) refl

upgrade_all_empty :
    (upgrades : ℕ → Bool) (edges : List Edge) (reverse : Reverse) (j : Edge)
    → row j reverse ≡ []
    → row j (upgrade_all upgrades edges reverse).2 ≡ []
upgrade_all_empty upgrades [] reverse j h = h
upgrade_all_empty upgrades (edge ∷ edges) reverse j h =
    upgrade_all_empty upgrades edges (prune_row upgrades edge (lookup edge reverse) reverse).1 j
      (prune_row_empty upgrades edge j reverse h)

pub upgrade_all-holds :
    (upgrades : ℕ → Bool) (edges : List Edge) (reverse : Reverse) (j : Edge) (d : ℕ)
    → upgrades d ≡ true
    → holds j d (upgrade_all upgrades edges reverse).2 ≡ holds j d reverse
upgrade_all-holds upgrades [] reverse j d u = refl
upgrade_all-holds upgrades (edge ∷ edges) reverse j d u =
    upgrade_all-holds upgrades edges (prune_row upgrades edge (lookup edge reverse) reverse).1 j d u
    ∙ prune_row-holds upgrades edge j reverse d u

-- A dependent that upgrades is in the answer when it stands under a requested edge, and no other.
pub upgrade_all-upgraded :
    (upgrades : ℕ → Bool) (edges : List Edge) (reverse : Reverse) (d : ℕ)
    → contains (upgrade_all upgrades edges reverse).0 d
      ≡ (upgrades d && any (λ e. holds e d reverse) edges)
upgrade_all-upgraded upgrades [] reverse d = ground arith
upgrade_all-upgraded upgrades (edge ∷ edges) reverse d =
    let (upgraded, pruned) = prune_row upgrades edge (lookup edge reverse) reverse in
    contains-append d upgraded (upgrade_all upgrades edges pruned).0
    ∙ rw (prune_row-upgraded upgrades edge reverse d, upgrade_all-upgraded upgrades edges pruned d)
        (elim (Bool-cases (upgrades d)) [
          | inl u ↦
              rw (u, any-same (λ e. prune_row-holds upgrades edge e reverse d u) edges)
                (ground arith)
          | inr u ↦ rw u (ground arith)
        ])
  where
    any-same :
        {p q : Edge → Bool} → ((e : Edge) → p e ≡ q e) → (es : List Edge) → any p es ≡ any q es
    any-same h [] = refl
    any-same h (e ∷ es) = rw (h e, any-same h es) refl

pub upgrade_all-emptied :
    (upgrades : ℕ → Bool) (edges : List Edge) (reverse : Reverse)
    → All
        (λ e. row e (upgrade_all upgrades edges reverse).2 ≡ [])
        (upgrade_all upgrades edges reverse).1
upgrade_all-emptied upgrades [] reverse = tt
upgrade_all-emptied upgrades (edge ∷ edges) reverse = elim (Option-cases (lookup edge reverse)) [
  | inl e ↦ rw e (upgrade_all-emptied upgrades edges reverse)
  | inr (list, e) ↦ rw e (
      noted list (filter upgrades list) refl
        (upgrade_all-emptied upgrades edges (insert edge (filter upgrades list) reverse)))
]
  where
    noted :
        (list ids : List ℕ)
        → filter upgrades list ≡ ids
        → All
            (λ e.
              row e (upgrade_all upgrades edges (insert edge (filter upgrades list) reverse)).2
              ≡ [])
            (upgrade_all upgrades edges (insert edge (filter upgrades list) reverse)).1
        → All
            (λ e.
              row e (upgrade_all upgrades edges (insert edge (filter upgrades list) reverse)).2
              ≡ [])
            (emptied_row edge
              (some list)
              ids
              (upgrade_all upgrades edges (insert edge (filter upgrades list) reverse)).1)
    noted list [] h a = (
      upgrade_all_empty upgrades edges (insert edge (filter upgrades list) reverse) edge
          (prune_row_emptied upgrades edge list reverse h),
      a,
    )
    noted list (id ∷ ids) h a = a

pub remove_all-row :
    (edges : List Edge) (reverse : Reverse) (j : Edge)
    → All (λ e. row e reverse ≡ []) edges
    → row j (remove_all edges reverse) ≡ row j reverse
remove_all-row [] reverse j a = refl
remove_all-row (edge ∷ edges) reverse j a =
    remove_all-row edges (remove edge reverse) j (kept edges a.1) ∙ same j
  where
    same : (k : Edge) → row k (remove edge reverse) ≡ row k reverse
    same k = row-remove edge k reverse ∙ elim (beq_cases edge k) [
      | inl (b, q) ↦ rw b (sym (subst (λ x. row x reverse ≡ []) q a.0))
      | inr (b, q) ↦ rw b refl
    ]

    kept :
        (es : List Edge)
        → All (λ e. row e reverse ≡ []) es
        → All (λ e. row e (remove edge reverse) ≡ []) es
    kept [] h = tt
    kept (e ∷ es) h = (same e ∙ h.0, kept es h.1)

pub unique-contains :
    (seen ids : List ℕ) (d : ℕ)
    → contains (unique seen ids) d ≡ (contains ids d && not (contains seen d))
unique-contains seen [] d = refl
unique-contains seen (id ∷ ids) d = elim (Bool-cases (contains seen id)) [
  | inl s ↦
      rw (s, unique-contains seen ids d)
        (elim (beq_cases id d) [
          | inl (b, q) ↦ rw (b, subst (λ x. contains seen x ≡ true) q s) (ground arith)
          | inr (b, q) ↦ rw b refl
        ])
  | inr s ↦
      rw (s, unique-contains (id ∷ seen) ids d)
        (elim (beq_cases id d) [
          | inl (b, q) ↦ rw (b, subst (λ x. contains seen x ≡ false) q s) (ground arith)
          | inr (b, q) ↦ rw b (ground arith)
        ])
]

pub unique-Distinct : (seen ids : List ℕ) → Distinct (unique seen ids)
unique-Distinct seen [] = tt
unique-Distinct seen (id ∷ ids) = elim (Bool-cases (contains seen id)) [
  | inl s ↦ rw s (unique-Distinct seen ids)
  | inr s ↦ rw s (
    unique-contains (id ∷ seen) ids id ∙ rw (beq_refl id) (ground arith),
    unique-Distinct (id ∷ seen) ids,
  )
]
