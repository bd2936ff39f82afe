-- ===== src/Loader/Plan/Build.antt =====
-- plan.rs, `LoadPlanBuilder`: what every sequence of additions keeps, and why `finish` succeeds.
use mathlib.Core.Option.{some-injective}
use cordis_rs.Base.{
  get_elem?, ℕ, zero, suc, ◌+◌, ◌≤◌, ◌<◌, ◌≡◌, refl, subst, ◌⊎◌, inl, inr, true, false, ◌&&◌, ◌||◌,
  Option, none, some, List, [], ◌∷◌, ◌++◌, arith, ◌==◌, contains, Result, ok, err, Result-cases,
  any, All, All-append, All-map,
}
use cordis_rs.Loader.Plan.{
  EntryId, EntryId_eq, PluginEntry, EntryGroup, PlanError, PlanEntry, plugin, group, PlanNode,
  LoadPlanBuilder, is_parent_capable, validate_plugin, validate_parent, push, add_plugin, add_group,
  check_parent, check_entry, validate_nodes, validate_complete, finish, new_builder, new_entry_id,
}
use cordis_rs.Loader.Plan.Duplicates.{IsDeclarable, validate_plugin-ok_iff}

-- A parent is the identity of an earlier node, and of this lineage.
abbrev pub ParentIn : ℕ → List EntryId → Option EntryId → Type 0
ParentIn lineage seen none = Unit
ParentIn lineage seen (some p) = (p.lineage ≡ lineage) × (contains seen p ≡ true)

check_parent-ok :
    (lineage : ℕ) (seen : List EntryId) (parent : Option EntryId)
    → ParentIn lineage seen parent
    → check_parent lineage seen parent ≡ ok tt
unfolding check_parent
check_parent-ok lineage seen none h = refl
check_parent-ok lineage seen (some p) h = ground arith

module _ {Value : Type 0} where
  abbrev pub Declares : PlanEntry Value → Type 0
  Declares (plugin entry) = IsDeclarable entry
  Declares group = Unit

  -- The nodes in order of their admission: each has a fresh identity of the lineage, a parent
  -- among those before it, and a declaration that passes.
  abbrev pub IsOrdered : ℕ → List EntryId → List (PlanNode Value) → Type 0
  IsOrdered lineage seen [] = Unit
  IsOrdered lineage seen (n ∷ ns) =
      (n.id.lineage ≡ lineage)
      × (contains seen n.id ≡ false)
      × ParentIn lineage seen n.parent
      × Declares n.entry
      × IsOrdered lineage (n.id ∷ seen) ns

  -- The identities seen after a run of nodes.
  abbrev after : List EntryId → List (PlanNode Value) → List EntryId
  after seen [] = seen
  after seen (n ∷ ns) = after (n.id ∷ seen) ns

  IsOrdered-push :
      (lineage : ℕ) (seen : List EntryId) (ns : List (PlanNode Value)) (n : PlanNode Value)
      → IsOrdered lineage seen ns
      → IsOrdered lineage (after seen ns) (n ∷ [])
      → IsOrdered lineage seen (ns ++ (n ∷ []))
  IsOrdered-push lineage seen [] n h k = k
  IsOrdered-push lineage seen (m ∷ ns) n h k =
      (h.0, h.1, h.2, h.3, IsOrdered-push lineage (m.id ∷ seen) ns n h.4 k)

  contains-after :
      (seen : List EntryId) (ns : List (PlanNode Value)) (p : EntryId)
      → contains (after seen ns) p ≡ (any (λ n. n.id == p) ns || contains seen p)
  contains-after seen [] p = refl
  contains-after seen (n ∷ ns) p = ground (arith, contains-after (n.id ∷ seen) ns p)

  -- Every occurrence in the plan was allocated before `next`.
  abbrev pub Allocated : ℕ → List (PlanNode Value) → Type 0
  Allocated next = All (λ n. n.id.occurrence < next)

  not-any_of_Allocated :
      (next : ℕ) (ns : List (PlanNode Value)) (p : EntryId)
      → next ≤ p.occurrence
      → Allocated next ns
      → any (λ n. n.id == p) ns ≡ false
  not-any_of_Allocated next [] p h a = refl
  not-any_of_Allocated next (n ∷ ns) p h a = ground (arith, not-any_of_Allocated next ns p h a.1)

  pub record IsPlan (b : LoadPlanBuilder Value) (next : ℕ) : Type 0 where
    pub ordered : IsOrdered b.lineage [] b.nodes
    pub allocated : Allocated next b.nodes

  capable : (e : PlanEntry Value) → is_parent_capable e ≡ true
  capable (plugin entry) = refl
  capable group = refl

  any-capable :
      (ns : List (PlanNode Value)) (p : EntryId)
      → any (λ n. n.id == p && is_parent_capable n.entry) ns ≡ any (λ n. n.id == p) ns
  any-capable [] p = refl
  any-capable (n ∷ ns) p = ground (arith, any-capable ns p, capable n.entry)

  validate_parent-ParentIn :
      (b : LoadPlanBuilder Value) (parent : Option EntryId)
      → validate_parent b parent ≡ ok tt
      → ParentIn b.lineage (after [] b.nodes) parent
  unfolding validate_parent
  validate_parent-ParentIn b none h = tt
  validate_parent-ParentIn b (some p) h =
      ground (arith, any-capable b.nodes p, contains-after [] b.nodes p)

  push-IsPlan :
      (b : LoadPlanBuilder Value) (parent : Option EntryId) (entry : PlanEntry Value) (next : ℕ)
      → IsPlan b next
      → validate_parent b parent ≡ ok tt
      → Declares entry
      → IsPlan
          (push b (record { id = (new_entry_id b.lineage next).0; parent = parent; entry = entry }))
          (next + 1)
  push-IsPlan b parent entry next v p d = record {
    ordered = IsOrdered-push b.lineage [] b.nodes _ v.ordered (
      refl,
      rw (contains-after [] b.nodes (record { lineage = b.lineage; occurrence = next })) (
          rw (
            not-any_of_Allocated next b.nodes (record { lineage = b.lineage; occurrence = next })
              (omega arith) v.allocated)),
      validate_parent-ParentIn b parent p,
      d,
      tt,
    );
    allocated =
        All-append _ b.nodes _
          (All-map (λ n. n.id.occurrence < next) (λ n. n.id.occurrence < next + 1) b.nodes
            (λ n h. omega arith) v.allocated)
          (omega arith, tt);
  }

  pub new_builder-IsPlan :
      (next : ℕ) → IsPlan (new_builder {Value = Value} next).0 (new_builder {Value = Value} next).1
  unfolding new_builder
  new_builder-IsPlan next = record { ordered = tt; allocated = tt }

  -- An addition either admits one node, with an identity that no node of the plan has, or leaves
  -- the builder as it was and reports what the validation of the parent or of the row reports.
  abbrev pub Adds :
      LoadPlanBuilder Value
      → Option EntryId
      → PlanEntry Value
      → Result EntryId PlanError × LoadPlanBuilder Value × ℕ
      → Type 0
  Adds b parent entry (ok id, b', next') =
      (any (λ n. n.id == id) b.nodes ≡ false)
      × (b' ≡ push b (record { id = id; parent = parent; entry = entry }))
      × (validate_parent b parent ≡ ok tt)
      × Declares entry
  Adds b parent entry (err e, b', next') =
      (b' ≡ b)
      × ((validate_parent b parent ≡ err e) ⊎ ((id : EntryId) × (check_entry id entry ≡ err e)))

  module _ (b : LoadPlanBuilder Value) (parent : Option EntryId) (next : ℕ)
      (v : IsPlan b next) where
    abbrev fresh : EntryId
    fresh = (new_entry_id b.lineage next).0

    fresh-new : any (λ n. n.id == fresh) b.nodes ≡ false
    fresh-new = not-any_of_Allocated next b.nodes fresh (omega arith) v.allocated

    -- With the invariant of the builder, `add_plugin` admits one node with a new identity, and then
    -- the declaration has passed, or leaves the builder as it was and reports a failed validation.
    pub add_plugin-Adds :
        (entry : PluginEntry Value) → Adds b parent (plugin entry) (add_plugin b parent entry next)
    unfolding add_plugin check_entry
    add_plugin-Adds entry = elim (Result-cases (validate_parent b parent)) [
      | inr (e, p) ↦ rw (p, add_plugin) (refl, inl p)
      | inl p ↦ elim (Result-cases (validate_plugin fresh entry)) [
        | inr (e, q) ↦ rw (p, add_plugin, q) (refl, inr (fresh, q))
        | inl q ↦
            rw (p, add_plugin, q) (fresh-new, refl, p, (validate_plugin-ok_iff fresh entry).0 q)
      ]
    ]

    -- With the invariant of the builder, `add_group` admits one node with a new identity, or leaves
    -- the builder as it was and reports the refused parent.
    add_group-Adds : (g : EntryGroup) → Adds b parent group (add_group b parent g next)
    unfolding add_group
    add_group-Adds g = elim (Result-cases (validate_parent b parent)) [
      | inr (e, p) ↦ rw (p, add_group) (refl, inl p)
      | inl p ↦ rw (p, add_group) (fresh-new, refl, p, tt)
    ]

    Allocated-suc : Allocated (next + 1) b.nodes
    Allocated-suc =
        All-map (λ n. n.id.occurrence < next) (λ n. n.id.occurrence < next + 1) b.nodes
          (λ n h. omega arith) v.allocated

    -- Every addition keeps the plan well formed, also one that is refused.
    pub add_plugin-IsPlan :
        (entry : PluginEntry Value)
        → IsPlan (add_plugin b parent entry next).1 (add_plugin b parent entry next).2
    unfolding add_plugin
    add_plugin-IsPlan entry = elim (Result-cases (validate_parent b parent)) [
      | inr (e, p) ↦ rw (p, add_plugin) v
      | inl p ↦ elim (Result-cases (validate_plugin fresh entry)) [
        | inr (e, q) ↦
            rw (p, add_plugin, q) (record { ordered = v.ordered; allocated = Allocated-suc })
        | inl q ↦
            rw (p, add_plugin, q)
              (push-IsPlan b parent (plugin entry) next v p
                ((validate_plugin-ok_iff fresh entry).0 q))
      ]
    ]

    pub add_group-IsPlan :
        (g : EntryGroup) → IsPlan (add_group b parent g next).1 (add_group b parent g next).2
    unfolding add_group
    add_group-IsPlan g = elim (Result-cases (validate_parent b parent)) [
      | inr (e, p) ↦ rw (p, add_group) v
      | inl p ↦ rw (p, add_group) (push-IsPlan b parent group next v p tt)
    ]

  pub get_elem?-Declares :
      (lineage : ℕ) (seen : List EntryId) (ns : List (PlanNode Value)) (i : ℕ) (n : PlanNode Value)
      → IsOrdered lineage seen ns
      → get_elem? ns i ≡ some n
      → Declares n.entry
  get_elem?-Declares lineage seen [] i n v h = cc
  get_elem?-Declares lineage seen (m ∷ ns) zero n v h =
      subst (λ x. Declares x.entry) (some-injective m n h) v.3
  get_elem?-Declares lineage seen (m ∷ ns) (suc i) n v h =
      get_elem?-Declares lineage (m.id ∷ seen) ns i n v.4 h

  check_entry-ok : (id : EntryId) (e : PlanEntry Value) → Declares e → check_entry id e ≡ ok tt
  unfolding check_entry
  check_entry-ok id group d = refl
  check_entry-ok id (plugin entry) d = (validate_plugin-ok_iff id entry).1 d

  validate_nodes-ok :
      (lineage : ℕ) (seen : List EntryId) (ns : List (PlanNode Value))
      → IsOrdered lineage seen ns
      → validate_nodes lineage seen ns ≡ ok tt
  unfolding validate_nodes
  validate_nodes-ok lineage seen [] h = refl
  validate_nodes-ok lineage seen (n ∷ ns) h =
      rw
        (
          check_parent-ok lineage seen n.parent h.2,
          check_entry-ok n.id n.entry h.3,
          capable n.entry,
        )
        (validate_nodes-ok lineage (n.id ∷ seen) ns h.4)

  pub finish-ok : (b : LoadPlanBuilder Value) (next : ℕ) → IsPlan b next → finish b ≡ ok b.nodes
  unfolding finish validate_complete
  finish-ok b next v = rw (validate_nodes-ok b.lineage [] b.nodes v.ordered)

-- The calls that a client can make on a builder, in any order and with any parent.
pub data Addition (Value : Type 0) : Type 0 where
  plugins : Option EntryId → PluginEntry Value → Addition Value
  groups : Option EntryId → EntryGroup → Addition Value

module _ {Value : Type 0} where
  unfoldable pub run : LoadPlanBuilder Value → ℕ → List (Addition Value) → LoadPlanBuilder Value × ℕ
  run b next [] = (b, next)
  run b next (plugins parent entry ∷ rest) =
      let r = add_plugin b parent entry next in run r.1 r.2 rest
  run b next (groups parent g ∷ rest) = let r = add_group b parent g next in run r.1 r.2 rest

  pub run-IsPlan :
      (b : LoadPlanBuilder Value) (next : ℕ) (rest : List (Addition Value))
      → IsPlan b next
      → IsPlan (run b next rest).0 (run b next rest).1
  unfolding run
  run-IsPlan b next [] v = v
  run-IsPlan b next (plugins parent entry ∷ rest) v =
      let r = add_plugin b parent entry next in
      run-IsPlan r.1 r.2 rest (add_plugin-IsPlan b parent next v entry)
  run-IsPlan b next (groups parent g ∷ rest) v =
      let r = add_group b parent g next in
      run-IsPlan r.1 r.2 rest (add_group-IsPlan b parent next v g)

  -- Whatever additions were asked for and refused, `finish` accepts the builder and freezes
  -- exactly the nodes that were admitted.
  pub finish-run :
      (next : ℕ) (rest : List (Addition Value))
      → let b =
          (run (new_builder {Value = Value} next).0 (new_builder {Value = Value} next).1 rest).0 in
        finish b ≡ ok b.nodes
  finish-run next rest = finish-ok _ _ (run-IsPlan _ _ rest (new_builder-IsPlan next))
