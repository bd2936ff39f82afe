-- ===== src/Loader/Load/Rows.antt =====
-- plan.rs, `LoadPlan::load`: which outcome each node of the plan gets.
use mathlib.Core.Option.{some-injective, none-ne-some}
use cordis_rs.Base.{
  ℕ, ◌+◌, ◌≤◌, String, String_eq, ◌≡◌, refl, sym, ap, subst, ◌∙◌, ◌⊎◌, inl, inr, Bool, true, false,
  Option, none, some, List, [], ◌∷◌, ◌++◌, append_assoc, arith, if◌then◌else◌, Option-cases, ◌==◌,
  ℕ_eq, beq_cases, beq_refl, beq_of_eq, beq_of_ne, append-nil, lookup, lookup-insert, Result-split,
  get_elem?, count, contains, Result, ok, err,
}
use cordis_rs.Core.Context.{Context}
use cordis_rs.Loader.Plan.{EntryId, EntryId_eq, PluginEntry, PlanEntry, PlanNode}
use cordis_rs.Loader.Plan.Build.{IsOrdered}
use cordis_rs.Loader.Order.Parents.{ParentSeen, ParentsFirst}
use cordis_rs.Loader.Order.Tree.{parent_index, index_of-get, parent_before, same_index}
use cordis_rs.Loader.Order.Total.{IsTraversal, execution_order-IsTraversal, count-le_one}
use cordis_rs.Loader.Resolver.{resolve_key_of, resolve_entry}
use cordis_rs.Loader.Load.{
  World, Host, LoaderFailure, group, disabled, pruned, spawned, failed, Outcome, Execution, attempt,
  attempt_plugin, reachable, inherited_disabled, visit, visit_all, load, RealmEnvironment,
  unresolved_key, resolver, spawn, place, settle, from_parent, reachable_plugin,
}

abbrev pub first_of_two : Option EntryId → Option EntryId → Option EntryId
first_of_two (some d) o = some d
first_of_two none o = o

first_of_two-none : (o : Option EntryId) → first_of_two o none ≡ o
first_of_two-none none = refl
first_of_two-none (some d) = refl

same : (b : Bool) (o : Option EntryId) → o ≡ (if b then o else o)
same true o = refl
same false o = refl

module _ {Value : Type 0} where
  -- A node's own contribution to its subtree: a disabled plugin disables it.
  abbrev pub own : EntryId → PlanEntry Value → Option EntryId
  own id PlanEntry.group = none
  own id (PlanEntry.plugin entry) = if entry.disabled then some id else none

  -- `T` names, for every node of the plan, the outermost disabled plugin at or above it.
  abbrev pub Covers : List (PlanNode Value) → (EntryId → Option EntryId) → Type 0
  Covers nodes T =
      (i : ℕ) (n : PlanNode Value)
      → get_elem? nodes i ≡ some n
      → T n.id ≡ first_of_two (from_parent T n.parent) (own n.id n.entry)

module _ {Value : Type 0} (host : Host Value) where
  -- A reachable enabled plugin is spawned or fails, under its key or else its name.
  abbrev pub Attempted : EntryId → PluginEntry Value → Outcome host → Type 0
  Attempted id entry o =
      (key : String) × (resolve_key_of entry ≡ some key)
      × (((handle : host.Handle) × (o ≡ spawned id key handle))
          ⊎ ((failure : LoaderFailure host.SpawnError) × (o ≡ failed id key failure)))

  abbrev pub RowEnabled : Bool → EntryId → PluginEntry Value → Outcome host → Type 0
  RowEnabled true id entry o = o ≡ disabled id
  RowEnabled false id entry o = Attempted id entry o

  abbrev pub RowReached : EntryId → PlanEntry Value → Outcome host → Type 0
  RowReached id PlanEntry.group o = o ≡ group id
  RowReached id (PlanEntry.plugin entry) o = RowEnabled entry.disabled id entry o

  -- The row of a node, given what covers its parent.
  abbrev pub Row : Option EntryId → PlanNode Value → Outcome host → Type 0
  Row (some d) n o = o ≡ pruned n.id d
  Row none n o = RowReached n.id n.entry o

  -- One row for each index, in order.
  abbrev pub Rows :
      (EntryId → Option EntryId) → List (PlanNode Value) → List ℕ → List (Outcome host) → Type 0
  Rows T nodes [] [] = Unit
  Rows T nodes (i ∷ order) (o ∷ outcomes) =
      ((n : PlanNode Value) × (get_elem? nodes i ≡ some n) × Row (from_parent T n.parent) n o)
      × Rows T nodes order outcomes
  Rows T nodes _ _ = ⊥

  -- What one round leaves: its outcome behind the earlier ones, and the note of what covers it.
  record Visited (c : Option EntryId) (n : PlanNode Value) (x x' : Execution host) : Type 0 where
    outcome : Outcome host
    handed : x'.handoff ≡ x.handoff ++ (outcome ∷ [])
    row : Row c n outcome
    noted :
        (id : EntryId)
        → lookup id x'.disabled_by_entry ≡ (
            if n.id == id
            then first_of_two (first_of_two c (own n.id n.entry)) (lookup id x.disabled_by_entry)
            else lookup id x.disabled_by_entry)

  abbrev Attempt : EntryId → String → Outcome host → Type 0
  Attempt id key o =
      ((handle : host.Handle) × (o ≡ spawned id key handle))
      ⊎ ((failure : LoaderFailure host.SpawnError) × (o ≡ failed id key failure))

  settle-Attempt :
      (id : EntryId) (key : String) (table : RealmEnvironment)
      (answer : Result host.Handle host.SpawnError × World host.Rest)
      → Attempt id key (settle host id key table answer).0
  settle-Attempt id key table (ok handle, world) = inl (handle, refl)
  settle-Attempt id key table (err failure, world) = inr (spawn failure, refl)

  attempt-Attempt :
      (ctx : Context host.Layer) (id : EntryId) (key : String) (entry : PluginEntry Value)
      (x : Execution host) (r : Outcome host × RealmEnvironment × World host.Rest)
      → attempt host ctx id key entry x ≡ some r
      → Attempt id key r.0
  unfolding attempt
  attempt-Attempt ctx id key entry x r h =
      elim (Result-split (resolve_entry entry key host.resolver)) [
        | inr (failure, e) ↦ inr (resolver failure, ground arith)
        | inl (none, e) ↦ inr (unresolved_key key, ground arith)
        | inl (some prepared, e) ↦
            elim (Option-cases (place ctx entry.isolate x.realms x.world.counter)) [
              | inl p ↦ ground arith
              | inr ((placed, table, counter), p) ↦
                  let answer = host.spawn placed prepared (record x.world { counter = counter }) in
                  subst (λ o. Attempt id key o.0)
                    (some-injective (settle host id key table answer) r (rw (e, attempt, p) at h))
                    (settle-Attempt id key table answer)
            ]
      ]

  attempt_plugin-Visited :
      (ctx : Context host.Layer) (n : PlanNode Value) (entry : PluginEntry Value)
      (x x' : Execution host)
      → n.entry ≡ PlanEntry.plugin entry
      → entry.disabled ≡ false
      → attempt_plugin host ctx n.id entry x ≡ some x'
      → Visited none n x x'
  unfolding attempt_plugin
  attempt_plugin-Visited ctx n entry x x' e d h = elim (Option-cases (resolve_key_of entry)) [
    | inl k ↦ ground arith
    | inr (key, k) ↦ elim (Option-cases (attempt host ctx n.id key entry x)) [
      | inl a ↦ ground arith
      | inr (r, a) ↦
          subst (Visited none n x) (some-injective _ x' (rw (k, attempt_plugin, a) at h)) (record {
            outcome = r.0;
            handed = refl;
            row = rw (e, d) (key, k, attempt-Attempt ctx n.id key entry x r a);
            noted = λ id. rw (e, d) (same (n.id == id) (lookup id x.disabled_by_entry));
          })
    ]
  ]

  reachable_plugin-Visited :
      (ctx : Context host.Layer) (n : PlanNode Value) (entry : PluginEntry Value) (b : Bool)
      (x x' : Execution host)
      → n.entry ≡ PlanEntry.plugin entry
      → entry.disabled ≡ b
      → reachable_plugin host ctx n.id entry b x ≡ some x'
      → Visited none n x x'
  unfolding reachable_plugin
  reachable_plugin-Visited ctx n entry false x x' e d h =
      attempt_plugin-Visited ctx n entry x x' e d h
  reachable_plugin-Visited ctx n entry true x x' e d h =
      subst (Visited none n x) (some-injective _ x' h) (record {
        outcome = disabled n.id;
        handed = refl;
        row = rw (e, d) refl;
        noted = λ id. rw (e, d) (lookup-insert n.id id n.id x.disabled_by_entry);
      })

  reachable-Visited :
      (ctx : Context host.Layer) (n : PlanNode Value) (entry : PlanEntry Value)
      (x x' : Execution host)
      → n.entry ≡ entry
      → reachable host ctx n.id entry x ≡ some x'
      → Visited none n x x'
  unfolding reachable
  reachable-Visited ctx n PlanEntry.group x x' e h =
      subst (Visited none n x) (some-injective _ x' h) (record {
        outcome = group n.id;
        handed = refl;
        row = rw e refl;
        noted = λ id. rw e (same (n.id == id) (lookup id x.disabled_by_entry));
      })
  reachable-Visited ctx n (PlanEntry.plugin entry) x x' e h =
      reachable_plugin-Visited ctx n entry entry.disabled x x' e refl h

  visit-Visited :
      (ctx : Context host.Layer) (n : PlanNode Value) (x x' : Execution host)
      → visit host ctx n x ≡ some x'
      → Visited (inherited_disabled host n x) n x x'
  unfolding visit
  visit-Visited ctx n x x' h = elim (Option-cases (inherited_disabled host n x)) [
    | inl e ↦ rw e (reachable-Visited ctx n n.entry x x' refl (rw (e, visit) at h))
    | inr (d, e) ↦ rw e (
        subst (Visited (some d) n x) (some-injective _ x' (rw (e, visit) at h)) (record {
          outcome = pruned n.id d;
          handed = refl;
          row = refl;
          noted = λ id. lookup-insert n.id id d x.disabled_by_entry;
        }))
  ]

  module _ (lineage : ℕ) (nodes : List (PlanNode Value)) (T : EntryId → Option EntryId)
      (v : IsOrdered lineage [] nodes) (covers : Covers nodes T) where
    -- The notes of an execution that has visited the indices `seen`.
    abbrev Noted : List ℕ → Execution host → Type 0
    Noted seen x =
        (i : ℕ) (n : PlanNode Value)
        → get_elem? nodes i ≡ some n
        → lookup n.id x.disabled_by_entry ≡ (if contains seen i then T n.id else none)

    -- The note on the parent of an index says what covers it.
    inherited :
        (seen : List ℕ) (i : ℕ) (n : PlanNode Value) (x : Execution host)
        → get_elem? nodes i ≡ some n
        → Noted seen x
        → ParentSeen seen (parent_index nodes i)
        → inherited_disabled host n x ≡ from_parent T n.parent
    inherited seen i n x e note p = elim (Option-cases n.parent) [
      | inl a ↦ rw a
      | inr (q, a) ↦
          let (j, at_j, lt) = parent_before lineage [] nodes i n q v e a refl in
          let (m, f, s) = index_of-get nodes q j at_j in
          let reached : contains seen j ≡ true = rw (e, parent_index, a, at_j) at p in
          rw a (subst (λ z. lookup z x.disabled_by_entry ≡ T z) s (note j m f ∙ rw reached))
    ]

    Visited-Noted :
        (seen : List ℕ) (i : ℕ) (n : PlanNode Value) (x x' : Execution host)
        → get_elem? nodes i ≡ some n
        → contains seen i ≡ false
        → Noted seen x
        → Visited (from_parent T n.parent) n x x'
        → Noted (i ∷ seen) x'
    Visited-Noted seen i n x x' e fresh note w j m f = elim (beq_cases n.id m.id) [
      | inl (b, s) ↦
          let k = same_index lineage nodes v i j n m e f s in
          let unnoted : lookup m.id x.disabled_by_entry ≡ none =
            note j m f ∙ rw (subst (λ z. contains seen z ≡ false) k fresh) in
          w.noted m.id
          ∙ rw (b, beq_of_eq i j k, unnoted)
              (first_of_two-none (first_of_two (from_parent T n.parent) (own n.id n.entry))
                ∙ sym (covers i n e)
                ∙ ap T s)
      | inr (b, s) ↦
          w.noted m.id
          ∙ rw
              (
                b,
                beq_of_ne i j (λ k.
                    s (ap (λ r. r.id) (some-injective n m (sym e ∙ ap (get_elem? nodes) k ∙ f)))),
              )
              (note j m f)
    ]

    -- Each index that is left comes once, and has not been seen.
    abbrev Once : List ℕ → List ℕ → Type 0
    Once seen order = (j : ℕ) → (if contains seen j then 1 else 0) + count j order ≤ 1

    visit_all-Rows :
        (ctx : Context host.Layer) (seen order : List ℕ) (x x' : Execution host)
        → ParentsFirst (parent_index nodes) seen order
        → Once seen order
        → Noted seen x
        → visit_all host ctx nodes order x ≡ some x'
        → (outcomes : List (Outcome host)) × (x'.handoff ≡ x.handoff ++ outcomes)
          × Rows T nodes order outcomes
    unfolding visit_all
    visit_all-Rows ctx seen [] x x' p once note h =
        ([], ap (λ r. r.handoff) (sym (some-injective x x' h)) ∙ sym (append-nil x.handoff), tt)
    visit_all-Rows ctx seen (i ∷ order) x x' p once note h =
        elim (Option-cases (get_elem? nodes i)) [
          | inl e ↦ absurd (none-ne-some x' (rw (e, visit_all) at h))
          | inr (n, e) ↦ elim (Option-cases (visit host ctx n x)) [
            | inl f ↦ absurd (none-ne-some x' (rw (e, visit_all, f) at h))
            | inr (y, f) ↦
                let w =
                  subst (λ c. Visited c n x y) (inherited seen i n x e note p.0)
                    (visit-Visited ctx n x y f) in
                let (outcomes, g, rows) =
                  visit_all-Rows ctx (i ∷ seen) order y x' p.1 (λ j. ground (arith, once j))
                    (Visited-Noted seen i n x y e (ground (arith, once i, beq_refl i)) note w)
                    (rw (e, visit_all, f) at h) in
                (
                  w.outcome ∷ outcomes,
                  g
                      ∙ ap (λ l. l ++ outcomes) w.handed
                      ∙ append_assoc x.handoff (w.outcome ∷ []) outcomes,
                  ((n, e, w.row), rows),
                )
          ]
        ]

    -- An execution that returns has one outcome for each index of the execution order, and the
    -- outcome of a node is what the plan says.
    pub load-Rows :
        (ctx : Context host.Layer) (world : World host.Rest) (x : Execution host)
        → load host ctx nodes world ≡ some x
        → (order : List ℕ) × IsTraversal nodes order × Rows T nodes order x.handoff
    unfolding load
    load-Rows ctx world x h =
        let (order, e) = execution_order-IsTraversal lineage nodes v in
        let (outcomes, g, rows) =
          visit_all-Rows ctx [] order _ x e.parents_first
            (λ j. omega (arith, count-le_one nodes order e j)) (λ i n f. refl)
            (rw (e.computed, load) at h) in
        (order, e, subst (Rows T nodes order) (sym g) rows)
