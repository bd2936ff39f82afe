-- ===== src/Loader/Load/Total.antt =====
-- plan.rs, `LoadPlan::load`: an execution returns, with no panic, while realm keys are left.
use cordis_rs.Base.{
  ℕ, zero, suc, ◌+◌, ◌≤◌, ◌<◌, String, ◌≡◌, refl, inl, inr, Bool, true, false, Option, none, some,
  List, [], ◌∷◌, ◌++◌, arith, Option-cases, Result-split, get_elem?, All, Result, ok, err, length,
}
use cordis_rs.Core.Context.{Context, u64_max}
use cordis_rs.Core.Context.Realms.{Local}
use cordis_rs.Loader.Plan.{EntryId, EntryId_eq, PluginEntry, PlanEntry, PlanNode}
use cordis_rs.Loader.Plan.Duplicates.{IsDeclarable}
use cordis_rs.Loader.Plan.Build.{IsOrdered, Declares, get_elem?-Declares}
use cordis_rs.Loader.Order.{execution_order}
use cordis_rs.Loader.Order.Total.{IsTraversal, execution_order-IsTraversal}
use cordis_rs.Loader.Resolver.{resolve_key_of, resolve_entry}
use cordis_rs.Loader.Load.{
  World, Host, pruned, failed, Outcome, Execution, attempt, attempt_plugin, reachable, hand_off,
  note_disabled, inherited_disabled, visit, visit_all, load, RealmEnvironment, unresolved_key,
  resolver, settle, reachable_plugin,
}
use cordis_rs.Loader.Load.Placement.{here, place-Placed}
use cordis_rs.Loader.Load.Rows.{Rows, load-Rows}
use cordis_rs.Loader.Load.Cover.{cover, cover-Covers}

module _ {Value : Type 0} (each : ℕ) where
  -- The realm keys that a node can use, when a spawn takes at most `each` of them.
  abbrev pub keys_of_entry : PlanEntry Value → ℕ
  keys_of_entry (PlanEntry.plugin entry) = length entry.isolate + each
  keys_of_entry PlanEntry.group = 0

  abbrev pub keys_at : Option (PlanNode Value) → ℕ
  keys_at none = 0
  keys_at (some n) = keys_of_entry n.entry

  abbrev pub keys_needed : List (PlanNode Value) → List ℕ → ℕ
  keys_needed nodes [] = 0
  keys_needed nodes (i ∷ order) = keys_at (get_elem? nodes i) + keys_needed nodes order

  -- The keys that one execution of the plan can use.
  abbrev pub keys_of_order : List (PlanNode Value) → Option (List ℕ) → ℕ
  keys_of_order nodes none = 0
  keys_of_order nodes (some order) = keys_needed nodes order

  abbrev pub keys_of_plan : List (PlanNode Value) → ℕ
  keys_of_plan nodes = keys_of_order nodes (execution_order nodes)

identified :
    {Value : Type 0} (entry : PluginEntry Value)
    → IsDeclarable entry
    → (key : String) × (resolve_key_of entry ≡ some key)
identified entry d = elim (Option-cases entry.key) [
  | inr (key, e) ↦ (key, rw e refl)
  | inl e ↦ elim (Option-cases entry.name) [
    | inr (name, f) ↦ (name, rw (e, f) refl)
    | inl f ↦ elim d.identified [ inl h ↦ absurd (h e) | inr h ↦ absurd (h f) ]
  ]
]

get_elem?-inside {ℓ} :
    {A : Type ℓ} (xs : List A) (i : ℕ) → i < length xs → (x : A) × (get_elem? xs i ≡ some x)
get_elem?-inside [] i h = absurd (omega (arith, h))
get_elem?-inside (x ∷ xs) zero h = (x, refl)
get_elem?-inside (x ∷ xs) (suc i) h = get_elem?-inside xs i (omega (arith, h))

module _ {Value : Type 0} (host : Host Value) (ctx : Context host.Layer) (each : ℕ) where
  -- A spawn takes at most `each` realm keys.
  abbrev pub SpawnsWithin : Type 0
  SpawnsWithin =
      (placed : Context host.Layer) (prepared : host.Prepared) (world : World host.Rest)
      → (host.spawn placed prepared world).1.counter ≤ world.counter + each

  -- What holds of an execution between two rounds.
  abbrev Within : ℕ → RealmEnvironment → World host.Rest → Type 0
  Within bound table world = Local (here ctx) table × (world.counter ≤ bound)

  settle-Within :
      (id : EntryId) (key : String) (table : RealmEnvironment) (bound : ℕ)
      (answer : Result host.Handle host.SpawnError × World host.Rest)
      → Within bound table answer.1
      → Within bound (settle host id key table answer).1 (settle host id key table answer).2
  settle-Within id key table bound (ok handle, world) w = w
  settle-Within id key table bound (err failure, world) w = w

  module _ (spawns : SpawnsWithin) where
    attempt-returns :
        (id : EntryId) (key : String) (entry : PluginEntry Value) (x : Execution host) (bound : ℕ)
        → IsDeclarable entry
        → Within bound x.realms x.world
        → bound + (length entry.isolate + each) ≤ u64_max
        → (r : Outcome host × RealmEnvironment × World host.Rest) × (attempt host ctx id key entry x
            ≡ some r)
          × Within (bound + (length entry.isolate + each)) r.1 r.2
    unfolding attempt
    attempt-returns id key entry x bound d w h =
        elim (Result-split (resolve_entry entry key host.resolver)) [
          | inr (failure, e) ↦ (
            (failed id key (resolver failure), x.realms, x.world),
            rw (e, attempt) refl,
            (w.0, omega (arith, w.1)),
          )
          | inl (none, e) ↦ (
            (failed id key (unresolved_key key), x.realms, x.world),
            rw (e, attempt) refl,
            (w.0, omega (arith, w.1)),
          )
          | inl (some prepared, e) ↦
              let (q, f, m) =
                place-Placed ctx entry.isolate x.realms x.world.counter d.isolate_once w.0
                  (omega (arith, w.1)) in
              let world : World host.Rest = record x.world { counter = q.2 } in
              let answer = host.spawn q.0 prepared world in
              (
                settle host id key q.1 answer,
                rw (e, attempt, f) refl,
                settle-Within id key q.1 (bound + (length entry.isolate + each)) answer
                    (m.table, omega (arith, m.spent, w.1, spawns q.0 prepared world)),
              )
        ]

    attempt_plugin-returns :
        (id : EntryId) (entry : PluginEntry Value) (x : Execution host) (bound : ℕ)
        → IsDeclarable entry
        → Within bound x.realms x.world
        → bound + (length entry.isolate + each) ≤ u64_max
        → (x' : Execution host) × (attempt_plugin host ctx id entry x ≡ some x')
          × Within (bound + (length entry.isolate + each)) x'.realms x'.world
    unfolding attempt_plugin
    attempt_plugin-returns id entry x bound d w h =
        let (key, e) = identified entry d in
        let (r, f, w') = attempt-returns id key entry x bound d w h in
        (
          record {
            handoff = x.handoff ++ (r.0 ∷ []);
            disabled_by_entry = x.disabled_by_entry;
            realms = r.1;
            world = r.2;
          },
          rw (e, attempt_plugin, f) refl,
          w',
        )

    reachable_plugin-returns :
        (id : EntryId) (entry : PluginEntry Value) (b : Bool) (x : Execution host) (bound : ℕ)
        → IsDeclarable entry
        → Within bound x.realms x.world
        → bound + (length entry.isolate + each) ≤ u64_max
        → (x' : Execution host) × (reachable_plugin host ctx id entry b x ≡ some x')
          × Within (bound + (length entry.isolate + each)) x'.realms x'.world
    unfolding reachable_plugin
    reachable_plugin-returns id entry true x bound d w h = (_, refl, (w.0, omega (arith, w.1)))
    reachable_plugin-returns id entry false x bound d w h =
        attempt_plugin-returns id entry x bound d w h

    reachable-returns :
        (id : EntryId) (entry : PlanEntry Value) (x : Execution host) (bound : ℕ)
        → Declares entry
        → Within bound x.realms x.world
        → bound + keys_of_entry each entry ≤ u64_max
        → (x' : Execution host) × (reachable host ctx id entry x ≡ some x')
          × Within (bound + keys_of_entry each entry) x'.realms x'.world
    unfolding reachable
    reachable-returns id PlanEntry.group x bound d w h = (_, refl, (w.0, omega (arith, w.1)))
    reachable-returns id (PlanEntry.plugin entry) x bound d w h =
        reachable_plugin-returns id entry entry.disabled x bound d w h

    -- A round returns, and uses at most the keys of its node.
    visit-returns :
        (n : PlanNode Value) (x : Execution host) (bound : ℕ)
        → Declares n.entry
        → Within bound x.realms x.world
        → bound + keys_of_entry each n.entry ≤ u64_max
        → (x' : Execution host) × (visit host ctx n x ≡ some x')
          × Within (bound + keys_of_entry each n.entry) x'.realms x'.world
    unfolding visit
    visit-returns n x bound d w h = elim (Option-cases (inherited_disabled host n x)) [
      | inr (a, e) ↦ (
        hand_off host (note_disabled host n.id a x) (pruned n.id a),
        rw (e, visit) refl,
        (w.0, omega (arith, w.1)),
      )
      | inl e ↦
          let (x', f, w') = reachable-returns n.id n.entry x bound d w h in
          (x', rw (e, visit) f, w')
    ]

    abbrev start : World host.Rest → Execution host
    start world = record { handoff = []; disabled_by_entry = []; realms = []; world = world }

    visit_all-step :
        (nodes : List (PlanNode Value)) (i : ℕ) (order : List ℕ) (n : PlanNode Value)
        (x y : Execution host)
        → get_elem? nodes i ≡ some n
        → visit host ctx n x ≡ some y
        → (z : Execution host) × (visit_all host ctx nodes order y ≡ some z)
        → (z : Execution host) × (visit_all host ctx nodes (i ∷ order) x ≡ some z)
    unfolding visit_all
    visit_all-step nodes i order n x y e f (z, g) = (z, rw (e, visit_all, f) g)

    visit_all-returns :
        (lineage : ℕ) (nodes : List (PlanNode Value)) (order : List ℕ) (x : Execution host)
        (bound : ℕ)
        → IsOrdered lineage [] nodes
        → All (λ i. i < length nodes) order
        → Within bound x.realms x.world
        → bound + keys_needed each nodes order ≤ u64_max
        → (x' : Execution host) × (visit_all host ctx nodes order x ≡ some x')
    unfolding visit_all
    visit_all-returns lineage nodes [] x bound v inside w h = (x, refl)
    visit_all-returns lineage nodes (i ∷ order) x bound v inside w h =
        let (n, e) = get_elem?-inside nodes i inside.0 in
        let h' : bound + (keys_of_entry each n.entry + keys_needed each nodes order) ≤ u64_max =
          rw e at h in
        let (y, f, w') =
          visit-returns n x bound (get_elem?-Declares lineage [] nodes i n v e) w
            (omega (arith, h')) in
        visit_all-step nodes i order n x y e f (
          visit_all-returns lineage nodes order y (bound + keys_of_entry each n.entry) v inside.1 w'
            (omega (arith, h')))

    load-by :
        (nodes : List (PlanNode Value)) (order : List ℕ) (world : World host.Rest)
        → execution_order nodes ≡ some order
        → ((x : Execution host) × (visit_all host ctx nodes order (start world) ≡ some x))
        → (x : Execution host) × (load host ctx nodes world ≡ some x)
    unfolding load
    load-by nodes order world e (x, f) = (x, rw (e, load) f)

    load-returns :
        (lineage : ℕ) (nodes : List (PlanNode Value)) (world : World host.Rest)
        → IsOrdered lineage [] nodes
        → world.counter + keys_of_plan each nodes ≤ u64_max
        → (x : Execution host) × (load host ctx nodes world ≡ some x)
    load-returns lineage nodes world v h =
        let (order, e) = execution_order-IsTraversal lineage nodes v in
        load-by nodes order world e.computed (
          visit_all-returns lineage nodes order (start world) world.counter v e.inside
            (tt, omega arith) (rw e.computed at h))

    -- While enough realm keys are left, one execution of a plan that the builder gave returns. Its
    -- outcomes are one row for each node, in the execution order, and the row of a node is pruned
    -- under a disabled plugin, and else what the declaration of the node gives.
    pub load-runs :
        (lineage : ℕ) (nodes : List (PlanNode Value)) (world : World host.Rest)
        → IsOrdered lineage [] nodes
        → world.counter + keys_of_plan each nodes ≤ u64_max
        → (x : Execution host) × (load host ctx nodes world ≡ some x)
          × ((order : List ℕ) × IsTraversal nodes order
              × Rows host (cover nodes) nodes order x.handoff)
    load-runs lineage nodes world v h =
        let (x, ran) = load-returns lineage nodes world v h in
        (
          x,
          ran,
          load-Rows host lineage nodes (cover nodes) v (cover-Covers lineage nodes v) ctx world x
              ran,
        )
