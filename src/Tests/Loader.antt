-- ===== src/Tests/Loader.antt =====
-- The properties of crates/cordis-loader at a concrete plan and host.
use cordis_rs.Base.{
  ℕ, ◌+◌, ◌≤◌, String, String_eq, ◌≡◌, refl, sym, insert, inl, inr, true, false, none, some, List,
  [], ◌∷◌, arith, ok,
}
use mathlib.Core.Option.{none-ne-some}
use cordis_rs.Core.Context.{Context, u64_max}
use cordis_rs.Loader.Plan.{
  EntryId, PluginEntry, IsolateEntry, private, shared, PlanEntry, PlanNode, LoadPlanBuilder,
  new_builder, finish,
}
use cordis_rs.Loader.Plan.Duplicates.{IsDeclarable}
use cordis_rs.Loader.Plan.Build.{IsOrdered, IsPlan, Addition, plugins, groups, run, finish-run}
use cordis_rs.Loader.Order.{execution_order, split, walk, descendants}
use cordis_rs.Loader.Order.Total.{IsTraversal, execution_order-IsTraversal}
use cordis_rs.Loader.Resolver.{PluginResolver, returned}
use cordis_rs.Loader.Load.{
  World, Host, EntryOutcome, disabled, spawned, Outcome, Execution, RealmEnvironment, place, load,
  from_parent,
}
use cordis_rs.Loader.Load.Placement.{Placed, place-Placed}
use cordis_rs.Loader.Load.Rows.{Rows, Row}
use cordis_rs.Loader.Load.Cover.{cover}
use cordis_rs.Loader.Load.Total.{keys_of_plan, SpawnsWithin, load-runs}
use cordis_rs.Loader.Load.Handoff.{entry, load-entry}

abbrev id_at : ℕ → EntryId
id_at k = record { lineage = 1; occurrence = k }

abbrev named : String → PluginEntry ℕ
named name = record {
  key = none;
  name = some name;
  config = 0;
  disabled = false;
  inject = [];
  isolate = [];
}

abbrev stopped : PluginEntry ℕ
stopped = record {
  key = none;
  name = some "stopped";
  config = 0;
  disabled = true;
  inject = [];
  isolate = [];
}

abbrev rows : List IsolateEntry
rows =
    record { service = "db"; policy = shared "tenant" }
    ∷ record { service = "log"; policy = private }
    ∷ []

abbrev isolating : PluginEntry ℕ
isolating = record {
  key = some "http";
  name = none;
  config = 7;
  disabled = false;
  inject = [];
  isolate = rows;
}

-- A group, a disabled plugin in it, a child of that plugin, and a plugin of its own.
abbrev four : List (PlanNode ℕ)
four =
    record { id = id_at 2; parent = none; entry = PlanEntry.group }
    ∷ record { id = id_at 3; parent = some (id_at 2); entry = PlanEntry.plugin stopped }
    ∷ record { id = id_at 4; parent = some (id_at 3); entry = PlanEntry.plugin (named "child") }
    ∷ record { id = id_at 5; parent = none; entry = PlanEntry.plugin isolating }
    ∷ []

isolating-IsDeclarable : IsDeclarable isolating
isolating-IsDeclarable = record {
  identified = inl (λ h. none-ne-some "http" (sym h));
  inject_once = tt;
  isolate_once = (refl, (refl, tt));
}

named-IsDeclarable : (name : String) → IsDeclarable (named name)
named-IsDeclarable name = record {
  identified = inr (λ h. none-ne-some name (sym h));
  inject_once = tt;
  isolate_once = tt;
}

stopped-IsDeclarable : IsDeclarable stopped
stopped-IsDeclarable = record {
  identified = inr (λ h. none-ne-some "stopped" (sym h));
  inject_once = tt;
  isolate_once = tt;
}

four-IsOrdered : IsOrdered 1 [] four
four-IsOrdered = (
  refl,
  refl,
  tt,
  tt,
  (
    refl,
    refl,
    (refl, refl),
    stopped-IsDeclarable,
    (
      refl,
      refl,
      (refl, refl),
      named-IsDeclarable "child",
      (refl, refl, tt, isolating-IsDeclarable, tt),
    ),
  ),
)

abbrev resolver : PluginResolver ℕ String String
resolver = record {
  resolve = λ request. returned (ok (some request.resolve_key));
  to_string = λ e. returned e;
}

-- A Fiber gets the next number, and no realm key.
abbrev host : Host ℕ
host = record {
  Layer = ℕ;
  Prepared = String;
  Error = String;
  Handle = ℕ;
  SpawnError = String;
  Rest = ℕ;
  resolver = resolver;
  spawn = λ ctx prepared world. (ok world.rest, record world { rest = world.rest + 1 });
}

abbrev ctx : Context ℕ
ctx = record {
  root = record { realm_membership = 9; scope_membership = 8; root_fiber = 0 };
  fiber = 0;
  isolate = [];
  scope = [];
  intercept = [];
}

abbrev world : World ℕ
world = record { counter = 3; rest = 100 }

host-SpawnsWithin : SpawnsWithin host ctx 0
host-SpawnsWithin placed prepared w = omega arith

keys-two : keys_of_plan 0 four ≡ 2
unfolding execution_order split walk descendants insert
keys-two = refl

keys : world.counter + keys_of_plan 0 four ≤ u64_max
keys = omega (arith, keys-two)

load-runs_example :
    (x : Execution host) × (load host ctx four world ≡ some x)
    × ((order : List ℕ) × IsTraversal four order × Rows host (cover four) four order x.handoff)
load-runs_example = load-runs host ctx 0 host-SpawnsWithin 1 four world four-IsOrdered keys

abbrev ran : Execution host
ran = (load-runs host ctx 0 host-SpawnsWithin 1 four world four-IsOrdered keys).0

load-entry_example :
    (o : Outcome host) × (entry ran.handoff (id_at 4) ≡ some o)
    × Row host
        (from_parent (cover four) (some (id_at 3)))
        (record { id = id_at 4; parent = some (id_at 3); entry = PlanEntry.plugin (named "child") })
        o
load-entry_example =
    load-entry host 1 four four-IsOrdered ctx world ran 2
      (record { id = id_at 4; parent = some (id_at 3); entry = PlanEntry.plugin (named "child") })
      (load-runs host ctx 0 host-SpawnsWithin 1 four world four-IsOrdered keys).1 refl

abbrev additions : List (Addition ℕ)
additions =
    groups none (record { name = "all" })
    ∷ plugins (some (id_at 2)) stopped
    ∷ plugins (some (id_at 77)) (named "orphan")
    ∷ []

finish-run_example :
    let b = (run (new_builder {Value = ℕ} 1).0 (new_builder {Value = ℕ} 1).1 additions).0 in
    finish b ≡ ok b.nodes
finish-run_example = finish-run 1 additions

execution_order-IsTraversal_example : (order : List ℕ) × IsTraversal four order
execution_order-IsTraversal_example = execution_order-IsTraversal 1 four four-IsOrdered

place-Placed_example :
    (r : Context ℕ × RealmEnvironment × ℕ) × (place ctx rows [] 3 ≡ some r) × Placed ctx rows 3 r
place-Placed_example = place-Placed ctx rows [] 3 (refl, (refl, tt)) tt (omega arith)

abbrev empty : LoadPlanBuilder ℕ
empty = record { lineage = 1; nodes = [] }

empty-IsPlan : IsPlan empty 2
empty-IsPlan = record { ordered = tt; allocated = tt }

abbrev outcomes : List (EntryOutcome ℕ String)
outcomes = spawned (id_at 2) "a" 10 ∷ disabled (id_at 3) ∷ spawned (id_at 4) "b" 11 ∷ []

abbrev note : ℕ → List ℕ → List ℕ
note handle log = handle ∷ log
