-- ===== src/Tests/Services.antt =====
-- The properties of the Service store at a concrete store with two Fibers.
use cordis_rs.Base.{
  ℕ, ◌≡◌, refl, true, false, none, some, [], ◌∷◌, String_eq, ℕ_eq, pair_eq, ◌==◌, arith,
  if◌then◌else◌, lookup, ok, err,
}
use cordis_rs.Core.Gated.{
  can_register, Liveness, FiberState, active, loading, unloading, new_journal,
}
use cordis_rs.Core.Services.{
  Fibers, Edge, ServiceSlot, ServiceState, lookup_mismatch, differs, visible_slot, install,
  visible_value, remove_exact, visible, acts, admits, drift_if,
}
use cordis_rs.Core.Services.Visibility.{transitions, commit, Unmoved, commit-Unmoved}
use cordis_rs.Core.Services.Contracts.{
  sets, IsTyped, apply_op, apply_op-IsTyped, Found, visible_value-Found,
}
use cordis_rs.Core.Services.Handles.{Answers, install-roundtrip}
use cordis_rs.Core.Services.Provide.{provide, Provides, provide-Provides}
use cordis_rs.Base.{zero, suc, List}
use cordis_rs.Core.Deps.{new_index, dependents_of}
use cordis_rs.Core.Deps.Authority.{
  IndexOp, registers, unregisters, drops, queries, no_fibers, upgrades, use_index, IsScan,
  use_index-IsScan,
}
use cordis_rs.Base.{Option, insert}
use cordis_rs.Core.Registry.{typed, Registry, new_registry, attach_fiber}
use cordis_rs.Core.Registry.Residency.{IsRegistry, Kept, attach_fiber-Kept}
use cordis_rs.Core.Registry.Release.{attaches, apply_op as apply_registry_op, apply_op-Kept}

abbrev open_fiber : FiberState → Liveness
open_fiber state = record {
  alive = true;
  disposing = false;
  generation_replacing = false;
  state = state;
}

abbrev fibers : Fibers
fibers = (1, open_fiber active) ∷ (2, open_fiber loading) ∷ []

abbrev db : Edge
db = (9, "db")

abbrev db_slot : ServiceSlot ℕ
db_slot = record {
  occurrence = 70;
  value = record { type_id = 4; payload = 33 };
  contract = 4;
  fiber = 1;
}

abbrev next_slot : ServiceSlot ℕ
next_slot = record {
  occurrence = 71;
  value = record { type_id = 4; payload = 34 };
  contract = 4;
  fiber = 1;
}

abbrev empty_store : ServiceState ℕ
empty_store = record { contracts = []; slots = [] }

abbrev store : ServiceState ℕ
store = record { contracts = ("db", 4) ∷ []; slots = (db, db_slot) ∷ [] }

only : (o : Edge) (slot : ServiceSlot ℕ) → lookup o store.slots ≡ some slot → (db == o) ≡ true
only o slot h = ground arith

store-IsTyped : IsTyped store
store-IsTyped edge slot h = ground (arith, only edge slot h)

empty_store-IsTyped : IsTyped empty_store
empty_store-IsTyped edge slot h = absurd (ground arith)

opened : admits (lookup 1 fibers) ≡ true
unfolding can_register
opened = refl

commit-Unmoved_example :
    Unmoved
      (commit (transitions 1 unloading) fibers store).0
      fibers
      store
      (commit (transitions 1 unloading) fibers store).1
      (commit (transitions 1 unloading) fibers store).2
commit-Unmoved_example = commit-Unmoved (transitions 1 unloading) fibers store tt

visible_value-Found_example : visible_value fibers 4 db store ≡ (
    if differs 4 (lookup "db" store.contracts)
    then err (lookup_mismatch "db")
    else Found "db" (visible_slot fibers (lookup db store.slots)))
visible_value-Found_example = visible_value-Found fibers 4 db store store-IsTyped

apply_op-IsTyped_example :
    IsTyped (apply_op fibers (sets db 70 1 (record { type_id = 4; payload = 35 })) store)
apply_op-IsTyped_example =
    apply_op-IsTyped fibers (sets db 70 1 (record { type_id = 4; payload = 35 })) store
      (λ slot l o. ground arith) store-IsTyped

install-roundtrip_example :
    (visible_value fibers 4 db (install fibers 1 db_slot db empty_store).1
      ≡ Answers (visible fibers db_slot) "db" (record { type_id = 4; payload = 33 }))
    × ((remove_exact fibers db 70 1 (install fibers 1 db_slot db empty_store).1).0
        ≡ ok (db_slot, drift_if (acts (lookup 1 fibers)) (db ∷ [])))
    × ((j : Edge)
        → lookup j (remove_exact fibers db 70 1 (install fibers 1 db_slot db empty_store).1).1.slots
          ≡ (if db == j then none else lookup j empty_store.slots))
unfolding install
install-roundtrip_example =
    install-roundtrip fibers db_slot db empty_store (none, db ∷ []) refl refl opened

abbrev cleanup : ℕ
cleanup = 8

provide-Provides_example :
    Provides
      (open_fiber active)
      (open_fiber active)
      (open_fiber loading)
      cleanup
      new_journal
      fibers
      db_slot
      db
      empty_store
      (provide
        (open_fiber active)
        (open_fiber active)
        (open_fiber loading)
        cleanup
        new_journal
        fibers
        db_slot
        db
        empty_store)
provide-Provides_example =
    provide-Provides (open_fiber active) (open_fiber active) (open_fiber loading) cleanup
      new_journal fibers db_slot db empty_store empty_store-IsTyped

-- Two Fibers with an edge in common; the first is dropped and the second registers again.
abbrev edges_of : ℕ → List Edge
edges_of zero = db ∷ (9, "log") ∷ []
edges_of (suc n) = db ∷ db ∷ []

abbrev uses : List IndexOp
uses =
    registers 0 true
    ∷ registers 1 true
    ∷ drops 0
    ∷ queries (db ∷ db ∷ [])
    ∷ unregisters 1
    ∷ registers 2 false
    ∷ registers 3 true
    ∷ []

use_index-IsScan_example :
    IsScan edges_of
      (use_index edges_of new_index no_fibers uses).1
      (db ∷ (9, "log") ∷ [])
      (dependents_of
        (upgrades (use_index edges_of new_index no_fibers uses).1)
        (db ∷ (9, "log") ∷ [])
        (use_index edges_of new_index no_fibers uses).0).0
use_index-IsScan_example = use_index-IsScan edges_of uses (db ∷ (9, "log") ∷ [])

-- Fiber 5 is attached first; Fiber 6 joins its allocation.
one_fiber : Kept (attach_fiber 80 (typed 2) 5 new_registry)
one_fiber = attach_fiber-Kept 80 (typed 2) 5 new_registry new-IsRegistry refl
  where
    new-IsRegistry : IsRegistry new_registry
    new-IsRegistry = record {
      resident = λ f. refl;
      member = λ a f. refl;
      current = λ k a e. absurd (ground arith);
    }

abbrev one_registry : Registry
one_registry = record {
  allocations = (typed 2, 80) ∷ [];
  groups = (80, record { id = typed 2; fibers = 5 ∷ [] }) ∷ [];
  residents = 5 ∷ [];
  claims = (5, 80) ∷ [];
}

one_registry-IsRegistry : IsRegistry one_registry
unfolding attach_fiber insert
one_registry-IsRegistry = one_fiber

abbrev never : List ℕ → Option ℕ
never _ = none

apply_op-Kept_example : Kept (apply_registry_op never (attaches 81 (typed 2) 6) one_registry)
apply_op-Kept_example =
    apply_op-Kept never (attaches 81 (typed 2) 6) one_registry one_registry-IsRegistry refl
