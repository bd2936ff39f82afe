-- ===== src/Loader/Load.antt =====
-- plan.rs, `LoadPlan::load` and `RealmEnvironment`, with outcome.rs and handoff.rs: one execution of
-- a frozen plan. Creating a Fiber is the Runtime's; it enters as `spawn`, over a state of its own.
pub mod Placement
pub mod Rows
pub mod Cover
pub mod Total
pub mod Handoff
use mathlib.Core.Option
use cordis_rs.Base.{
  ℕ, String, String_eq, Bool, true, false, Option, none, some, List, [], ◌∷◌, ◌++◌, if◌then◌else◌,
  lookup, insert, get_elem?, any, filter, reverse, Result, ok, err, not, ◌==◌,
}
use cordis_rs.Core.Context.{Context, ServiceRealm, new_service_realm, with_service_realms}
use cordis_rs.Loader.Plan.{
  EntryId, EntryId_eq, PluginEntry, IsolateEntry, RealmPolicy, private, shared, PlanEntry, PlanNode,
}
use cordis_rs.Loader.Order.{execution_order}
use cordis_rs.Loader.Resolver.{PluginResolver, ResolverFailure, resolve_key_of, resolve_entry}

-- The Runtime: its counter of realm keys, and the rest of its state.
pub record World (Rest : Type 0) : Type 0 where
  pub counter : ℕ
  pub rest : Rest

-- What an execution uses of the application and of the Runtime.
pub record Host (Value : Type 0) : Type 1 where
  pub Layer : Type 0
  pub Prepared : Type 0
  pub Error : Type 0
  pub Handle : Type 0
  pub SpawnError : Type 0
  pub Rest : Type 0
  pub resolver : PluginResolver Value Prepared Error
  pub spawn : Context Layer → Prepared → World Rest → Result Handle SpawnError × World Rest

pub data LoaderFailure (SpawnError : Type 0) : Type 0 where
  unresolved_key : (key : String) → LoaderFailure SpawnError
  resolver : ResolverFailure → LoaderFailure SpawnError
  spawn : SpawnError → LoaderFailure SpawnError

pub data EntryOutcome (Handle SpawnError : Type 0) : Type 0 where
  group disabled : (id : EntryId) → EntryOutcome Handle SpawnError
  pruned : (id : EntryId) → (disabled_ancestor : EntryId) → EntryOutcome Handle SpawnError
  spawned :
      (id : EntryId)
      → (resolve_key : String) → (fiber_handle : Handle) → EntryOutcome Handle SpawnError
  failed :
      (id : EntryId)
      → (resolve_key : String) → (failure : LoaderFailure SpawnError)
      → EntryOutcome Handle SpawnError

-- The labels met so far in one execution, with their realms.
abbrev pub RealmEnvironment : Type 0
RealmEnvironment = List (String × ServiceRealm)

module _ {Layer : Type 0} where
  -- One row's realm. `none`: the allocation panics.
  pub realm_for :
      Context Layer
      → RealmPolicy
      → RealmEnvironment
      → ℕ
      → Option (ServiceRealm × RealmEnvironment × ℕ)
  realm_for ctx private table counter =
      Option.map (λ r. (r.0, table, r.1)) (new_service_realm ctx counter)
  realm_for ctx (shared label) table counter = elim (lookup label table) [
    | some realm ↦ some (realm, table, counter)
    | none ↦ Option.map (λ r. (r.0, insert label r.0 table, r.1)) (new_service_realm ctx counter)
  ]

  pub mappings :
      Context Layer
      → List IsolateEntry
      → RealmEnvironment
      → ℕ
      → Option (List (String × ServiceRealm) × RealmEnvironment × ℕ)
  mappings ctx [] table counter = some ([], table, counter)
  mappings ctx (row ∷ rows) table counter = elim (realm_for ctx row.policy table counter) [
    | none ↦ none
    | some (realm, table', counter') ↦
        Option.map (λ r. ((row.service, realm) ∷ r.0, r.1, r.2)) (mappings ctx rows table' counter')
  ]

  abbrev finish_place :
      Context Layer
      → List (String × ServiceRealm) × RealmEnvironment × ℕ
      → Option (Context Layer × RealmEnvironment × ℕ)
  finish_place ctx (pairs, table, counter) = elim (with_service_realms ctx pairs) [
    | ok derived ↦ some (derived, table, counter)
    | err _ ↦ none
  ]

  -- `RealmEnvironment::place`. `none`: a panic.
  pub place :
      Context Layer
      → List IsolateEntry
      → RealmEnvironment
      → ℕ
      → Option (Context Layer × RealmEnvironment × ℕ)
  place ctx [] table counter = some (ctx, table, counter)
  place ctx (row ∷ rows) table counter = elim (mappings ctx (row ∷ rows) table counter) [
    | none ↦ none
    | some placed ↦ finish_place ctx placed
  ]

-- `parent.as_ref().and_then(f)`
abbrev pub from_parent : (EntryId → Option EntryId) → Option EntryId → Option EntryId
from_parent f none = none
from_parent f (some p) = f p

module _ {Value : Type 0} (host : Host Value) where
  abbrev pub Outcome : Type 0
  Outcome = EntryOutcome host.Handle host.SpawnError

  pub record Execution : Type 0 where
    pub handoff : List Outcome
    pub disabled_by_entry : List (EntryId × EntryId)
    pub realms : RealmEnvironment
    pub world : World host.Rest

  abbrev settle :
      EntryId
      → String
      → RealmEnvironment
      → Result host.Handle host.SpawnError × World host.Rest
      → Outcome × RealmEnvironment × World host.Rest
  settle id key table (ok handle, world) = (spawned id key handle, table, world)
  settle id key table (err failure, world) = (failed id key (spawn failure), table, world)

  -- A reachable enabled plugin: resolve, place, spawn.
  attempt :
      Context host.Layer
      → EntryId
      → String
      → PluginEntry Value
      → Execution
      → Option (Outcome × RealmEnvironment × World host.Rest)
  attempt ctx id key entry x = elim (resolve_entry entry key host.resolver) [
    | err failure ↦ some (failed id key (resolver failure), x.realms, x.world)
    | ok none ↦ some (failed id key (unresolved_key key), x.realms, x.world)
    | ok (some prepared) ↦ elim (place ctx entry.isolate x.realms x.world.counter) [
      | none ↦ none
      | some (placed, table, counter) ↦
          some (
            settle id key table (host.spawn placed prepared (record x.world { counter = counter })))
    ]
  ]

  abbrev hand_off : Execution → Outcome → Execution
  hand_off x outcome = record x { handoff = x.handoff ++ (outcome ∷ []) }

  abbrev note_disabled : EntryId → EntryId → Execution → Execution
  note_disabled id source x = record x { disabled_by_entry = insert id source x.disabled_by_entry }

  attempt_plugin : Context host.Layer → EntryId → PluginEntry Value → Execution → Option Execution
  unfolding attempt
  attempt_plugin ctx id entry x = elim (resolve_key_of entry) [
    | none ↦ none
    | some key ↦
        Option.map
          (λ r. record {
            handoff = x.handoff ++ (r.0 ∷ []);
            disabled_by_entry = x.disabled_by_entry;
            realms = r.1;
            world = r.2;
          })
          (attempt ctx id key entry x)
  ]

  -- The arms of the match for a plugin, by its `disabled` flag.
  reachable_plugin :
      Context host.Layer → EntryId → PluginEntry Value → Bool → Execution → Option Execution
  unfolding attempt_plugin
  reachable_plugin ctx id entry true x = some (hand_off (note_disabled id id x) (disabled id))
  reachable_plugin ctx id entry false x = attempt_plugin ctx id entry x

  reachable : Context host.Layer → EntryId → PlanEntry Value → Execution → Option Execution
  unfolding reachable_plugin
  reachable ctx id PlanEntry.group x = some (hand_off x (group id))
  reachable ctx id (PlanEntry.plugin entry) x = reachable_plugin ctx id entry entry.disabled x

  abbrev inherited_disabled : PlanNode Value → Execution → Option EntryId
  inherited_disabled node x = from_parent (λ p. lookup p x.disabled_by_entry) node.parent

  -- One round of the loop.
  pub visit : Context host.Layer → PlanNode Value → Execution → Option Execution
  unfolding reachable
  visit ctx node x = elim (inherited_disabled node x) [
    | some ancestor ↦ some (hand_off (note_disabled node.id ancestor x) (pruned node.id ancestor))
    | none ↦ reachable ctx node.id node.entry x
  ]

  pub visit_all : Context host.Layer → List (PlanNode Value) → List ℕ → Execution → Option Execution
  visit_all ctx nodes [] x = some x
  visit_all ctx nodes (i ∷ order) x = elim (get_elem? nodes i) [
    | none ↦ none
    | some node ↦ elim (visit ctx node x) [ none ↦ none | some x' ↦ visit_all ctx nodes order x' ]
  ]

  -- `LoadPlan::load`. `none`: a panic, or no fuel for the order.
  pub load : Context host.Layer → List (PlanNode Value) → World host.Rest → Option Execution
  load ctx nodes world = elim (execution_order nodes) [
    | none ↦ none
    | some order ↦
        visit_all ctx nodes order
          (record { handoff = []; disabled_by_entry = []; realms = []; world = world })
  ]
