-- ===== src/Lib.antt =====
-- Verification library of cordis-rs, a Rust runtime of plugins ("Fibers") that provide and use
-- Services, exchange Events and are loaded from declarative plans.
--
-- Parts, and the files that model them:
-- - Loader.Plan (crates/cordis-loader/src/plan.rs): the declarations, `LoadPlanBuilder` with
--   `add_plugin`, `add_group` and `finish`, and both validations. Loader.Plan.Duplicates and
--   Loader.Plan.Build hold the lemmas on declarations and on the builder.
-- - Loader.Order (plan.rs, `execution_order`): the indices of the nodes in execution order; the
--   children Forest, Tree, Parents and Total lead from the loop to the declared forest.
-- - Loader.Resolver (crates/cordis-loader/src/resolver.rs): `resolve_entry` and its firewall.
-- - Loader.Load (plan.rs, `LoadPlan::load` and `RealmEnvironment::place`; outcome.rs; handoff.rs):
--   one execution, row by row. Placement, Rows, Cover, Total and Handoff hold its lemmas, and
--   Handoff also the reading of the outcomes and the rollback.
-- - Core.Context (crates/cordis-core/src/context.rs, and the realms and configuration contracts of
--   service.rs): a view with its Fiber, isolate, scope and intercept axes.
-- - Core.Events (crates/cordis-core/src/events/store.rs, with types.rs and listener.rs): contracts
--   and listeners. Core.Events.Dispatch and Core.Events.Parallel
--   (events/dispatch.rs): `emit`, `query` and `emit_parallel`. Core.Events.Selection, Blame and
--   Parallel.Delivery hold what a selection, a failure and a joined answer mean.
-- - Core.Update (crates/cordis-core/src/update.rs): the update policies and the precommit chain.
-- - Core.Gated (gated.rs, with the journal of effect.rs, the gate of fiber/mod.rs and
--   `register_listener` of events/dispatch.rs): registration as one step.
-- - Core.Inertia (fiber/inertia.rs, with `compute_target`, `dispose` and `complete_claimed_dispose`
--   of fiber/mod.rs as far as they touch the slot): the slot that arbitrates who settles a Fiber.
--   Threads has `kick`, `exit_recheck` and the passes, one atomic access at a time, and runs them in
--   any interleaving; Sound, Keep and Holder carry what holds between two accesses.
-- - Core.Services (crates/cordis-core/src/service.rs): the Service store with `install`, the exact
--   operations of a publication handle, lookups, and the drift that a commit reports; Provide has
--   `Context::provide` on top of the gated push. A lookup reads the Fibers through a map from
--   identities to what their gates read, where a dropped Fiber is missing.
-- - Core.Deps (crates/cordis-core/src/deps.rs): the reverse index of dependencies; Authority runs it
--   beside the Fibers that are registered and not dropped.
-- - Core.Settle (fiber/mod.rs, `settle_once` with `transition` and `drain_disposables`): what a
--   settle pass does to the state, the parked error and the journal of a Fiber; the apply of the
--   plugin and the cleanups are parameters.
-- - Core.Registry (crates/cordis-core/src/registry.rs, with `release_residency` of fiber/mod.rs): the
--   allocations of plugins, their members, the residents and their claims.
-- - Core.Events.Waterfall (crates/cordis-core/src/events/dispatch.rs): `waterfall_inner`, with its
--   continuations as records of what a call and a drop do.
-- - Core.Effects.Owner (effect.rs): `CallerDriven`, `DetachedWork`, `hand_off` and `detach`, as polls
--   and drops by a caller and two executors.
-- - Core.Creation (fiber/spawn.rs, with the initial pass and the disposals that race it): the creation
--   of a Fiber with its guard, as steps of a creator, a disposer, a cleanup and kicked passes on one
--   Fiber; a step ends where another thread can come between.
-- - Core.Deadlines (crates/cordis-core/src/deadline.rs): the armed deadlines and the worker that fires
--   them, as actions of callers and of the worker.
-- - Timer (crates/cordis-timer/src): the polls of Sleep, Timeout and Interval, with what others do
--   between two accesses; Registration has `timeout`, `sleep` and `interval` on top of the gated push.
-- - Core.Effects.Obligations (effect.rs): the obligations of one generation, claimed by their handles
--   and by its drains, in any interleaving.
-- - Core.Attribution (fiber/settle_ctx.rs): the scopes and the body guards of every task, as `bracket`,
--   `run_task` and `with_attribution` begin and end them, and the refusal that reads them.
-- - Base: Boolean tests, association lists, results and the list lemmas that the parts share.
-- - Tests: the properties at concrete inputs.
--
-- How they interact: `load` walks the execution order of a plan, asks the resolver for each
-- reachable plugin, derives a Context for its isolated services, which takes realm keys from the
-- counter of the Runtime, and spawns. A dispatch asks the Event store for a preflight and then
-- claims each selected listener before it invokes it. A commit of the Service store reports the edges
-- whose dependents, which the dependency index finds, get a recheck committed on their slots and a
-- kick; the pass that then holds the slot settles the Fiber, and a transition of its state to or from
-- active is such a commit again. A registration of a listener, a policy, a Service, a
-- cleanup or a timer goes through the gated push, and the drain of its generation claims the
-- obligation later. A disposal is committed work that its caller or an executor drives, and the
-- cancellation of a creation detaches a disposal of that kind.
--
-- Correspondence: a function of the source that changes shared state takes the state and returns it
-- with its answer. An `Arc` that is compared by address is a number, and a fresh one is the next
-- number of an allocator; a `TypeId` is a number. A `HashMap` is an association list read by
-- `lookup`. A lock that is held for a whole function makes it one step; an `await` on user code is a
-- call of a parameter that may change the state in any way. A panic of the source is `none`. Realm
-- keys are 64-bit, and their exhaustion is the panic of the source.
--
-- Fuel: the loop of `execution_order` runs on one unit more than the number of nodes, which is
-- enough for every plan that the builder gives.
--
-- Parameters: the application's resolver, its callbacks and its compositions of configuration, the
-- JSON values, `join_all` of the futures crate, which answers a result of each future in their
-- order, the spawn and the rollback of a Fiber, the publication of an observation.
--
-- A run of Core.Inertia has fewer than 2^64 accesses, so its revisions do not wrap. Its initial pass
-- is modelled, but the results on runs are about Fibers whose creation is over.
-- In Core.Creation and Core.Effects a panic is a value as well. Core.Effects does not say when a task
-- is polled, only what a poll or a drop does, and clears a caller whose inline poll unwound; a run of
-- Timer says at each access what others did since the last one. In Core.Deadlines an insertion and
-- the notification of the worker, which the source sends after it has let go of the lock, are one
-- step.
-- Not modelled: the era replacement of a Fiber; the bulk removal of plugins beyond its detach; the
-- observation snapshots, which stand behind parameters; the wake-ups of tasks; serde forms; logging.
pub mod Base
pub mod Core
pub mod Loader
pub mod Tests
pub mod Timer
