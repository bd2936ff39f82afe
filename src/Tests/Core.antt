-- ===== src/Tests/Core.antt =====
-- The properties of crates/cordis-core at a concrete view and concrete listeners.
use cordis_rs.Base.{
  ℕ, ◌+◌, String, String_eq, ◌≡◌, refl, Bool, true, false, not, none, some, List, [], ◌∷◌, arith,
  nat_eq, leb, if◌then◌else◌, any, map, Result, ok, err, lookup,
}
use cordis_rs.Core.Context.{
  Context, ServiceRealm, ConfigResolutionError, ConfigurableService, u64_max, resolve_config,
}
use cordis_rs.Core.Context.Realms.{allocate, above, allocate-above}
use cordis_rs.Core.Context.Axes.{Derivation, fiber, isolate, child, intercept, derive_all}
use cordis_rs.Core.Context.Config.{layers_for, resolve_config-layers}
use cordis_rs.Core.Events.{
  ListenerRole, plain, Hook, Event, EventContract, EventState, EventOperation, unscoped,
  EventOperation, DispatchError, no_hooks, claim, is_some,
}
use cordis_rs.Core.Events.Listing.{
  HookOp, added, removed, compacted, apply_ops, list_ops, view, apply_ops-list_ops,
}
use cordis_rs.Core.Events.Claim.{find, is_once, Withdrawn, claim-find}
use cordis_rs.Core.Events.Preflight.{conflicts, Selects, preflight-Selects}
use cordis_rs.Core.Events.Dispatch.{
  CallbackValue, World, Runtime, InvocationFailure, observed, emit, returned_error,
  context_preflight,
}
use cordis_rs.Core.Events.Dispatch.Returns.{EmitReports, emit-returns}
use cordis_rs.Core.Update.{
  UpdateKind, UpdateHook, UpdateState, Control, Policies, snapshot, control,
}
use cordis_rs.Core.Update.Chain.{FailureNamed, control-FailureNamed}
use cordis_rs.Core.Gated.{DisposableList, Liveness, FiberState}
use cordis_rs.Core.Gated.Register.{Registers, register_listener, register_listener-Registers}
use cordis_rs.Core.Events.Parallel.{Invocation, emit_parallel}
use cordis_rs.Core.Events.Parallel.Delivery.{Answered, ParallelDelivers, emit_parallel-returns}

abbrev root_ctx : Context ℕ
root_ctx = record {
  root = record { realm_membership = 9; scope_membership = 8; root_fiber = 0 };
  fiber = 0;
  isolate = [];
  scope = [];
  intercept = [];
}

abbrev pairs : List (String × ServiceRealm)
pairs =
    ("db", record { membership = 9; key = 4 }) ∷ ("log", record { membership = 5; key = 1 }) ∷ []

allocate-above_example :
    allocate 3 7 ≡ (if leb (7 + 3) u64_max then some (above 3 7, 7 + 3) else none)
allocate-above_example = allocate-above 3 7 (omega arith)

abbrev derivations : List (Derivation ℕ)
derivations =
    child 20
    ∷ intercept "db" (record { service_type = 1; value = 30 })
    ∷ fiber 2
    ∷ isolate (("db", 4) ∷ [])
    ∷ intercept "db" (record { service_type = 1; value = 31 })
    ∷ []

abbrev db : ConfigurableService ℕ (List ℕ) String
db = record { name = "db"; type_id = 1; compose_config = λ base layers head. ok layers }

resolve_config-layers_example : resolve_config (derive_all root_ctx derivations) db none none ≡ (
    if any (λ l. not (nat_eq l.service_type db.type_id)) (layers_for db.name derivations)
    then err (ConfigResolutionError.contract_mismatch db.name)
    else elim (db.compose_config none (map (λ l. l.value) (layers_for db.name derivations)) none) [
      | ok resolved ↦ ok resolved
      | err e ↦ err (ConfigResolutionError.compose e)
    ])
resolve_config-layers_example = resolve_config-layers root_ctx derivations db none none refl

abbrev hook : ℕ → Bool → Bool → Hook String
hook id prepend once = record {
  id = id;
  scope = [];
  options = record { prepend = prepend; global = false; once = once };
  kind = plain ListenerRole.observer "callback";
}

abbrev ops : List (HookOp String)
ops =
    added (hook 0 false false)
    ∷ added (hook 0 true false)
    ∷ removed 1
    ∷ compacted
    ∷ added (hook 0 false true)
    ∷ []

apply_ops-list_ops_example : view (apply_ops ops (no_hooks, 1)) ≡ list_ops ops ([], 1)
apply_ops-list_ops_example = apply_ops-list_ops ops 1

abbrev ready : EventContract
ready = record { args = 1; output = 2 }

abbrev ready_event : Event
ready_event = record { name = "ready"; contract = ready }

abbrev registered : EventState String
registered = record {
  contracts = ("ready", ready) ∷ [];
  hooks =
      (
        "ready",
        record {
          order = 1 ∷ 2 ∷ [];
          entries = (1, hook 1 false true) ∷ (2, hook 2 false false) ∷ [];
        },
      )
      ∷ [];
}

claim-find_example :
    ((claim "ready" 1 registered).0
      ≡ (is_some (find "ready" 1 registered), is_once (find "ready" 1 registered)))
    × Withdrawn
        (is_once (find "ready" 1 registered))
        "ready"
        1
        registered
        (claim "ready" 1 registered).1
claim-find_example = claim-find "ready" 1 registered

preflight-Selects_example :
    Selects InvocationFailure ready_event unscoped EventOperation.emit registered
      (conflicts ready_event.contract (lookup ready_event.name registered.contracts))
preflight-Selects_example =
    preflight-Selects InvocationFailure ready_event unscoped EventOperation.emit registered

-- Callbacks log the argument that they are given.
abbrev runtime : Runtime String ℕ ℕ (List ℕ)
runtime = record {
  scope_membership = 8;
  invoke = λ callback args w. (ok observed, record w { rest = args ∷ w.rest });
  unregistered = λ event snapshot w. w;
  discard = λ snapshot w. w;
}

-- A callback fails when another one has run before it.
abbrev once_only : Runtime String ℕ ℕ (List ℕ)
once_only = record runtime {
  invoke = λ callback args w. elim w.rest [
    | [] ↦ (ok observed, record w { rest = args ∷ [] })
    | logged ∷ rest ↦
        (err (record { registration = none; kind = returned_error; diagnostic = "full" }), w)
  ];
}

emit-returns_example :
    (r : Result (Unit {0}) (DispatchError InvocationFailure) × World String (List ℕ)) × (emit
        once_only ready_event unscoped 5
        (record { events = registered; rest = [] })
      ≡ some r)
    × EmitReports once_only ready_event 5
        (record { events = registered; rest = [] })
        (context_preflight 8 ready_event unscoped EventOperation.emit registered)
        r
emit-returns_example =
    emit-returns once_only ready_event unscoped 5 (record { events = registered; rest = [] })

abbrev update_policy : ℕ → Bool → UpdateHook String
update_policy id once = record {
  id = id;
  prepend = false;
  global = true;
  scope = [];
  once = once;
  kind = UpdateKind.mapper "double";
}

abbrev update_state : UpdateState String
update_state = (6, update_policy 1 true ∷ update_policy 2 false ∷ []) ∷ []

-- Each Mapper doubles the change, up to ten.
abbrev policies : Policies String ℕ ℕ
policies = record {
  invoke_mapper = λ callback change w.
      if nat_eq change 10
      then (err (record { registration = none; kind = returned_error; diagnostic = "ten" }), w)
      else (ok (change + change), w);
  invoke_around = λ callback change next w. next change w;
}

abbrev controlled : Control String ℕ
controlled = record { policies = update_state; reached = false; rest = 0 }

control-FailureNamed_example :
    FailureNamed policies 6
      (snapshot 6 [] controlled.policies)
      (5, record controlled { reached = false })
      (control policies 6 [] 5 controlled).0
control-FailureNamed_example = control-FailureNamed policies 6 [] 5 controlled

abbrev journal : DisposableList String
journal = record { sn = 1; entries = (1, "first") ∷ [] }

abbrev live : Liveness
live = record {
  alive = true;
  disposing = false;
  generation_replacing = false;
  state = FiberState.active;
}

register_listener-Registers_example :
    Registers ready_event
      (hook 3 false false)
      live
      live
      "cleanup"
      journal
      registered
      (register_listener ready_event (hook 3 false false) live live "cleanup" journal registered)
register_listener-Registers_example =
    register_listener-Registers ready_event (hook 3 false false) live live "cleanup" journal
      registered

-- One invocation after another is one of the interleavings.
abbrev one_by_one :
    List (Invocation String ℕ (List ℕ))
    → World String (List ℕ)
    → List (Result (CallbackValue ℕ) InvocationFailure) × World String (List ℕ)
one_by_one [] w = ([], w)
one_by_one (call ∷ calls) w =
    let first = call w in let rest = one_by_one calls first.1 in (first.0 ∷ rest.0, rest.1)

one_by_one-Answered :
    (calls : List (Invocation String ℕ (List ℕ))) (w : World String (List ℕ))
    → Answered calls (one_by_one calls w).0
one_by_one-Answered [] w = tt
one_by_one-Answered (call ∷ calls) w = ((w, refl), one_by_one-Answered calls (call w).1)

emit_parallel-returns_example :
    (s : Result (Unit {0}) (DispatchError InvocationFailure) × World String (List ℕ))
    × (emit_parallel once_only one_by_one ready_event unscoped 5
          (record { events = registered; rest = [] })
        ≡ some s)
    × ParallelDelivers once_only one_by_one ready_event 5
        (record { events = registered; rest = [] })
        (context_preflight 8 ready_event unscoped EventOperation.emit_parallel registered)
        s
emit_parallel-returns_example =
    emit_parallel-returns once_only one_by_one one_by_one-Answered ready_event unscoped 5
      (record { events = registered; rest = [] })
