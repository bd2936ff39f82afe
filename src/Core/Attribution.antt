-- ===== src/Core/Attribution.antt =====
-- crates/cordis-core/src/fiber/settle_ctx.rs: which Fibers a task is settling, and which lifecycle
-- operations it is refused for that. A Fiber is its address; a frame has the address of its shared
-- flag. A task has its stack of task-local scopes and of the guards that its bodies hold.
pub mod Frames
pub mod Refusal
use cordis_rs.Base.{
  ℕ, ◌+◌, Bool, true, false, not, ◌&&◌, ◌||◌, Option, none, some, List, [], ◌∷◌, any, nat_eq,
  if◌then◌else◌,
}

-- `AttributionFrame`
pub record Frame : Type 0 where
  pub fiber : ℕ
  pub flag : ℕ

-- `SettleCtx`; the last frame of `settling` first
pub record SettleCtx : Type 0 where
  pub settling : List Frame
  pub run_owner : Option Frame

-- The guard of a body: `nested` pops its frame, the others end their scope. A scope of
-- `with_attribution` holds no frame.
pub data Guard : Type 0 where
  nested scoped : Frame → Guard
  attributed : Guard

pub record Task : Type 0 where
  pub scopes : List SettleCtx
  pub guards : List Guard

-- The flags that are set, the next address, and the tasks.
pub record Attributions : Type 0 where
  pub active : ℕ → Bool
  pub next : ℕ
  pub tasks : ℕ → Task

pub data Operation : Type 0 where
  ready wait_state restart update era_swap dispose remove_plugins : Operation

-- `is_active_for`
abbrev pub is_active_for : (ℕ → Bool) → ℕ → Frame → Bool
is_active_for active fiber frame = active frame.flag && nat_eq frame.fiber fiber

-- `run_task_wait_is_doomed`
abbrev pub run_task_wait_is_doomed : (draining : Bool) → Operation → Bool
run_task_wait_is_doomed draining ready = draining
run_task_wait_is_doomed draining wait_state = draining
run_task_wait_is_doomed draining _ = true

abbrev pub owns : (ℕ → Bool) → ℕ → Option Frame → Bool
owns active fiber none = false
owns active fiber (some frame) = is_active_for active fiber frame

abbrev pub doomed_in : (ℕ → Bool) → ℕ → Bool → Operation → List SettleCtx → Bool
doomed_in active fiber draining operation [] = false
doomed_in active fiber draining operation (ctx ∷ scopes) =
    any (is_active_for active fiber) ctx.settling
    || (owns active fiber ctx.run_owner && run_task_wait_is_doomed draining operation)

-- `is_doomed`, which `refuse_recursion` asks
unfoldable pub is_doomed : Attributions → ℕ → ℕ → Bool → Operation → Bool
is_doomed w task fiber draining operation =
    doomed_in w.active fiber draining operation (w.tasks task).scopes

abbrev pub put : ℕ → Task → Attributions → ℕ → Task
put t task w k = if nat_eq k t then task else w.tasks k

abbrev pub set : ℕ → Bool → (ℕ → Bool) → ℕ → Bool
set flag b active k = if nat_eq k flag then b else active k

-- `bracket`, on the stack of its task.
abbrev pub enter : Frame → Task → Task
enter frame task = elim task.scopes [
  | [] ↦ record {
    scopes = record { settling = frame ∷ []; run_owner = none } ∷ [];
    guards = scoped frame ∷ task.guards;
  }
  | ctx ∷ scopes ↦ record {
    scopes = record ctx { settling = frame ∷ ctx.settling } ∷ scopes;
    guards = nested frame ∷ task.guards;
  }
]

-- `run_task`
abbrev pub own : Frame → Task → Task
own frame task = record {
  scopes = record { settling = []; run_owner = some frame } ∷ task.scopes;
  guards = scoped frame ∷ task.guards;
}

-- `with_attribution`
abbrev pub attribute : SettleCtx → Task → Task
attribute ctx task = record { scopes = ctx ∷ task.scopes; guards = attributed ∷ task.guards }

-- `capture_attribution`
abbrev pub capture : Task → SettleCtx
capture task = elim task.scopes [
  | [] ↦ record { settling = []; run_owner = none }
  | ctx ∷ scopes ↦ ctx
]

abbrev pub pop_last : List Frame → List Frame
pop_last [] = []
pop_last (frame ∷ frames) = frames

abbrev pub pop_nested : List SettleCtx → List SettleCtx
pop_nested [] = []
pop_nested (ctx ∷ scopes) = record ctx { settling = pop_last ctx.settling } ∷ scopes

abbrev pub end_scope : List SettleCtx → List SettleCtx
end_scope [] = []
end_scope (ctx ∷ scopes) = scopes

-- `SettleFrameGuard::drop` of the innermost body, and the end of its scope.
abbrev pub leave : ℕ → List Guard → Attributions → Attributions
leave t [] w = w
leave t (nested frame ∷ guards) w = record w {
  active = set frame.flag false w.active;
  tasks = put t (record { scopes = pop_nested (w.tasks t).scopes; guards = guards }) w;
}
leave t (scoped frame ∷ guards) w = record w {
  active = set frame.flag false w.active;
  tasks = put t (record { scopes = end_scope (w.tasks t).scopes; guards = guards }) w;
}
leave t (attributed ∷ guards) w = record w {
  tasks = put t (record { scopes = end_scope (w.tasks t).scopes; guards = guards }) w;
}

-- A task begins a body or ends its innermost one, or another task gets its attribution.
pub data Action : Type 0 where
  brackets runs_task : (task fiber : ℕ) → Action
  transfers : (source target : ℕ) → Action
  leaves : (task : ℕ) → Action

abbrev pub fresh_frame : ℕ → Attributions → Frame
fresh_frame fiber w = record { fiber = fiber; flag = w.next }

unfoldable pub act : Action → Attributions → Attributions
act (brackets t fiber) w = record {
  active = set w.next true w.active;
  next = w.next + 1;
  tasks = put t (enter (fresh_frame fiber w) (w.tasks t)) w;
}
act (runs_task t fiber) w = record {
  active = set w.next true w.active;
  next = w.next + 1;
  tasks = put t (own (fresh_frame fiber w) (w.tasks t)) w;
}
act (transfers s t) w = record w { tasks = put t (attribute (capture (w.tasks s)) (w.tasks t)) w }
act (leaves t) w = leave t (w.tasks t).guards w

unfoldable pub run : List Action → Attributions → Attributions
unfolding act
run [] w = w
run (action ∷ actions) w = run actions (act action w)

-- No task has a scope.
unfoldable pub idle : Attributions
idle = record { active = λ flag. false; next = 0; tasks = λ t. record { scopes = []; guards = [] } }
