-- ===== src/Core/Inertia/Threads.antt =====
-- fiber/inertia.rs, `kick`, `exit_recheck`, `initial_spawn_pass`, `convergence_pass`, `restart_pass`
-- and `update_pass` with their committed halves, and of fiber/mod.rs the slot's share of `dispose`:
-- threads that take one atomic access to the shared cells at a time, in any interleaving.
-- What `settle_once` does besides is an await between two accesses. The guard of a kick, a target
-- computed and recorded, and the end of a Fiber with its cleared target are one access each.
use cordis_rs.Base.{
  ℕ, zero, suc, Bool, true, false, not, ◌||◌, Option, none, some, List, [], ◌∷◌, nat_eq, Eq, ◌==◌,
  if◌then◌else◌,
}
use cordis_rs.Core.Inertia.{
  InertiaSlot, idle, active, releasing, set_creation_owned, record_target, pin_inactive,
  mark_pending_if_untouched, commit_recheck, has_committed_recheck, is_idle, try_claim, try_retain,
  abandon,
}

-- What the threads of one Fiber share. `live` is what `compute_target` answers; `released` is no
-- cell of the source: it is the target that the last release by `exit_recheck` settled, if the slot
-- was not abandoned since.
pub record Shared (Target : Type 0) : Type 0 where
  pub slot : InertiaSlot Target
  pub alive : Bool
  pub live : Target
  pub released : Option Target

-- Who settles: `kicked` is a kick that won the slot, `update` carries the target that its committed
-- input brings about.
pub data Pass (Target : Type 0) : Type 0 where
  initial kicked convergence restart disposal : Pass Target
  update : Target → Pass Target

-- The accesses of `kick`, each named for what the thread has done.
pub data Kick : Type 0 where
  entered looping saw_releasing saw_idle won : Kick
  revised : (revision : ℕ) → Kick
  unset : Kick

-- The accesses of `exit_recheck`.
pub data Exit (Target : Type 0) : Type 0 where
  enter : (revision : ℕ) → Exit Target
  probe : (revision : ℕ) → Exit Target
  observe : (revision : ℕ) → (live : Target) → Exit Target
  judge : (revision : ℕ) → (live : Target) → (observed : ℕ) → Exit Target
  drift : Exit Target
  swap : (revision : ℕ) → Exit Target
  reread : Exit Target

pub data Thread (Target : Type 0) : Type 0 where
  finished panicked : Thread Target
  -- a Service change after which `compute_target` answers the target, then its recheck
  changing : Target → Thread Target
  committing : Thread Target
  kicking : Kick → Thread Target
  claiming claimed starting : Pass Target → Thread Target
  targeting : Pass Target → (revision : ℕ) → Thread Target
  settling settled : Pass Target → (target : Target) → (revision : ℕ) → Thread Target
  exiting : Pass Target → (settled : Target) → Exit Target → Thread Target
  -- the end of the initial pass: the mark is cleared, then the slot is looked at
  unmarking ending abandoning : Thread Target

-- What the environment decides at an access: whether a Tokio runtime is there, and whether the apply
-- of an initial pass failed.
pub record Choice : Type 0 where
  pub on_runtime : Bool
  pub failed : Bool

module _ {Target : Type 0} where
  abbrev pub on_slot : (InertiaSlot Target → InertiaSlot Target) → Shared Target → Shared Target
  on_slot f s = record s { slot = f s.slot }

  -- Where a pass goes on when `exit_recheck` found drift: the kick hands the slot to a new pass.
  abbrev pub resume : Pass Target → Pass Target
  resume kicked = convergence
  resume pass = pass

  abbrev pub kick : Bool → Kick → Shared Target → Thread Target × Shared Target
  kick on_runtime entered s =
      if not s.alive || not (has_committed_recheck s.slot)
      then (finished, s)
      else (kicking looping, s)
  kick on_runtime looping s = elim s.slot.inertia [
    | idle ↦ (kicking saw_idle, s)
    | active ↦ (finished, s)
    | releasing ↦ (kicking saw_releasing, s)
  ]
  kick on_runtime saw_releasing s =
      let (retained, slot) = try_retain s.slot in
      (if retained then finished else kicking looping, record s { slot = slot })
  kick on_runtime saw_idle s =
      let (taken, slot) = try_claim s.slot in
      if not on_runtime
      then (finished, s)
      else (if taken then kicking won else kicking looping, record s { slot = slot })
  kick on_runtime won s = (kicking (revised s.slot.recheck_committed), s)
  kick on_runtime (revised revision) s = elim s.slot.target [
    | none ↦ (kicking unset, s)
    | some target ↦ (exiting kicked target (enter revision), s)
  ]
  kick on_runtime unset s = (starting convergence, on_slot (record_target s.live) s)

  -- The end of a pass whose `exit_recheck` answered false.
  abbrev pub leave : Pass Target → Thread Target
  leave initial = unmarking
  leave pass = finished

  module _ ⦃e : Eq Target⦄ where
    abbrev pub exit_recheck :
        Pass Target → Target → Exit Target → Shared Target → Thread Target × Shared Target
    exit_recheck pass target (enter revision) s =
        (exiting pass target (probe revision), on_slot (λ x. record x { inertia = releasing }) s)
    exit_recheck pass target (probe revision) s = (exiting pass target (observe revision s.live), s)
    exit_recheck pass target (observe revision live) s =
        (exiting pass target (judge revision live s.slot.recheck_committed), s)
    exit_recheck pass target (judge revision live observed) s =
        if not (live == target)
        then (exiting pass target drift, on_slot (record_target live) s)
        else if not (nat_eq observed revision)
        then (exiting pass target (enter observed), s)
        else (
          exiting pass target (swap revision),
          on_slot (λ x. record x { recheck_settled = revision }) s,
        )
    exit_recheck pass target drift s =
        (starting (resume pass), on_slot (λ x. record x { inertia = active }) s)
    exit_recheck pass target (swap revision) s = elim s.slot.inertia [
      | releasing ↦
          (leave pass, record s { slot = record s.slot { inertia = idle }; released = some target })
      | active ↦ (exiting pass target reread, s)
      | idle ↦ (panicked, s)
    ]
    exit_recheck pass target reread s = (exiting pass target (enter s.slot.recheck_committed), s)

  -- What each pass does between its claim and the head of its loop; a dead Fiber gives the slot back.
  abbrev pub admit_initial : Shared Target → Thread Target × Shared Target
  admit_initial s =
      if not s.alive
      then (abandoning, s)
      else (starting initial, on_slot (set_creation_owned true) s)

  abbrev pub admit_restart : Shared Target → Thread Target × Shared Target
  admit_restart s = if not s.alive then (abandoning, s) else (starting restart, s)

  -- `commit_change` makes `input` the target that `compute_target` answers.
  abbrev pub admit_update : Target → Shared Target → Thread Target × Shared Target
  admit_update input s =
      if not s.alive then (abandoning, s) else (starting restart, record s { live = input })

  -- The slot's share of `teardown_body`; a Fiber torn down before has nothing left to do.
  abbrev pub tear_down : Shared Target → Shared Target
  tear_down s = record s { alive = false; slot = pin_inactive s.slot }

  abbrev pub admit_disposal : Shared Target → Thread Target × Shared Target
  admit_disposal s = if not s.alive then (abandoning, s) else (abandoning, tear_down s)

  abbrev pub admit : Pass Target → Shared Target → Thread Target × Shared Target
  admit initial s = admit_initial s
  admit restart s = admit_restart s
  admit (update input) s = admit_update input s
  admit disposal s = admit_disposal s
  admit convergence s = (starting convergence, s)
  admit kicked s = (starting convergence, s)

  -- The target that a pass settles toward; `current_target` of an empty cell panics.
  abbrev pub aim : Pass Target → ℕ → Shared Target → Thread Target × Shared Target
  aim convergence revision s = elim s.slot.target [
    | none ↦ (panicked, s)
    | some target ↦ (settling convergence target revision, s)
  ]
  aim initial revision s = (settling initial s.live revision, s)
  aim pass revision s = (settling pass s.live revision, on_slot (record_target s.live) s)

  module _ ⦃e : Eq Target⦄ (has_missing : Target → Bool) where
    -- What follows a settle, up to `exit_recheck`.
    abbrev pub conclude_convergence : Target → ℕ → Shared Target → Thread Target × Shared Target
    conclude_convergence target revision s =
        if not (s.live == target)
        then (starting convergence, on_slot (record_target s.live) s)
        else (exiting convergence target (enter revision), s)

    abbrev pub conclude_initial : Bool → Target → ℕ → Shared Target → Thread Target × Shared Target
    conclude_initial failed target revision s =
        if has_missing target
        then (exiting initial target (enter revision), on_slot (mark_pending_if_untouched target) s)
        else if failed
        then (unmarking, tear_down (on_slot (record_target target) s))
        else (exiting initial target (enter revision), on_slot (record_target target) s)

    abbrev pub conclude :
        Bool → Pass Target → Target → ℕ → Shared Target → Thread Target × Shared Target
    conclude failed convergence target revision s = conclude_convergence target revision s
    conclude failed initial target revision s = conclude_initial failed target revision s
    conclude failed pass target revision s = (exiting pass target (enter revision), s)

    -- One access of a thread.
    unfoldable pub act : Choice → Thread Target → Shared Target → Thread Target × Shared Target
    act c finished s = (finished, s)
    act c panicked s = (panicked, s)
    act c (changing target) s = (committing, record s { live = target })
    act c committing s = (kicking entered, on_slot commit_recheck s)
    act c (kicking at) s = kick c.on_runtime at s
    act c (claiming pass) s =
        let (taken, slot) = try_claim s.slot in
        (if taken then claimed pass else claiming pass, record s { slot = slot })
    act c (claimed pass) s = admit pass s
    act c (starting pass) s = (targeting pass s.slot.recheck_committed, s)
    act c (targeting pass revision) s = aim pass revision s
    act c (settling pass target revision) s = (settled pass target revision, s)
    act c (settled pass target revision) s = conclude c.failed pass target revision s
    act c (exiting pass target at) s = exit_recheck pass target at s
    act c unmarking s = (ending, on_slot (set_creation_owned false) s)
    act c ending s = (if is_idle s.slot then finished else abandoning, s)
    act c abandoning s = (finished, record s { slot = abandon s.slot; released = none })

    -- The thread of an index takes its next access.
    unfoldable pub move :
        ℕ → Choice → List (Thread Target) → Shared Target → List (Thread Target) × Shared Target
    move i c [] s = ([], s)
    move zero c (t ∷ ts) s = ((act c t s).0 ∷ ts, (act c t s).1)
    move (suc i) c (t ∷ ts) s = (t ∷ (move i c ts s).0, (move i c ts s).1)

    -- An interleaving: which thread moves next, and what the environment decides.
    unfoldable pub run :
        List (ℕ × Choice)
        → List (Thread Target)
        → Shared Target
        → List (Thread Target) × Shared Target
    run [] ts s = (ts, s)
    run ((i, c) ∷ moves) ts s = run moves (move i c ts s).0 (move i c ts s).1
