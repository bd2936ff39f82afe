-- ===== src/Core/Creation.antt =====
-- crates/cordis-core/src/fiber/spawn.rs, `spawn_prepared_inner` with its `CreationGuard`, the initial
-- pass of inertia.rs and the disposals of fiber/mod.rs that can race it, on the attempted Fiber.
-- A step runs from one await, or one place where another thread can come between, to the next: the
-- creator's, the one of a disposer that found the Fiber resident, the one of the cleanup that the
-- guard detaches, and those of a kicked pass, which only holds the slot for a while.
pub mod Sound
pub mod Live
pub mod Endings
use cordis_rs.Base.{Bool, true, false, not, ◌&&◌, ◌||◌, List, [], ◌∷◌, if◌then◌else◌}

-- Who holds the lifecycle slot; the code has only whether it is idle.
pub data Holder : Type 0 where
  idle creating disposing_pass cleaning other : Holder

-- The flags of the attempted Fiber that the three threads share, and whether the guard is armed.
pub record Attempt : Type 0 where
  pub slot : Holder
  pub alive : Bool
  pub disposing : Bool
  pub drained : Bool
  pub resident : Bool
  pub complete : Bool
  pub creation_pending : Bool
  pub creation_owned : Bool
  pub armed : Bool

pub data SpawnError : Type 0 where
  inactive_context initial_apply interrupted : SpawnError

-- Where the future of `spawn` stands: before its commit, waiting for the slot, settling, tearing
-- down a failed first apply, after the release of the pass, waiting for the slot again, delivered,
-- refused, or dropped by its caller, before the commit or after it.
pub data Creator : Type 0 where
  calling entering settling failing unlinking_failed passed rechecking delivered : Creator
  refused : SpawnError → Creator
  dropped_early dropped : Creator

pub data Disposer : Type 0 where
  absent waiting draining dying unlinking joining gone : Disposer

pub data Cleaner : Type 0 where
  unstarted starting joining waiting draining dying gone : Cleaner

pub record Scene : Type 0 where
  pub fiber : Attempt
  pub creator : Creator
  pub disposer : Disposer
  pub cleaner : Cleaner

abbrev pub is_idle : Holder → Bool
is_idle idle = true
is_idle _ = false

-- What the allocation of a Fiber leaves.
unfoldable pub new_scene : Scene
new_scene = record {
  fiber = record {
    slot = idle;
    alive = true;
    disposing = false;
    drained = false;
    resident = false;
    complete = false;
    creation_pending = false;
    creation_owned = false;
    armed = false;
  };
  creator = calling;
  disposer = absent;
  cleaner = unstarted;
}

-- `teardown_body`, up to its drain: it goes no further on a Fiber that is drained.
abbrev pub die : Attempt → Attempt
die f =
    if f.drained
    then record f { creation_pending = false }
    else record f { creation_pending = false; alive = false }

-- The origin's gate, then the commit.
abbrev pub admit : Bool → Bool → Attempt → Attempt × Creator
admit require_open origin_open f =
    if require_open && not origin_open
    then (f, refused inactive_context)
    else (record f { creation_pending = true; resident = true; armed = true }, entering)

-- The head of the initial pass, once it has the slot.
abbrev pub enter : Attempt → Attempt × Creator
enter f =
    if not f.alive
    then (record f { resident = false; slot = idle; armed = false }, refused interrupted)
    else (record f { slot = creating; creation_owned = true }, settling)

-- The last recheck of the slot, once it is claimed.
abbrev pub hand_off : Attempt → Attempt × Creator
hand_off f =
    if f.alive
    then (record f { slot = idle; creation_pending = false; armed = false }, delivered)
    else (record f { slot = idle; resident = false; armed = false }, refused interrupted)

-- The creator's next step; `origin_open` is the origin's gate, and `applied` whether the settle succeeded.
pub create : (require_open origin_open applied : Bool) → Attempt → Creator → Attempt × Creator
create require_open origin_open applied f calling = admit require_open origin_open f
create require_open origin_open applied f entering =
    if is_idle f.slot then enter f else (f, entering)
create require_open origin_open true f settling = (record f { slot = idle }, passed)
create require_open origin_open false f settling = (record f { disposing = true }, failing)
create require_open origin_open applied f failing = (die f, unlinking_failed)
create require_open origin_open applied f unlinking_failed = (
  record f {
    drained = true;
    resident = false;
    complete = true;
    creation_owned = false;
    slot = idle;
    armed = false;
  },
  refused initial_apply,
)
create require_open origin_open applied f passed =
    (record f { creation_owned = false; slot = idle }, rechecking)
create require_open origin_open applied f rechecking =
    if is_idle f.slot then hand_off f else (f, rechecking)
create require_open origin_open applied f ended = (f, ended)

-- The caller drops the future at an await: `CreationGuard::drop` detaches the cleanup.
pub cancel : Attempt → Creator → Cleaner → Attempt × Creator × Cleaner
cancel f calling c = (f, dropped_early, c)
cancel f entering c = (record f { armed = false }, dropped, if f.armed then starting else c)
cancel f settling c = (record f { armed = false }, dropped, if f.armed then starting else c)
cancel f failing c = (record f { armed = false }, dropped, if f.armed then starting else c)
cancel f unlinking_failed c = (record f { armed = false }, dropped, if f.armed then starting else c)
cancel f rechecking c = (record f { armed = false }, dropped, if f.armed then starting else c)
cancel f creator c = (f, creator, c)

-- `dispose` after its claim of the slot.
abbrev pub commit_disposal : Attempt → Attempt × Disposer
commit_disposal f =
    if f.complete
    then (f, gone)
    else if f.disposing
    then (f, joining)
    else (record f { slot = disposing_pass; disposing = true }, draining)

-- `dispose`, with `complete_claimed_dispose` and `wait_dispose_complete`; it starts on a resident
-- Fiber.
pub dispose : Attempt → Disposer → Attempt × Disposer
dispose f absent = (f, if f.resident then (if f.complete then gone else waiting) else absent)
dispose f waiting = if is_idle f.slot then commit_disposal f else (f, waiting)
dispose f draining = (die f, dying)
dispose f dying = (record f { drained = true; slot = idle }, unlinking)
dispose f unlinking = (record f { resident = false; complete = true }, gone)
dispose f joining = (f, if f.complete then gone else joining)
dispose f gone = (f, gone)

-- `creation_interrupted_teardown`
pub clean : Attempt → Cleaner → Attempt × Cleaner
clean f unstarted = (f, unstarted)
clean f starting =
    if f.creation_owned
    then (record f { creation_owned = false; disposing = true; slot = cleaning }, draining)
    else if f.disposing
    then (f, joining)
    else (record f { disposing = true }, waiting)
clean f joining = (f, if f.complete then gone else joining)
clean f waiting =
    if is_idle f.slot
    then (if not f.alive then (f, gone) else (record f { slot = cleaning }, draining))
    else (f, waiting)
clean f draining = (die f, dying)
clean f dying = (record f { drained = true; slot = idle; resident = false; complete = true }, gone)
clean f gone = (f, gone)

-- A kicked pass holds the slot and lets it go.
abbrev pub kicked_pass : Attempt → Attempt
kicked_pass f = elim f.slot [
  | idle ↦ if f.alive then record f { slot = other } else f
  | other ↦ record f { slot = idle }
  | _ ↦ f
]

pub data Action : Type 0 where
  creates : (require_open origin_open applied : Bool) → Action
  cancels disposes cleans kicks : Action

pub act : Action → Scene → Scene
unfolding create cancel dispose clean
act (creates require_open origin_open applied) s =
    let (f, c) = create require_open origin_open applied s.fiber s.creator in
    record s { fiber = f; creator = c }
act cancels s =
    let (f, c, k) = cancel s.fiber s.creator s.cleaner in
    record s { fiber = f; creator = c; cleaner = k }
act disposes s = let (f, d) = dispose s.fiber s.disposer in record s { fiber = f; disposer = d }
act cleans s = let (f, k) = clean s.fiber s.cleaner in record s { fiber = f; cleaner = k }
act kicks s = record s { fiber = kicked_pass s.fiber }

unfoldable pub run : List Action → Scene → Scene
unfolding act
run [] s = s
run (action ∷ actions) s = run actions (act action s)
