-- ===== src/Timer.antt =====
-- crates/cordis-timer/src/shapes.rs: the one-shot timers and the interval of a generation.
-- The signal, the obligation and the clock belong to others too: between two accesses of a poll, the
-- generation can claim the obligation, a claimed cleanup can signal, and the deadline can pass.
-- `Weak` owners that are gone count as claimed. Wakers are left out.
pub mod Race
pub mod Stream
pub mod Registration
use cordis_rs.Base.{
  ℕ, suc, ◌+◌, Bool, true, false, not, ◌&&◌, Option, none, some, List, [], ◌∷◌, if◌then◌else◌,
}

-- The occurrence of the obligation in the journal.
pub data Entry : Type 0 where
  held disarmed drained : Entry

pub record Boundary : Type 0 where
  pub entry : Entry
  pub cancelled : Bool
  pub elapsed : Bool

pub data Move : Type 0 where
  drains signals elapses : Move

abbrev pub is_held : Entry → Bool
is_held held = true
is_held _ = false

abbrev pub is_drained : Entry → Bool
is_drained drained = true
is_drained _ = false

abbrev pub move : Move → Boundary → Boundary
move drains b = record b { entry = if is_held b.entry then drained else b.entry }
move signals b = record b { cancelled = if is_drained b.entry then true else b.cancelled }
move elapses b = record b { elapsed = true }

pub interfere : List Move → Boundary → Boundary
interfere [] b = b
interfere (m ∷ moves) b = interfere moves (move m b)

-- `GenerationCancellation::is_cancelled`, with what happens before and after its first load
pub is_cancelled : List Move → List Move → Boundary → Bool × Boundary
unfolding interfere
is_cancelled before between b =
    let b0 = interfere before b in
    if b0.cancelled then (true, b0) else let b1 = interfere between b0 in (b1.cancelled, b1)

-- `EffectEntry::disarm`
abbrev pub disarm : Boundary → Bool × Boundary
disarm b = (is_held b.entry, record b { entry = if is_held b.entry then disarmed else b.entry })

pub data Polled (Output : Type 0) : Type 0 where
  pending cancelled elapsed : Polled Output
  completed : Output → Polled Output

-- What happens at each point of a poll.
abbrev pub Schedule : Type 0
Schedule = ℕ → List Move

module _ {Output : Type 0} where
  -- `cleanup.abandon()`, and the answer that it goes with
  abbrev pub abandon : Boundary → Polled Output × Boundary
  abandon b = (cancelled, (disarm b).1)

  -- `cleanup.disarm()` at a natural ending: who claimed the occurrence first?
  abbrev pub finish : List Move → Polled Output → Boundary → Polled Output × Boundary
  finish before natural b =
      let (won, b1) = disarm (interfere before b) in ((if won then natural else cancelled), b1)

  -- A check of the signal, and what follows when it is not set.
  abbrev pub unless_cancelled :
      List Move
      → List Move
      → (Boundary → Polled Output × Boundary)
      → Boundary
      → Polled Output × Boundary
  unless_cancelled before between next b =
      let (c, b1) = is_cancelled before between b in
      let rest = next b1 in if c then abandon b1 else rest

  -- A poll of the deadline.
  abbrev pub on_deadline :
      List Move
      → (Boundary → Polled Output × Boundary)
      → (Boundary → Polled Output × Boundary)
      → Boundary
      → Polled Output × Boundary
  on_deadline before passed not_yet b =
      let b1 = interfere before b in
      let late = passed b1 in let early = not_yet b1 in if b1.elapsed then late else early

  abbrev pub stay : Boundary → Polled Output × Boundary
  stay b = (pending, b)

  -- `Sleep::poll`
  pub poll_sleep : Schedule → Boundary → Polled Output × Boundary
  unfolding is_cancelled
  poll_sleep at = unless_cancelled (at 0) (at 1) (
      on_deadline (at 2) (unless_cancelled (at 3) (at 4) (finish (at 5) elapsed))
        (unless_cancelled (at 6) (at 7) stay))

  -- The second check of the deadline, after the work was ready.
  abbrev pub commit_work : Schedule → Output → Boundary → Polled Output × Boundary
  commit_work at output =
      on_deadline (at 12) (unless_cancelled (at 13) (at 14) (finish (at 15) elapsed))
        (unless_cancelled (at 16) (at 17) (finish (at 18) (completed output)))

  abbrev pub on_work : Schedule → Option Output → Boundary → Polled Output × Boundary
  on_work at none = unless_cancelled (at 8) (at 9) stay
  on_work at (some output) = unless_cancelled (at 10) (at 11) (commit_work at output)

  -- `poll_timeout`, with what the poll of the work answers
  pub poll_timeout : Schedule → Option Output → Boundary → Polled Output × Boundary
  unfolding is_cancelled
  poll_timeout at work = unless_cancelled (at 0) (at 1) (
      on_deadline (at 2) (unless_cancelled (at 3) (at 4) (finish (at 5) elapsed)) (on_work at work))

-- `Interval`; whether it still has its scheduler.
pub record Interval : Type 0 where
  pub scheduler : Bool
  pub terminated : Bool

-- What one poll of the stream gives: `missing` is the panic of its `expect`.
pub data Item : Type 0 where
  nothing_yet tick stopped ended missing : Item

abbrev stop : Boundary → Item × Interval × Boundary
stop b = (stopped, record { scheduler = false; terminated = true }, (disarm b).1)

-- The check that follows `poll_tick`.
abbrev pub after_tick :
    List Move → List Move → Item → Interval → Boundary → Item × Interval × Boundary
after_tick before between item i b =
    let (c, b1) = is_cancelled before between b in if c then stop b1 else (item, i, b1)

-- `Interval::poll_next`, with whether the scheduler of tokio is ready
pub poll_next : Schedule → Bool → Interval → Boundary → Item × Interval × Boundary
unfolding is_cancelled
poll_next at ready i b =
    if i.terminated
    then (ended, i, b)
    else let (c, b1) = is_cancelled (at 0) (at 1) b in
      if c
      then stop b1
      else if not i.scheduler
      then (missing, i, b1)
      else if ready
      then after_tick (at 2) (at 3) tick i b1
      else after_tick (at 4) (at 5) nothing_yet i b1

-- The items of a sequence of polls.
pub items : List (Schedule × Bool) → Interval → Boundary → List Item
unfolding poll_next
items [] i b = []
items ((at, ready) ∷ polls) i b =
    let (item, i1, b1) = poll_next at ready i b in item ∷ items polls i1 b1
