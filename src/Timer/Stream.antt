-- ===== src/Timer/Stream.antt =====
-- shapes.rs, `Interval::poll_next`: the items of an interval.
use cordis_rs.Base.{Bool, true, false, List, [], ◌∷◌, Bool-cases, inl, inr}
use cordis_rs.Timer.{
  Boundary, Move, is_cancelled, Schedule, Interval, Item, nothing_yet, tick, stopped, ended,
  missing, after_tick, poll_next, items,
}

-- After its cancellation, an interval has ended.
abbrev pub Over : List Item → Type 0
Over [] = Unit
Over (ended ∷ rest) = Over rest
Over (_ ∷ rest) = ⊥

-- Ticks, with polls that find nothing yet, until one cancellation.
abbrev pub Ticks : List Item → Type 0
Ticks [] = Unit
Ticks (tick ∷ rest) = Ticks rest
Ticks (nothing_yet ∷ rest) = Ticks rest
Ticks (stopped ∷ rest) = Over rest
Ticks (ended ∷ rest) = ⊥
Ticks (missing ∷ rest) = ⊥

abbrev pub live : Interval
live = record { scheduler = true; terminated = false }

abbrev over : Interval
over = record { scheduler = false; terminated = true }

items-Over : (polls : List (Schedule × Bool)) (b : Boundary) → Over (items polls over b)
unfolding items poll_next
items-Over [] b = tt
items-Over ((at, ready) ∷ polls) b = items-Over polls b

-- A poll of a live interval ticks, finds nothing yet, or stops it.
data Next : Item × Interval × Boundary → Type 0 where
  ticks : (b : Boundary) → Next (tick, live, b)
  waits : (b : Boundary) → Next (nothing_yet, live, b)
  stops : (b : Boundary) → Next (stopped, over, b)

after_tick-tick :
    (before between : List Move) (b : Boundary) → Next (after_tick before between tick live b)
after_tick-tick before between b = elim (Bool-cases (is_cancelled before between b).0) [
  | inl c ↦ rw (c) (stops _)
  | inr c ↦ rw (c) (ticks _)
]

after_tick-wait :
    (before between : List Move) (b : Boundary)
    → Next (after_tick before between nothing_yet live b)
after_tick-wait before between b = elim (Bool-cases (is_cancelled before between b).0) [
  | inl c ↦ rw (c) (stops _)
  | inr c ↦ rw (c) (waits _)
]

poll_next-Next : (at : Schedule) (ready : Bool) (b : Boundary) → Next (poll_next at ready live b)
unfolding poll_next
poll_next-Next at true b = elim (Bool-cases (is_cancelled (at 0) (at 1) b).0) [
  | inl c ↦ rw (poll_next, c) (stops _)
  | inr c ↦ rw (poll_next, c) (after_tick-tick (at 2) (at 3) _)
]
poll_next-Next at false b = elim (Bool-cases (is_cancelled (at 0) (at 1) b).0) [
  | inl c ↦ rw (poll_next, c) (stops _)
  | inr c ↦ rw (poll_next, c) (after_tick-wait (at 4) (at 5) _)
]

next-Ticks :
    (polls : List (Schedule × Bool)) (r : Item × Interval × Boundary)
    → Next r
    → ((b : Boundary) → Ticks (items polls live b))
    → Ticks (r.0 ∷ items polls r.1 r.2)
next-Ticks polls _ (ticks b) ih = ih b
next-Ticks polls _ (waits b) ih = ih b
next-Ticks polls _ (stops b) ih = items-Over polls b

-- However the generation closes between and inside the polls of an interval: it ticks until its one
-- cancellation, after which every poll says that it has ended, and it never misses its scheduler.
pub items-Ticks : (polls : List (Schedule × Bool)) (b : Boundary) → Ticks (items polls live b)
unfolding items
items-Ticks [] b = tt
items-Ticks ((at, ready) ∷ polls) b =
    next-Ticks polls (poll_next at ready live b) (poll_next-Next at ready b) (items-Ticks polls)
