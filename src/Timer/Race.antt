-- ===== src/Timer/Race.antt =====
-- shapes.rs, `Sleep::poll` and `poll_timeout`: who wins when a timer ends and its generation closes.
use cordis_rs.Base.{
  ℕ, ◌≡◌, refl, sym, Bool, true, false, not, ◌||◌, arith, Option, none, some, List, [], ◌∷◌,
  Bool-cases, inl, inr,
}
use cordis_rs.Timer.{
  Entry, disarmed, Boundary, Move, drains, signals, elapses, is_held, is_drained, move, interfere,
  is_cancelled, Polled, pending, cancelled, elapsed, completed, Schedule, finish, unless_cancelled,
  on_deadline, stay, poll_sleep, commit_work, on_work, poll_timeout,
}

abbrev is_disarmed : Entry → Bool
is_disarmed disarmed = true
is_disarmed _ = false

abbrev implies : Bool → Bool → Bool
implies a b = not a || b

-- Only a claimed obligation signals.
abbrev pub IsSane : Boundary → Type 0
IsSane b = implies b.cancelled (is_drained b.entry) ≡ true

-- What others do to a boundary.
record Forward (b c : Boundary) : Type 0 where
  sane : implies c.cancelled (is_drained c.entry) ≡ true
  kept : implies (is_held c.entry) (is_held b.entry) ≡ true
  mine : is_disarmed c.entry ≡ is_disarmed b.entry
  later : implies b.elapsed c.elapsed ≡ true
  signalled : implies b.cancelled c.cancelled ≡ true

Forward-trans : (b c d : Boundary) → Forward b c → Forward c d → Forward b d
Forward-trans b c d f g = ground arith

move-Forward : (m : Move) (b : Boundary) → IsSane b → Forward b (move m b)
move-Forward drains b s = ground arith
move-Forward signals b s = ground arith
move-Forward elapses b s = ground arith

Forward-refl : (b : Boundary) → IsSane b → Forward b b
Forward-refl b s = ground arith

interfere-Forward : (moves : List Move) (b : Boundary) → IsSane b → Forward b (interfere moves b)
unfolding interfere
interfere-Forward [] b s = Forward-refl b s
interfere-Forward (m ∷ moves) b s =
    let f = move-Forward m b s in
    Forward-trans b (move m b) (interfere moves (move m b)) f
      (interfere-Forward moves (move m b) f.sane)

is_cancelled-Forward :
    (before between : List Move) (b : Boundary)
    → IsSane b
    → Forward b (is_cancelled before between b).1
      × ((is_cancelled before between b).0 ≡ (is_cancelled before between b).1.cancelled)
unfolding is_cancelled
is_cancelled-Forward before between b s =
    let b0 = interfere before b in
    let f = interfere-Forward before b s in
    elim (Bool-cases b0.cancelled) [
      | inl c ↦ rw (is_cancelled, c) (f, sym c)
      | inr c ↦
          rw (is_cancelled, c)
            (
              Forward-trans b b0 (interfere between b0) f (interfere-Forward between b0 f.sane),
              refl,
            )
    ]

-- The timer claimed the occurrence itself, and no signal is set.
abbrev pub Wins : Boundary → Boundary → Type 0
Wins b c = (is_held b.entry ≡ true) × (c.entry ≡ disarmed) × (c.cancelled ≡ false)

module _ (Output : Type 0) where
  -- What an answer of a poll says of the obligation and the clock.
  abbrev pub Settles : Boundary → Polled Output × Boundary → Type 0
  Settles b (pending, c) =
      (is_disarmed c.entry ≡ is_disarmed b.entry)
      × (implies (is_held c.entry) (is_held b.entry) ≡ true)
  Settles b (cancelled, c) = is_held c.entry ≡ false
  Settles b (elapsed, c) = Wins b c × (c.elapsed ≡ true)
  Settles b (completed output, c) = Wins b c

  earlier :
      (b c : Boundary) → Forward b c → (r : Polled Output × Boundary) → Settles c r → Settles b r
  earlier b c f (pending, d) h = ground arith
  earlier b c f (cancelled, d) h = h
  earlier b c f (elapsed, d) h = ground arith
  earlier b c f (completed output, d) h = ground arith

  unless_cancelled-Settles :
      (before between : List Move) (next : Boundary → Polled Output × Boundary) (b : Boundary)
      → IsSane b
      → ((c : Boundary) → Forward b c → Settles c (next c))
      → Settles b (unless_cancelled before between next b)
  unless_cancelled-Settles before between next b s h =
      let (f, e) = is_cancelled-Forward before between b s in
      let c = (is_cancelled before between b).1 in
      elim (Bool-cases (is_cancelled before between b).0) [
        | inl y ↦ rw (y) (ground arith)
        | inr y ↦ rw (y) (earlier b c f (next c) (h c f))
      ]

  on_deadline-Settles :
      (before : List Move) (passed not_yet : Boundary → Polled Output × Boundary) (b : Boundary)
      → IsSane b
      → ((c : Boundary) → Forward b c → c.elapsed ≡ true → Settles c (passed c))
      → ((c : Boundary) → Forward b c → Settles c (not_yet c))
      → Settles b (on_deadline before passed not_yet b)
  on_deadline-Settles before passed not_yet b s h k =
      let c = interfere before b in
      let f = interfere-Forward before b s in
      elim (Bool-cases c.elapsed) [
        | inl y ↦ simp (y) (earlier b c f (passed c) (h c f y))
        | inr y ↦ simp (y) (earlier b c f (not_yet c) (k c f))
      ]

  stay-Settles : (b : Boundary) → Settles b (stay b)
  stay-Settles b = ground arith

  completes-Settles :
      (before : List Move) (output : Output) (b : Boundary)
      → IsSane b
      → Settles b (finish before (completed output) b)
  completes-Settles before output b s =
      let c = interfere before b in
      let f = interfere-Forward before b s in
      elim (Bool-cases (is_held c.entry)) [ inl y ↦ rw (y) (ground arith) | inr y ↦ rw (y) y ]

  elapses-Settles :
      (before : List Move) (b : Boundary)
      → IsSane b
      → b.elapsed ≡ true
      → Settles b (finish before elapsed b)
  elapses-Settles before b s late =
      let c = interfere before b in
      let f = interfere-Forward before b s in
      elim (Bool-cases (is_held c.entry)) [ inl y ↦ rw (y) (ground arith) | inr y ↦ rw (y) y ]

  late-Settles :
      (at : Schedule) (i j k : ℕ) (c : Boundary)
      → IsSane c
      → c.elapsed ≡ true
      → Settles c (unless_cancelled (at i) (at j) (finish (at k) elapsed) c)
  late-Settles at i j k c s late =
      unless_cancelled-Settles (at i) (at j) (finish (at k) elapsed) c s
        (λ d. λ g. elapses-Settles (at k) d g.sane (still c d g late))
    where
      still : (c d : Boundary) → Forward c d → c.elapsed ≡ true → d.elapsed ≡ true
      still c d g late = ground arith

  -- However the closing of its generation and the clock interleave with the accesses of a poll, a
  -- Sleep ends by itself only after its deadline, with the obligation claimed by itself and no
  -- signal set; a cancelled one owes no obligation, and a pending one has claimed nothing.
  pub poll_sleep-Settles : (at : Schedule) (b : Boundary) → IsSane b → Settles b (poll_sleep at b)
  unfolding poll_sleep
  poll_sleep-Settles at b s = unless_cancelled-Settles (at 0) (at 1) _ b s (λ c. λ f.
      on_deadline-Settles (at 2) _ _ c f.sane
        (λ d. λ g. λ late. late-Settles at 3 4 5 d g.sane late)
        (λ d. λ g. unless_cancelled-Settles (at 6) (at 7) stay d g.sane (λ e. λ h. stay-Settles e)))

  on_work-Settles :
      (at : Schedule) (work : Option Output) (b : Boundary)
      → IsSane b
      → Settles b (on_work at work b)
  on_work-Settles at none b s =
      unless_cancelled-Settles (at 8) (at 9) stay b s (λ e. λ h. stay-Settles e)
  on_work-Settles at (some output) b s =
      unless_cancelled-Settles (at 10) (at 11) (commit_work at output) b s (λ c. λ f.
        on_deadline-Settles (at 12) _ _ c f.sane
          (λ d. λ g. λ late. late-Settles at 13 14 15 d g.sane late)
          (λ d. λ g.
            unless_cancelled-Settles (at 16) (at 17) (finish (at 18) (completed output)) d g.sane
              (λ e. λ h. completes-Settles (at 18) output e h.sane)))

  -- However the closing of its generation and the clock interleave with the accesses of a poll, a
  -- Timeout is completed or elapsed only with its obligation, held when the poll began, claimed by
  -- itself and no signal set, and elapsed only after its deadline; a cancelled one owes no
  -- obligation, and a pending one has claimed nothing. The boundary is one where a set signal means
  -- that the obligation was drained.
  pub poll_timeout-Settles :
      (at : Schedule) (work : Option Output) (b : Boundary)
      → IsSane b
      → Settles b (poll_timeout at work b)
  unfolding poll_timeout
  poll_timeout-Settles at work b s = unless_cancelled-Settles (at 0) (at 1) _ b s (λ c. λ f.
      on_deadline-Settles (at 2) _ _ c f.sane
        (λ d. λ g. λ late. late-Settles at 3 4 5 d g.sane late)
        (λ d. λ g. on_work-Settles at work d g.sane))
