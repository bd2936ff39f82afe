-- ===== src/Core/Deadlines.antt =====
-- crates/cordis-core/src/deadline.rs: the armed deadlines of the process and the worker that fires
-- them. An `Instant` is a number with a greatest value; the operating system may refuse a thread.
pub mod Order
pub mod Worker
use cordis_rs.Base.{
  ℕ, ◌+◌, Bool, true, false, not, ◌&&◌, ◌||◌, Option, none, some, List, [], ◌∷◌, ltb, leb, nat_eq,
  if◌then◌else◌,
}

-- `DeadlineKey`
abbrev pub Key : Type 0
Key = ℕ × ℕ

abbrev pub u64_max : ℕ
u64_max = 18446744073709551615

-- The order of the keys: the earlier deadline, then the earlier identity.
abbrev pub key_less : Key → Key → Bool
key_less (d, i) (e, j) = ltb d e || (nat_eq d e && ltb i j)

abbrev pub key_eq : Key → Key → Bool
key_eq (d, i) (e, j) = nat_eq d e && nat_eq i j

-- `Schedule`, with the worker's wait on the condition variable: `some` while it waits, for a
-- deadline or for none. A `BTreeMap` is its entries by ascending key.
pub record Schedule (Sender : Type 0) : Type 0 where
  pub armed : List (Key × Sender)
  pub next_id : ℕ
  pub worker_running : Bool
  pub asleep : Option (Option ℕ)

pub data Slot : Type 0 where
  at_key : Key → Slot
  never fired unavailable exhausted : Slot

module _ {Sender : Type 0} where
  -- `DeadlineScheduler::new`
  pub new_schedule : Schedule Sender
  new_schedule = record { armed = []; next_id = 0; worker_running = false; asleep = none }

  -- `BTreeMap::insert` and `BTreeMap::remove`
  pub insert_key : Key → Sender → List (Key × Sender) → List (Key × Sender)
  insert_key k x [] = (k, x) ∷ []
  insert_key k x ((j, y) ∷ entries) =
      let rest = insert_key k x entries in
      if key_less k j
      then (k, x) ∷ (j, y) ∷ entries
      else if key_eq k j
      then (k, x) ∷ entries
      else (j, y) ∷ rest

  pub remove_key : Key → List (Key × Sender) → List (Key × Sender)
  remove_key k [] = []
  remove_key k ((j, y) ∷ entries) =
      let rest = remove_key k entries in if key_eq k j then rest else (j, y) ∷ rest

  -- Whether a new key comes before every armed one.
  abbrev pub is_earliest : Key → List (Key × Sender) → Bool
  is_earliest k [] = true
  is_earliest k ((j, y) ∷ entries) = key_less k j

  -- `insert`; `exhausted` is the panic of its `expect`, which leaves a spawned worker running.
  pub insert_deadline : (spawns : Bool) → ℕ → Sender → Schedule Sender → Slot × Schedule Sender
  unfolding insert_key
  insert_deadline spawns deadline sender s =
      if not s.worker_running && not spawns
      then (unavailable, s)
      else let k : Key = (deadline, s.next_id) in
        let asleep = if s.worker_running then s.asleep else none in
        if ltb s.next_id u64_max
        then (
          at_key k,
          record {
            armed = insert_key k sender s.armed;
            next_id = s.next_id + 1;
            worker_running = true;
            asleep = if is_earliest k s.armed then none else asleep;
          },
        )
        else (exhausted, record s { worker_running = true; asleep = asleep })

  -- `arm`, at an instant of a clock with a greatest value
  pub arm :
      (clock_max now timeout : ℕ)
      → (spawns : Bool) → Sender
      → Schedule Sender
      → Slot × Schedule Sender
  unfolding insert_deadline
  arm clock_max now timeout spawns sender s =
      if ltb clock_max (now + timeout)
      then (never, s)
      else if leb (now + timeout) now
      then (fired, s)
      else insert_deadline spawns (now + timeout) sender s

  -- `disarm`
  pub disarm : Key → Schedule Sender → Schedule Sender
  unfolding remove_key
  disarm k s = record s { armed = remove_key k s.armed }

  -- The inner loop of `serve`: the entries that it pops, and those it leaves.
  pub pop_due : ℕ → List (Key × Sender) → List (Key × Sender) × List (Key × Sender)
  pop_due now [] = ([], [])
  pop_due now ((k, x) ∷ entries) =
      let (due, rest) = pop_due now entries in
      if ltb now k.0 then ([], (k, x) ∷ entries) else ((k, x) ∷ due, rest)

  abbrev pub first_deadline : List (Key × Sender) → Option ℕ
  first_deadline [] = none
  first_deadline ((k, x) ∷ entries) = some k.0

  abbrev pub after_pop :
      List (Key × Sender) × List (Key × Sender)
      → Schedule Sender
      → List (Key × Sender) × Schedule Sender
  after_pop ([], rest) s = ([], record s { armed = rest; asleep = some (first_deadline rest) })
  after_pop (entry ∷ due, rest) s = (entry ∷ due, record s { armed = rest })

  -- One round of `serve`, from the lock on: what it fires, or the wait that it begins.
  pub serve_round : ℕ → Schedule Sender → List (Key × Sender) × Schedule Sender
  unfolding pop_due
  serve_round now s = after_pop (pop_due now s.armed) s

  abbrev pub is_empty : List (Key × Sender) → Bool
  is_empty [] = true
  is_empty _ = false

  -- `Retire::drop`
  pub retire : (spawns : Bool) → Schedule Sender → Schedule Sender
  retire spawns s = record s { worker_running = not (is_empty s.armed) && spawns; asleep = none }

-- A caller arms or drops a deadline; the worker serves a round, wakes or exits.
pub data Action (Sender : Type 0) : Type 0 where
  arms : (now timeout : ℕ) → (spawns : Bool) → Sender → Action Sender
  disarms : Key → Action Sender
  serves : (now : ℕ) → Action Sender
  wakes : Action Sender
  retires : (spawns : Bool) → Action Sender

abbrev pub awake : Option (Option ℕ) → Bool
awake none = true
awake (some waited) = false

abbrev pub is_awake : {Sender : Type 0} → Schedule Sender → Bool
is_awake s = s.worker_running && awake s.asleep

module _ {Sender : Type 0} (clock_max : ℕ) where
  pub act : Action Sender → Schedule Sender → Schedule Sender
  unfolding arm disarm serve_round retire
  act (arms now timeout spawns sender) s = (arm clock_max now timeout spawns sender s).1
  act (disarms k) s = disarm k s
  act (serves now) s = if is_awake s then (serve_round now s).1 else s
  act wakes s = record s { asleep = none }
  act (retires spawns) s = if is_awake s then retire spawns s else s

  pub run : List (Action Sender) → Schedule Sender → Schedule Sender
  unfolding act
  run [] s = s
  run (action ∷ actions) s = run actions (act action s)
