-- ===== src/Core/Deadlines/Worker.antt =====
-- deadline.rs: the worker sleeps no longer than until the first armed deadline, and a round fires
-- exactly what is due.
use cordis_rs.Base.{
  ℕ, ◌+◌, ◌<◌, ◌≤◌, ◌≡◌, refl, ap, inl, inr, arith, Bool, true, false, not, ◌&&◌, Option, none,
  some, List, [], ◌∷◌, ltb, leb, if◌then◌else◌, filter, Bool-cases, All, All-map,
}
use cordis_rs.Core.Deadlines.{
  Key, u64_max, Schedule, new_schedule, insert_key, remove_key, is_earliest, insert_deadline, arm,
  disarm, pop_due, first_deadline, after_pop, serve_round, retire, Action, arms, disarms, serves,
  wakes, retires, awake, is_awake, act, run,
}
use cordis_rs.Core.Deadlines.Order.{
  Before, Sorted, Issued, insert_key-All, insert_key-Sorted, remove_key-All, remove_key-Sorted,
  is_due, pop_due-filter,
}

awake-none : (waited : Option (Option ℕ)) → awake waited ≡ true → waited ≡ none
awake-none none h = refl
awake-none (some waited) h = absurd (ground arith)

module _ {Sender : Type 0} where
  -- A wait ends no later than the deadline of an entry.
  abbrev pub Until : Option ℕ → Key × Sender → Type 0
  Until none e = ⊥
  Until (some t) e = t ≤ e.0.0

  -- A wait, if there is one, ends no later than every armed deadline.
  abbrev pub Covers : Option (Option ℕ) → List (Key × Sender) → Type 0
  Covers none entries = Unit
  Covers (some waited) entries = All (Until waited) entries

  -- The armed deadlines are in order, none has an identity that is still to come, the 64-bit counter
  -- is within its bounds, and a running worker that waits covers them all.
  pub record Keeps (s : Schedule Sender) : Type 0 where
    pub sorted : Sorted s.armed
    pub issued : Issued s.next_id s.armed
    pub bounded : s.next_id ≤ u64_max
    pub covered : s.worker_running ≡ true → Covers s.asleep s.armed

  Issued-suc : (n : ℕ) (entries : List (Key × Sender)) → Issued n entries → Issued (n + 1) entries
  Issued-suc n entries i =
      All-map (λ e. e.0.1 < n) (λ e. e.0.1 < n + 1) entries (λ e. λ h. below e.0.1 n h) i
    where
      below : (a b : ℕ) → a < b → a < b + 1
      below a b h = omega (arith, h)

  -- A key that is not the first is covered by a wait that covers the first.
  later-Until :
      (waited : Option ℕ) (k : Key) (x : Sender) (entries : List (Key × Sender))
      → is_earliest k entries ≡ false
      → All (Until waited) entries
      → Until waited (k, x)
  later-Until waited k x [] h a = absurd (ground arith)
  later-Until none k x (entry ∷ entries) h a = absurd a.0
  later-Until (some t) (d, i) x (((e, j), y) ∷ entries) h a = ground arith

  insert-Covers :
      (waited : Option (Option ℕ)) (k : Key) (x : Sender) (entries : List (Key × Sender))
      → is_earliest k entries ≡ false
      → Covers waited entries
      → Covers waited (insert_key k x entries)
  insert-Covers none k x entries h c = tt
  insert-Covers (some waited) k x entries h c =
      insert_key-All (Until waited) k x entries (later-Until waited k x entries h c) c

  remove-Covers :
      (waited : Option (Option ℕ)) (k : Key) (entries : List (Key × Sender))
      → Covers waited entries
      → Covers waited (remove_key k entries)
  remove-Covers none k entries c = tt
  remove-Covers (some waited) k entries c = remove_key-All (Until waited) k entries c

  first-Covers :
      (entries : List (Key × Sender))
      → Sorted entries
      → All (Until (first_deadline entries)) entries
  first-Covers [] s = tt
  first-Covers ((k, x) ∷ entries) s = (
    at k.0,
    All-map (λ e. Before k e.0) (λ e. k.0 ≤ e.0.0) entries (λ e. λ h. not_later k e.0 h) s.0,
  )
    where
      at : (n : ℕ) → n ≤ n
      at n = omega arith

      not_later : (a b : Key) → Before a b → a.0 ≤ b.0
      not_later (d, i) (e, j) h = ground arith

  -- A worker that is spawned does not wait.
  spawned-Covers :
      (running : Bool) (waited : Option (Option ℕ)) (entries : List (Key × Sender))
      → (running ≡ true → Covers waited entries)
      → Covers (if running then waited else none) entries
  spawned-Covers true waited entries c = c refl
  spawned-Covers false waited entries c = tt

  placed-Covers :
      (earliest : Bool) (waited : Option (Option ℕ)) (k : Key) (x : Sender)
      (entries : List (Key × Sender))
      → is_earliest k entries ≡ earliest
      → Covers waited entries
      → Covers (if earliest then none else waited) (insert_key k x entries)
  placed-Covers true waited k x entries e c = tt
  placed-Covers false waited k x entries e c = insert-Covers waited k x entries e c

  insert_deadline-Keeps :
      (spawns : Bool) (deadline : ℕ) (x : Sender) (s : Schedule Sender)
      → Keeps s
      → Keeps (insert_deadline spawns deadline x s).1
  unfolding insert_deadline
  insert_deadline-Keeps spawns deadline x s h =
      let k : Key = (deadline, s.next_id) in
      let waits = spawned-Covers s.worker_running s.asleep s.armed h.covered in
      elim (Bool-cases (not s.worker_running && not spawns)) [
        | inl r ↦ rw (r) h
        | inr r ↦ elim (Bool-cases (ltb s.next_id u64_max)) [
          | inr b ↦
              rw (r, b)
                (record {
                  sorted = h.sorted;
                  issued = h.issued;
                  bounded = h.bounded;
                  covered = λ e. waits;
                })
          | inl b ↦
              rw (r, b)
                (record {
                  sorted = insert_key-Sorted k x s.armed h.issued h.sorted;
                  issued =
                      insert_key-All (λ e. e.0.1 < s.next_id + 1) k x s.armed (next s.next_id)
                        (Issued-suc s.next_id s.armed h.issued);
                  bounded = room s.next_id b;
                  covered = λ e. placed-Covers _ _ k x s.armed refl waits;
                })
        ]
      ]
    where
      next : (n : ℕ) → n < n + 1
      next n = omega arith

      room : (n : ℕ) → ltb n u64_max ≡ true → n + 1 ≤ u64_max
      room n h = ground arith

  arm-Keeps :
      (clock_max now timeout : ℕ) (spawns : Bool) (x : Sender) (s : Schedule Sender)
      → Keeps s
      → Keeps (arm clock_max now timeout spawns x s).1
  unfolding arm
  arm-Keeps clock_max now timeout spawns x s h = elim (Bool-cases (ltb clock_max (now + timeout))) [
    | inl b ↦ rw (b) h
    | inr b ↦ elim (Bool-cases (leb (now + timeout) now)) [
      | inl c ↦ rw (b, c) h
      | inr c ↦ rw (b, c) (insert_deadline-Keeps spawns (now + timeout) x s h)
    ]
  ]

  disarm-Keeps : (k : Key) (s : Schedule Sender) → Keeps s → Keeps (disarm k s)
  unfolding disarm
  disarm-Keeps k s h = record {
    sorted = remove_key-Sorted k s.armed h.sorted;
    issued = remove_key-All (λ e. e.0.1 < s.next_id) k s.armed h.issued;
    bounded = h.bounded;
    covered = λ r. remove-Covers s.asleep k s.armed (h.covered r);
  }

  retire-Keeps : (spawns : Bool) (s : Schedule Sender) → Keeps s → Keeps (retire spawns s)
  unfolding retire
  retire-Keeps spawns s h = record {
    sorted = h.sorted;
    issued = h.issued;
    bounded = h.bounded;
    covered = λ r. tt;
  }

  pop_due-All :
      (P : Key × Sender → Type 0) (now : ℕ) (entries : List (Key × Sender))
      → All P entries
      → All P (pop_due now entries).1
  unfolding pop_due
  pop_due-All P now [] a = tt
  pop_due-All P now ((k, x) ∷ entries) a = elim (Bool-cases (ltb now k.0)) [
    | inl b ↦ rw (b, pop_due) a
    | inr b ↦ rw (b, pop_due) (pop_due-All P now entries a.1)
  ]

  pop_due-Sorted :
      (now : ℕ) (entries : List (Key × Sender)) → Sorted entries → Sorted (pop_due now entries).1
  unfolding pop_due
  pop_due-Sorted now [] s = tt
  pop_due-Sorted now ((k, x) ∷ entries) s = elim (Bool-cases (ltb now k.0)) [
    | inl b ↦ rw (b, pop_due) s
    | inr b ↦ rw (b, pop_due) (pop_due-Sorted now entries s.1)
  ]

  serve_round-Keeps :
      (now : ℕ) (s : Schedule Sender) → s.asleep ≡ none → Keeps s → Keeps (serve_round now s).1
  unfolding serve_round
  serve_round-Keeps now s a h =
      served (pop_due now s.armed) (pop_due-Sorted now s.armed h.sorted)
        (pop_due-All (λ e. e.0.1 < s.next_id) now s.armed h.issued)
    where
      served :
          (r : List (Key × Sender) × List (Key × Sender))
          → Sorted r.1
          → Issued s.next_id r.1
          → Keeps (after_pop r s).1
      served ([], rest) o i = record {
        sorted = o;
        issued = i;
        bounded = h.bounded;
        covered = λ e. first-Covers rest o;
      }
      served (entry ∷ due, rest) o i = record {
        sorted = o;
        issued = i;
        bounded = h.bounded;
        covered = λ e. rw (a) tt;
      }

  module _ (clock_max : ℕ) where
    act-Keeps :
        (action : Action Sender) (s : Schedule Sender) → Keeps s → Keeps (act clock_max action s)
    unfolding act
    act-Keeps (arms now timeout spawns x) s h = arm-Keeps clock_max now timeout spawns x s h
    act-Keeps (disarms k) s h = disarm-Keeps k s h
    act-Keeps wakes s h = record {
      sorted = h.sorted;
      issued = h.issued;
      bounded = h.bounded;
      covered = λ e. tt;
    }
    act-Keeps (serves now) s h = elim (Bool-cases (is_awake s)) [
      | inl b ↦ rw (b) (serve_round-Keeps now s (awake-none s.asleep (ground arith)) h)
      | inr b ↦ rw (b) h
    ]
    act-Keeps (retires spawns) s h = elim (Bool-cases (is_awake s)) [
      | inl b ↦ rw (b) (retire-Keeps spawns s h)
      | inr b ↦ rw (b) h
    ]

    run-from :
        (actions : List (Action Sender)) (s : Schedule Sender)
        → Keeps s
        → Keeps (run clock_max actions s)
    unfolding run
    run-from [] s h = h
    run-from (action ∷ actions) s h =
        run-from actions (act clock_max action s) (act-Keeps action s h)

    new_schedule-Keeps : Keeps (new_schedule {Sender = Sender})
    unfolding new_schedule
    new_schedule-Keeps = record {
      sorted = tt;
      issued = tt;
      bounded = ground arith;
      covered = λ e. tt;
    }

    -- However callers arm and drop deadlines, and the worker serves, wakes and is replaced: the armed
    -- deadlines stay in order with identities of a counter that stays within 64 bits, and a worker
    -- that waits was told to wait no longer than until any of them.
    pub run-Keeps : (actions : List (Action Sender)) → Keeps (run clock_max actions new_schedule)
    run-Keeps actions = run-from actions new_schedule new_schedule-Keeps

    -- After any such run, a round of the worker fires exactly the deadlines that have passed, the
    -- earliest first, and leaves the others armed.
    pub serve_round-FiresDue :
        (actions : List (Action Sender)) (now : ℕ)
        → let s = run clock_max actions new_schedule in
          ((serve_round now s).0 ≡ filter (is_due now) s.armed)
          × ((serve_round now s).1.armed ≡ filter (λ e. not (is_due now e)) s.armed)
    unfolding serve_round
    serve_round-FiresDue actions now =
        let s = run clock_max actions new_schedule in
        split s (pop_due now s.armed) (pop_due-filter now s.armed (run-Keeps actions).sorted)
      where
        split :
            (s : Schedule Sender) (r : List (Key × Sender) × List (Key × Sender))
            → r ≡ (filter (is_due now) s.armed, filter (λ e. not (is_due now e)) s.armed)
            → ((after_pop r s).0 ≡ filter (is_due now) s.armed)
              × ((after_pop r s).1.armed ≡ filter (λ e. not (is_due now e)) s.armed)
        split s ([], rest) h = (ap (λ p. p.0) h, ap (λ p. p.1) h)
        split s (entry ∷ due, rest) h = (ap (λ p. p.0) h, ap (λ p. p.1) h)
