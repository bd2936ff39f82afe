-- ===== src/Core/Effects/Owner/Holder.antt =====
-- effect.rs, `CallerDriven` and `DetachedWork`: one holder drives committed work to its end, and its
-- caller learns how it ended.
use cordis_rs.Base.{
  ℕ, zero, suc, ◌+◌, ◌-◌, ◌≤◌, ◌≡◌, refl, sym, ap, ◌∙◌, ◌++◌, arith, Bool, true, false, Option,
  none, some, List, [], ◌∷◌, ok, err,
}
use mathlib.Core.Option
use mathlib.Core.Option.{none-ne-some}
use cordis_rs.Core.Effects.Owner.{
  Poll, pending, ready, unwound, effects, Stage, inline, Task, bare, relayed, Place, origin,
  completion, nowhere, Ending, Owner, Answer, waits, done, lost, resumes, Action, inline_poll,
  caller_poll, origin_poll, completion_poll, new_owner, ending_of, poll_caller, act, run, work_of,
}
use cordis_rs.Core.Effects.Owner.Driven.{
  after, again, EndsAt, Reached, starts, awaited, left, sent, completed, over, run-Reached,
  act-Reached,
}

-- The work that a caller holds, and the work that a place holds.
abbrev at_caller : {Work : Type 0} → Option (Stage Work) → List Work
at_caller (some (inline work transfer)) = work ∷ []
at_caller _ = []

abbrev at_place : {Work : Type 0} → Place Work → List Work
at_place (origin detached) = elim detached.work [ none ↦ [] | some task ↦ work_of task ∷ [] ]
at_place (completion task) = work_of task ∷ []
at_place nowhere = []

abbrev pub holders : {Work Panic : Type 0} → Owner Work Panic → List Work
holders o = at_caller o.caller ++ at_place o.place

-- Who polls next: the holder.
abbrev pub next_poll : {Work Panic : Type 0} → Owner Work Panic → Action
next_poll o = elim o.place [
  | origin detached ↦ origin_poll
  | completion task ↦ completion_poll
  | nowhere ↦ caller_poll true
]

module _ {Work Panic : Type 0} (poll_work : Work → Poll Work Panic) (work : Work) where
  -- While the work has not ended, one holder has it, as its polls so far have left it; when it has,
  -- its last poll was the one that ended it, and nobody holds it.
  abbrev pub OneHolder : Owner Work Panic → Type 0
  OneHolder o = elim o.ending [
    | none ↦ (w : Work) × (holders o ≡ w ∷ []) × (after poll_work work o.polls ≡ pending w)
    | some e ↦ (holders o ≡ []) × EndsAt poll_work work o.polls e
  ]

  Reached-OneHolder : (o : Owner Work Panic) → Reached poll_work work o → OneHolder o
  Reached-OneHolder _ (starts w n h) = (w, refl, h)
  Reached-OneHolder _ (awaited true w n h) = (w, refl, h)
  Reached-OneHolder _ (awaited false w n h) = (w, refl, h)
  Reached-OneHolder _ (left true task n h) = (work_of task, refl, h)
  Reached-OneHolder _ (left false task n h) = (work_of task, refl, h)
  Reached-OneHolder _ (sent e n h) = (refl, h)
  Reached-OneHolder _ (completed relay n h) = (refl, h)
  Reached-OneHolder _ (over relay reported e n h) = (refl, h)

  new_owner-Reached : Reached poll_work work (new_owner poll_work work)
  unfolding new_owner after
  new_owner-Reached = starts work 0 refl

  -- Committed work is neither lost nor polled twice at once: however the caller polls and drops, and
  -- the executors poll and shut down, one holder has the work until it has ended, each poll goes on
  -- from where the last one left it, and no poll follows the one that ended it, by a panic or not.
  pub run-OneHolder :
      (actions : List Action) → OneHolder (run poll_work actions (new_owner poll_work work))
  run-OneHolder actions =
      Reached-OneHolder _ (run-Reached poll_work work actions _ new_owner-Reached)

  -- What the caller learns is how the work ended.
  abbrev pub Learns : Answer Panic × Owner Work Panic → Type 0
  Learns (waits, o) = Unit
  Learns (done, o) = o.ending ≡ some (ok tt)
  Learns (lost, o) = ⊥
  Learns (resumes payload, o) = o.ending ≡ some (err payload)

  starts-Learns :
      (multi : Bool) (w : Work) (n : ℕ) (p : Poll Work Panic)
      → Learns (
          inline_poll poll_work multi p (record {
            caller = some (inline w true);
            place = nowhere;
            relay = none;
            reported = [];
            polls = suc n;
            ending = ending_of poll_work p;
          }))
  starts-Learns multi w n (pending v) = tt
  starts-Learns multi w n ready = refl
  starts-Learns multi w n (unwound payload) = refl

  Reached-Learns :
      (multi : Bool) (o : Owner Work Panic)
      → Reached poll_work work o
      → Learns (poll_caller poll_work multi o)
  unfolding poll_caller
  Reached-Learns multi _ (starts w n h) = starts-Learns multi w n (poll_work w)
  Reached-Learns multi _ (awaited true w n h) = tt
  Reached-Learns multi _ (awaited false w n h) = tt
  Reached-Learns multi _ (left b task n h) = tt
  Reached-Learns multi _ (sent (ok _) n h) = refl
  Reached-Learns multi _ (sent (err payload) n h) = refl
  Reached-Learns multi _ (completed relay n h) = refl
  Reached-Learns multi _ (over relay reported e n h) = tt

  -- Whatever ran before, a poll of the caller's future is done only when the work ended without a
  -- panic, resumes the panic with which the work ended, and never finds the relay closed.
  pub poll_caller-Learns :
      (actions : List Action) (multi : Bool)
      → Learns (poll_caller poll_work multi (run poll_work actions (new_owner poll_work work)))
  poll_caller-Learns actions multi =
      Reached-Learns multi _ (run-Reached poll_work work actions _ new_owner-Reached)

  -- A number of polls by whoever holds the work.
  pub drive : ℕ → Owner Work Panic → Owner Work Panic
  drive zero o = o
  drive (suc n) o = drive n (act poll_work (next_poll o) o)

  suc-plus : (d n : ℕ) → suc d + n ≡ suc (d + n)
  suc-plus d n = omega arith

  zero-plus : (n : ℕ) → 0 + n ≡ n
  zero-plus n = omega arith

  again-kept :
      (p : Poll Work Panic) (e : Ending Panic)
      → ending_of poll_work p ≡ some e
      → ending_of poll_work (again poll_work work p) ≡ some e
  again-kept (pending w) e i = absurd (none-ne-some e i)
  again-kept ready e i = i
  again-kept (unwound payload) e i = i

  -- An ending is kept by every further poll.
  after-ended :
      (d n : ℕ) (e : Ending Panic)
      → ending_of poll_work (after poll_work work n) ≡ some e
      → ending_of poll_work (after poll_work work (d + n)) ≡ some e
  unfolding after
  after-ended zero n e h = rw (zero-plus n) h
  after-ended (suc d) n e h =
      rw (suc-plus d n) (again-kept (after poll_work work (d + n)) e (after-ended d n e h))

  EndsAt-after :
      (n : ℕ) (e : Ending Panic)
      → EndsAt poll_work work n e
      → ending_of poll_work (after poll_work work n) ≡ some e
  unfolding after
  EndsAt-after n e (m, w, h, i, j) =
      rw (h) (ap (λ p. ending_of poll_work (again poll_work work p)) i ∙ j)

  effects-polls :
      (listening : Bool) (p : Poll Work Panic) (task : Task Work) (o : Owner Work Panic)
      → (effects poll_work listening p task o).polls ≡ o.polls
  effects-polls true p (bare w) o = refl
  effects-polls false p (bare w) o = refl
  effects-polls true p (relayed w) o = refl
  effects-polls false (pending v) (relayed w) o = refl
  effects-polls false ready (relayed w) o = refl
  effects-polls false (unwound payload) (relayed w) o = refl

  starts-counts :
      (multi : Bool) (p : Poll Work Panic) (o : Owner Work Panic)
      → (inline_poll poll_work multi p o).1.polls ≡ o.polls
  starts-counts multi (pending v) o = refl
  starts-counts multi ready o = refl
  starts-counts multi (unwound payload) o = refl

  -- One poll of the holder counts, while the work has not ended.
  next_poll-counts :
      (o : Owner Work Panic)
      → Reached poll_work work o
      → o.ending ≡ none
      → (act poll_work (next_poll o) o).polls ≡ suc o.polls
  unfolding act poll_caller
  next_poll-counts _ (starts w n h) i = starts-counts true (poll_work w) _
  next_poll-counts _ (awaited true w n h) i = refl
  next_poll-counts _ (awaited false w n h) i = refl
  next_poll-counts _ (left true task n h) i = effects-polls false (poll_work (work_of task)) task _
  next_poll-counts _ (left false task n h) i = effects-polls false (poll_work (work_of task)) task _
  next_poll-counts _ (sent e n h) i = absurd (none-ne-some e (sym i))
  next_poll-counts _ (completed relay n h) i = absurd (none-ne-some _ (sym i))
  next_poll-counts _ (over relay reported e n h) i = absurd (none-ne-some e (sym i))

  next_poll-ended :
      (o : Owner Work Panic)
      → Reached poll_work work o
      → (act poll_work (next_poll o) o).ending ≡ none
      → o.ending ≡ none
  unfolding act poll_caller
  next_poll-ended _ (starts w n h) i = refl
  next_poll-ended _ (awaited multi w n h) i = refl
  next_poll-ended _ (left multi task n h) i = refl
  next_poll-ended _ (sent (ok _) n h) i = i
  next_poll-ended _ (sent (err payload) n h) i = i
  next_poll-ended _ (completed relay n h) i = i
  next_poll-ended _ (over relay reported e n h) i = i

  drive-Reached :
      (d : ℕ) (o : Owner Work Panic) → Reached poll_work work o → Reached poll_work work (drive d o)
  unfolding drive
  drive-Reached zero o r = r
  drive-Reached (suc d) o r =
      drive-Reached d (act poll_work (next_poll o) o) (act-Reached poll_work work (next_poll o) o r)

  drive-counts :
      (d : ℕ) (o : Owner Work Panic)
      → Reached poll_work work o
      → (drive d o).ending ≡ none
      → ((drive d o).polls ≡ d + o.polls) × (o.ending ≡ none)
  unfolding drive
  drive-counts zero o r h = (sym (zero-plus o.polls), h)
  drive-counts (suc d) o r h =
      let o1 = act poll_work (next_poll o) o in
      let (c, e) = drive-counts d o1 (act-Reached poll_work work (next_poll o) o r) h in
      let still = next_poll-ended o r e in
      let one = next_poll-counts o r still in (c ∙ ap (λ n. d + n) one ∙ moved d o.polls, still)
    where
      moved : (a b : ℕ) → a + suc b ≡ suc a + b
      moved a b = omega arith

  one_ending :
      (m n : ℕ) (d e : Ending Panic)
      → ending_of poll_work (after poll_work work m) ≡ some d
      → ending_of poll_work (after poll_work work n) ≡ some e
      → d ≡ e
  one_ending m n d e h i =
      ap (λ o. Option.get_or o d)
        (sym (after-ended n m d h)
          ∙ ap (λ k. ending_of poll_work (after poll_work work k)) (swapped n m)
          ∙ after-ended m n e i)
    where
      swapped : (a b : ℕ) → a + b ≡ b + a
      swapped a b = omega arith

  driven :
      (k d : ℕ) (e : Ending Panic) (o : Owner Work Panic) (r : Option (Ending Panic))
      → ending_of poll_work (after poll_work work k) ≡ some e
      → k ≤ d + o.polls
      → Reached poll_work work o
      → (drive d o).ending ≡ r
      → OneHolder (drive d o)
      → r ≡ some e
  driven k d e o none h b reached i one = absurd (
      none-ne-some e (
        ap (ending_of poll_work) (sym (rw (i) at one).2)
        ∙ ap (λ n. ending_of poll_work (after poll_work work n))
            ((drive-counts d o reached i).0 ∙ split (d + o.polls) k b)
        ∙ after-ended ((d + o.polls) - k) k e h))
    where
      split : (a b : ℕ) → b ≤ a → a ≡ (a - b) + b
      split a b h = omega arith
  driven k d e o (some e') h b reached i one =
      ap some (one_ending (drive d o).polls k e' e (EndsAt-after _ e' (rw (i) at one).1) h)

  -- Work that ends within a number of polls does end: whatever ran before, that many further polls
  -- by whoever holds it reach the ending.
  pub drive-Ends :
      (actions : List Action) (k : ℕ) (e : Ending Panic)
      → ending_of poll_work (after poll_work work k) ≡ some e
      → (drive k (run poll_work actions (new_owner poll_work work))).ending ≡ some e
  drive-Ends actions k e h =
      let o = run poll_work actions (new_owner poll_work work) in
      let reached = run-Reached poll_work work actions _ new_owner-Reached in
      driven k k e o (drive k o).ending h (enough k o.polls) reached refl
        (Reached-OneHolder _ (drive-Reached k o reached))
    where
      enough : (a b : ℕ) → a ≤ a + b
      enough a b = omega arith
