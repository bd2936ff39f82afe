-- ===== src/Core/Effects/Owner/Driven.antt =====
-- effect.rs, `CallerDriven` and `DetachedWork`: the states that a run of them reaches.
use cordis_rs.Base.{
  ℕ, zero, suc, ◌≡◌, refl, ap, ◌∙◌, Bool, true, false, Option, none, some, List, [], ◌∷◌, ok, err,
}
use cordis_rs.Core.Effects.Owner.{
  Poll, pending, ready, unwound, inline, handed_off, finished, Task, bare, relayed, completion,
  nowhere, Ending, Owner, Action, caller_poll, caller_drop, origin_poll, origin_shutdown,
  completion_poll, detach, ending_of, inline_poll, poll_caller, drop_detached, poll_detached,
  run_task, stays, after_poll, work_of, drop_caller, act, run,
}

module _ {Work Panic : Type 0} (poll_work : Work → Poll Work Panic) (work : Work) where
  abbrev pub again : Poll Work Panic → Poll Work Panic
  again (pending w) = poll_work w
  again p = p

  -- The work after a number of polls.
  unfoldable pub after : ℕ → Poll Work Panic
  after zero = pending work
  after (suc n) = again (after n)

  -- The last of a number of polls is the one that ended the work.
  abbrev pub EndsAt : ℕ → Ending Panic → Type 0
  EndsAt n e =
      (m : ℕ) × (w : Work) × (n ≡ suc m)
      × (after m ≡ pending w)
      × (ending_of poll_work (poll_work w) ≡ some e)

  -- The states that a run reaches.
  pub data Reached : Owner Work Panic → Type 0 where
    starts :
        (w : Work)
        → (n : ℕ) → after n ≡ pending w
        → Reached (record {
          caller = some (inline w true);
          place = nowhere;
          relay = none;
          reported = [];
          polls = n;
          ending = none;
        })
    awaited :
        (multi : Bool)
        → (w : Work) → (n : ℕ) → after n ≡ pending w
        → Reached (record {
          caller = some handed_off;
          place = detach poll_work multi (relayed w);
          relay = none;
          reported = [];
          polls = n;
          ending = none;
        })
    left :
        (multi : Bool)
        → (task : Task Work) → (n : ℕ) → after n ≡ pending (work_of task)
        → Reached (record {
          caller = none;
          place = detach poll_work multi task;
          relay = none;
          reported = [];
          polls = n;
          ending = none;
        })
    sent :
        (e : Ending Panic)
        → (n : ℕ) → EndsAt n e
        → Reached (record {
          caller = some handed_off;
          place = nowhere;
          relay = some e;
          reported = [];
          polls = n;
          ending = some e;
        })
    completed :
        (relay : Option (Ending Panic))
        → (n : ℕ) → EndsAt n (ok tt)
        → Reached (record {
          caller = some finished;
          place = nowhere;
          relay = relay;
          reported = [];
          polls = n;
          ending = some (ok tt);
        })
    over :
        (relay : Option (Ending Panic))
        → (reported : List Panic) → (e : Ending Panic) → (n : ℕ) → EndsAt n e
        → Reached (record {
          caller = none;
          place = nowhere;
          relay = relay;
          reported = reported;
          polls = n;
          ending = some e;
        })

  after-suc :
      (n : ℕ) (w : Work) (p : Poll Work Panic)
      → after n ≡ pending w
      → poll_work w ≡ p
      → after (suc n) ≡ p
  unfolding after
  after-suc n w p h e = ap again h ∙ e

  ends :
      (n : ℕ) (w : Work) (p : Poll Work Panic) (e : Ending Panic)
      → after n ≡ pending w
      → poll_work w ≡ p
      → ending_of poll_work p ≡ some e
      → EndsAt (suc n) e
  ends n w p e h i j = (n, w, refl, h, ap (ending_of poll_work) i ∙ j)

  starts-Reached :
      (multi : Bool) (w : Work) (n : ℕ) (p : Poll Work Panic)
      → after n ≡ pending w
      → poll_work w ≡ p
      → Reached
          (inline_poll poll_work multi p (record {
            caller = some (inline w true);
            place = nowhere;
            relay = none;
            reported = [];
            polls = suc n;
            ending = ending_of poll_work p;
          })).1
  starts-Reached multi w n (pending v) h i = awaited multi v (suc n) (after-suc n w _ h i)
  starts-Reached multi w n ready h i = completed none (suc n) (ends n w _ _ h i refl)
  starts-Reached multi w n (unwound payload) h i =
      over none [] (err payload) (suc n) (ends n w _ _ h i refl)

  awaited-completion :
      (w : Work) (n : ℕ) (p : Poll Work Panic)
      → after n ≡ pending w
      → poll_work w ≡ p
      → Reached (
          run_task poll_work p
            (relayed w)
            (record {
              caller = some handed_off;
              place = completion (relayed w);
              relay = none;
              reported = [];
              polls = n;
              ending = none;
            })
            (stays poll_work))
  awaited-completion w n (pending v) h i = awaited false v (suc n) (after-suc n w _ h i)
  awaited-completion w n ready h i = sent (ok tt) (suc n) (ends n w _ _ h i refl)
  awaited-completion w n (unwound payload) h i = sent (err payload) (suc n) (ends n w _ _ h i refl)

  awaited-origin :
      (w : Work) (n : ℕ) (p : Poll Work Panic)
      → after n ≡ pending w
      → poll_work w ≡ p
      → Reached (
          run_task poll_work p
            (relayed w)
            (record {
              caller = some handed_off;
              place = detach poll_work true (relayed w);
              relay = none;
              reported = [];
              polls = n;
              ending = none;
            })
            (λ q.
              after_poll poll_work q (record { work = some (relayed w); transfer_on_drop = true })))
  unfolding poll_detached drop_detached
  awaited-origin w n (pending v) h i = awaited true v (suc n) (after-suc n w _ h i)
  awaited-origin w n ready h i = sent (ok tt) (suc n) (ends n w _ _ h i refl)
  awaited-origin w n (unwound payload) h i = sent (err payload) (suc n) (ends n w _ _ h i refl)

  left-completion :
      (task : Task Work) (n : ℕ) (p : Poll Work Panic)
      → after n ≡ pending (work_of task)
      → poll_work (work_of task) ≡ p
      → Reached (
          run_task poll_work p task
            (record {
              caller = none;
              place = completion task;
              relay = none;
              reported = [];
              polls = n;
              ending = none;
            })
            (stays poll_work))
  left-completion (bare w) n (pending v) h i = left false (bare v) (suc n) (after-suc n w _ h i)
  left-completion (bare w) n ready h i = over none [] (ok tt) (suc n) (ends n w _ _ h i refl)
  left-completion (bare w) n (unwound payload) h i =
      over none [] (err payload) (suc n) (ends n w _ _ h i refl)
  left-completion (relayed w) n (pending v) h i =
      left false (relayed v) (suc n) (after-suc n w _ h i)
  left-completion (relayed w) n ready h i = over none [] (ok tt) (suc n) (ends n w _ _ h i refl)
  left-completion (relayed w) n (unwound payload) h i =
      over none (payload ∷ []) (err payload) (suc n) (ends n w _ _ h i refl)

  left-origin :
      (task : Task Work) (n : ℕ) (p : Poll Work Panic)
      → after n ≡ pending (work_of task)
      → poll_work (work_of task) ≡ p
      → Reached (
          run_task poll_work p task
            (record {
              caller = none;
              place = detach poll_work true task;
              relay = none;
              reported = [];
              polls = n;
              ending = none;
            })
            (λ q. after_poll poll_work q (record { work = some task; transfer_on_drop = true })))
  unfolding poll_detached drop_detached
  left-origin (bare w) n (pending v) h i = left true (bare v) (suc n) (after-suc n w _ h i)
  left-origin (bare w) n ready h i = over none [] (ok tt) (suc n) (ends n w _ _ h i refl)
  left-origin (bare w) n (unwound payload) h i =
      over none [] (err payload) (suc n) (ends n w _ _ h i refl)
  left-origin (relayed w) n (pending v) h i = left true (relayed v) (suc n) (after-suc n w _ h i)
  left-origin (relayed w) n ready h i = over none [] (ok tt) (suc n) (ends n w _ _ h i refl)
  left-origin (relayed w) n (unwound payload) h i =
      over none (payload ∷ []) (err payload) (suc n) (ends n w _ _ h i refl)

  pub act-Reached :
      (action : Action) (o : Owner Work Panic) → Reached o → Reached (act poll_work action o)
  unfolding act poll_caller drop_caller drop_detached
  act-Reached (caller_poll multi) _ (starts w n h) = starts-Reached multi w n _ h refl
  act-Reached (caller_poll multi) _ (awaited true w n h) = awaited true w n h
  act-Reached (caller_poll multi) _ (awaited false w n h) = awaited false w n h
  act-Reached (caller_poll multi) _ (left b task n h) = left b task n h
  act-Reached (caller_poll multi) _ (sent (ok _) n h) = completed (some (ok tt)) n h
  act-Reached (caller_poll multi) _ (sent (err payload) n h) = over (some (err payload)) [] _ n h
  act-Reached (caller_poll multi) _ (over relay reported e n h) = over relay reported e n h
  act-Reached (caller_poll multi) _ (completed relay n h) = completed relay n h
  act-Reached (caller_drop multi) _ (starts w n h) = left multi (bare w) n h
  act-Reached (caller_drop multi) _ (awaited b w n h) = left b (relayed w) n h
  act-Reached (caller_drop multi) _ (left b task n h) = left b task n h
  act-Reached (caller_drop multi) _ (sent e n h) = over (some e) [] e n h
  act-Reached (caller_drop multi) _ (over relay reported e n h) = over relay reported e n h
  act-Reached (caller_drop multi) _ (completed relay n h) = over relay [] _ n h
  act-Reached origin_poll _ (starts w n h) = starts w n h
  act-Reached origin_poll _ (awaited true w n h) = awaited-origin w n _ h refl
  act-Reached origin_poll _ (awaited false w n h) = awaited false w n h
  act-Reached origin_poll _ (left true task n h) = left-origin task n _ h refl
  act-Reached origin_poll _ (left false task n h) = left false task n h
  act-Reached origin_poll _ (sent e n h) = sent e n h
  act-Reached origin_poll _ (over relay reported e n h) = over relay reported e n h
  act-Reached origin_poll _ (completed relay n h) = completed relay n h
  act-Reached origin_shutdown _ (starts w n h) = starts w n h
  act-Reached origin_shutdown _ (awaited true w n h) = awaited false w n h
  act-Reached origin_shutdown _ (awaited false w n h) = awaited false w n h
  act-Reached origin_shutdown _ (left true task n h) = left false task n h
  act-Reached origin_shutdown _ (left false task n h) = left false task n h
  act-Reached origin_shutdown _ (sent e n h) = sent e n h
  act-Reached origin_shutdown _ (over relay reported e n h) = over relay reported e n h
  act-Reached origin_shutdown _ (completed relay n h) = completed relay n h
  act-Reached completion_poll _ (starts w n h) = starts w n h
  act-Reached completion_poll _ (awaited true w n h) = awaited true w n h
  act-Reached completion_poll _ (awaited false w n h) = awaited-completion w n _ h refl
  act-Reached completion_poll _ (left true task n h) = left true task n h
  act-Reached completion_poll _ (left false task n h) = left-completion task n _ h refl
  act-Reached completion_poll _ (sent e n h) = sent e n h
  act-Reached completion_poll _ (over relay reported e n h) = over relay reported e n h
  act-Reached completion_poll _ (completed relay n h) = completed relay n h

  pub run-Reached :
      (actions : List Action) (o : Owner Work Panic) → Reached o → Reached (run poll_work actions o)
  unfolding run
  run-Reached [] o r = r
  run-Reached (action ∷ actions) o r =
      run-Reached actions (act poll_work action o) (act-Reached action o r)
