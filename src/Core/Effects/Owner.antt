-- ===== src/Core/Effects/Owner.antt =====
-- effect.rs, `DetachedWork`, `CallerDriven`, `hand_off` and `detach`: committed work that its caller
-- polls first, and that an executor drives when the caller is gone or the work was pending.
-- A future is what it does when polled: `Work` and `poll_work` are parameters, and what unwinds is a
-- payload. The executors of tokio poll a task that is not finished, and drop one that is.
pub mod Driven
pub mod Holder
use cordis_rs.Base.{ℕ, suc, Bool, true, false, Option, none, some, List, [], ◌∷◌, Result, ok, err}

pub data Poll (F Panic : Type 0) : Type 0 where
  pending : F → Poll F Panic
  ready : Poll F Panic
  unwound : Panic → Poll F Panic

pub record DetachedWork (F : Type 0) : Type 0 where
  pub work : Option F
  pub transfer_on_drop : Bool

module _ {F Panic : Type 0} (poll_future : F → Poll F Panic) where
  abbrev polled : Poll F Panic → F → Poll (Unit {0}) Panic × DetachedWork F
  polled (pending w) old = (pending tt, record { work = some w; transfer_on_drop = true })
  polled ready old = (ready, record { work = none; transfer_on_drop = false })
  polled (unwound payload) old =
      (unwound payload, record { work = some old; transfer_on_drop = false })

  -- `DetachedWork::poll`; `none` is the panic of its `expect`.
  pub poll_detached : DetachedWork F → Option (Poll (Unit {0}) Panic × DetachedWork F)
  poll_detached detached = elim detached.work [
    | none ↦ none
    | some w ↦ some (polled (poll_future w) w)
  ]

-- `DetachedWork::drop`: the future that moves to the completion runtime.
pub drop_detached : {F : Type 0} → DetachedWork F → Option F
drop_detached detached = elim detached.transfer_on_drop [ true ↦ detached.work | false ↦ none ]

-- `CallerDrivenStage`
pub data Stage (Work : Type 0) : Type 0 where
  inline : (work : Work) → (transfer_on_drop : Bool) → Stage Work
  handed_off : Stage Work
  finished : Stage Work

-- What `detach` was given: the work itself, or the future of `hand_off` around it.
pub data Task (Work : Type 0) : Type 0 where
  bare : Work → Task Work
  relayed : Work → Task Work

abbrev pub work_of : {Work : Type 0} → Task Work → Work
work_of (bare work) = work
work_of (relayed work) = work

pub data Place (Work : Type 0) : Type 0 where
  origin : DetachedWork (Task Work) → Place Work
  completion : Task Work → Place Work
  nowhere : Place Work

abbrev pub Ending : Type 0 → Type 0
Ending Panic = Result (Unit {0}) Panic

-- The caller's future, where the work runs, the relay of `hand_off` and what was reported. `polls`
-- and `ending` are not in the code: they record how often the work was polled, and how it ended.
pub record Owner (Work Panic : Type 0) : Type 0 where
  pub caller : Option (Stage Work)
  pub place : Place Work
  pub relay : Option (Ending Panic)
  pub reported : List Panic
  pub polls : ℕ
  pub ending : Option (Ending Panic)

-- What the caller's poll answers: `lost` is the panic "ended without an outcome".
pub data Answer (Panic : Type 0) : Type 0 where
  waits done lost : Answer Panic
  resumes : Panic → Answer Panic

pub data Action : Type 0 where
  caller_poll caller_drop : (multi_thread : Bool) → Action
  origin_poll origin_shutdown completion_poll : Action

module _ {Work Panic : Type 0} (poll_work : Work → Poll Work Panic) where
  -- `CallerDriven::new`
  pub new_owner : Work → Owner Work Panic
  new_owner work = record {
    caller = some (inline work true);
    place = nowhere;
    relay = none;
    reported = [];
    polls = 0;
    ending = none;
  }

  -- `detach`: the match on the current runtime.
  abbrev pub detach : Bool → Task Work → Place Work
  detach true task = origin (record { work = some task; transfer_on_drop = true })
  detach false task = completion task

  abbrev pub ending_of : Poll Work Panic → Option (Ending Panic)
  ending_of (pending work) = none
  ending_of ready = some (ok tt)
  ending_of (unwound payload) = some (err payload)

  abbrev noted : Poll Work Panic → Owner Work Panic → Owner Work Panic
  noted p o = record o { polls = suc o.polls; ending = ending_of p }

  -- The inline arm of `CallerDriven::poll`. A poll that unwinds drops the caller, whose cleared flag
  -- transfers nothing.
  abbrev pub inline_poll :
      Bool → Poll Work Panic → Owner Work Panic → Answer Panic × Owner Work Panic
  inline_poll multi (pending work) o =
      (waits, record o { caller = some handed_off; place = detach multi (relayed work) })
  inline_poll multi ready o = (done, record o { caller = some finished })
  inline_poll multi (unwound payload) o = (resumes payload, record o { caller = none })

  abbrev is_nowhere : Place Work → Answer Panic
  is_nowhere nowhere = lost
  is_nowhere _ = waits

  -- The match on the relay; the relay is closed when the task is gone and nothing was sent.
  abbrev relay_poll : Option (Ending Panic) → Owner Work Panic → Answer Panic × Owner Work Panic
  relay_poll none o = (is_nowhere o.place, o)
  relay_poll (some (ok _)) o = (done, record o { caller = some finished })
  relay_poll (some (err payload)) o = (resumes payload, record o { caller = none })

  -- `CallerDriven::poll`
  pub poll_caller : Bool → Owner Work Panic → Answer Panic × Owner Work Panic
  poll_caller multi o = elim o.caller [
    | none ↦ (waits, o)
    | some finished ↦ (done, o)
    | some handed_off ↦ relay_poll o.relay o
    | some (inline work transfer) ↦ inline_poll multi (poll_work work) (noted (poll_work work) o)
  ]

  -- `CallerDriven::drop`
  pub drop_caller : Bool → Owner Work Panic → Owner Work Panic
  drop_caller multi o = elim o.caller [
    | some (inline work true) ↦ record o { caller = none; place = detach multi (bare work) }
    | _ ↦ record o { caller = none }
  ]

  -- Whether the receiver of the relay still lives.
  abbrev listens : Option (Stage Work) → Bool
  listens (some handed_off) = true
  listens _ = false

  -- The future of `hand_off` sends the ending to a receiver that lives; otherwise it reports a panic
  -- and resumes it. A bare work's panic is the task's.
  abbrev pub poll_task : Bool → Poll Work Panic → Task Work → Poll (Task Work) Panic
  poll_task listening (pending w) (bare _) = pending (bare w)
  poll_task listening (pending w) (relayed _) = pending (relayed w)
  poll_task listening ready task = ready
  poll_task listening (unwound payload) (bare _) = unwound payload
  poll_task true (unwound payload) (relayed _) = ready
  poll_task false (unwound payload) (relayed _) = unwound payload

  -- What a poll of the task sends and reports.
  abbrev pub effects : Bool → Poll Work Panic → Task Work → Owner Work Panic → Owner Work Panic
  effects listening p (bare _) o = o
  effects true p (relayed _) o = record o { relay = ending_of p }
  effects false (unwound payload) (relayed _) o = record o { reported = payload ∷ o.reported }
  effects false _ (relayed _) o = o

  abbrev pub run_task :
      Poll Work Panic
      → Task Work
      → Owner Work Panic
      → (Poll (Task Work) Panic → Place Work)
      → Owner Work Panic
  run_task p task o next =
      let listening = listens o.caller in
      let o1 : Owner Work Panic = effects listening p task (noted p o) in
      record o1 { place = next (poll_task listening p task) }

  abbrev pub stays : Poll (Task Work) Panic → Place Work
  stays (pending task) = completion task
  stays _ = nowhere

  abbrev moved : Option (Task Work) → Place Work
  moved none = nowhere
  moved (some task) = completion task

  -- A task that is finished, or that unwound, is dropped by its executor.
  abbrev pub settled : Option (Poll (Unit {0}) Panic × DetachedWork (Task Work)) → Place Work
  settled none = nowhere
  settled (some (pending _, detached)) = origin detached
  settled (some (_, detached)) = moved (drop_detached detached)

  abbrev pub after_poll : Poll (Task Work) Panic → DetachedWork (Task Work) → Place Work
  after_poll p detached = settled (poll_detached (λ t. p) detached)

  pub act : Action → Owner Work Panic → Owner Work Panic
  unfolding poll_caller drop_caller drop_detached poll_detached
  act (caller_poll multi) o = (poll_caller multi o).1
  act (caller_drop multi) o = drop_caller multi o
  act completion_poll o = elim o.place [
    | completion task ↦ run_task (poll_work (work_of task)) task o stays
    | _ ↦ o
  ]
  act origin_shutdown o = elim o.place [
    | origin detached ↦ record o { place = moved (drop_detached detached) }
    | _ ↦ o
  ]
  act origin_poll o = elim o.place [
    | origin detached ↦ elim detached.work [
      | none ↦ record o { place = nowhere }
      | some task ↦ run_task (poll_work (work_of task)) task o (λ p. after_poll p detached)
    ]
    | _ ↦ o
  ]

  pub run : List Action → Owner Work Panic → Owner Work Panic
  unfolding act
  run [] o = o
  run (action ∷ actions) o = run actions (act action o)
