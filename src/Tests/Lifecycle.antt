-- ===== src/Tests/Lifecycle.antt =====
-- Committed work of effect.rs that is pending twice before it is ready, and creations of a Fiber.
use cordis_rs.Base.{ℕ, zero, suc, ◌≡◌, refl, true, some, List, [], ◌∷◌, ok}
use cordis_rs.Base.{◌⊎◌}
use cordis_rs.Core.Creation.{
  Creator, dropped, Cleaner, creates, cancels, disposes, cleans, kicks, new_scene, act,
}
use cordis_rs.Core.Creation as Creation
use cordis_rs.Core.Attribution as Attribution
use cordis_rs.Core.Attribution.Frames.{IsOpen}
use cordis_rs.Core.Attribution.Refusal.{run-refusal}
use cordis_rs.Core.Creation.Endings.{Ends, Advances, run-Ends, run-Advances}
use cordis_rs.Base.{String, arith, false}
use cordis_rs.Core.Gated.{Liveness, FiberState}
use cordis_rs.Core.Effects.Obligations as Obligations
use cordis_rs.Core.Effects.Obligations.{registers, disarms, disposes, drains, next, new_generation}
use cordis_rs.Core.Effects.Obligations.Once.{Accounts, run-Accounts}
use cordis_rs.Core.Effects.Owner.{
  Poll, pending, ready, Action, caller_poll, caller_drop, origin_poll, origin_shutdown, new_owner,
  poll_caller, run,
}
use cordis_rs.Core.Effects.Owner.Driven.{after}
use cordis_rs.Core.Effects.Owner.Holder.{
  OneHolder, Learns, drive, run-OneHolder, poll_caller-Learns, drive-Ends,
}

-- Work that is pending as often as the number says.
abbrev countdown : ℕ → Poll ℕ ℕ
countdown zero = ready
countdown (suc n) = pending n

-- The caller polls once, the work moves to the origin executor, and that shuts down.
abbrev actions : List Action
actions = caller_poll true ∷ origin_poll ∷ origin_shutdown ∷ caller_drop true ∷ []

run-OneHolder_example : OneHolder countdown 2 (run countdown actions (new_owner countdown 2))
run-OneHolder_example = run-OneHolder countdown 2 actions

poll_caller-Learns_example :
    Learns countdown 2 (poll_caller countdown true (run countdown actions (new_owner countdown 2)))
poll_caller-Learns_example = poll_caller-Learns countdown 2 actions true

drive-Ends_example :
    (drive countdown 2 3 (run countdown actions (new_owner countdown 2))).ending ≡ some (ok tt)
unfolding after
drive-Ends_example = drive-Ends countdown 2 actions 3 (ok tt) refl

-- A disposer waits while the creation settles; the creation is dropped, and its cleanup runs.
abbrev cancelled : List Creation.Action
cancelled =
    creates true true true
    ∷ creates true true true
    ∷ disposes
    ∷ cancels
    ∷ cleans
    ∷ cleans
    ∷ cleans
    ∷ []

run-Ends_example :
    Ends
      (Creation.run cancelled new_scene).fiber
      (Creation.run cancelled new_scene).creator
      (Creation.run cancelled new_scene).cleaner
run-Ends_example = run-Ends cancelled

run-Advances_example :
    ((Creation.run cancelled new_scene).cleaner ≡ Cleaner.gone)
    ⊎ Advances (Creation.run cancelled new_scene)
unfolding Creation.run Creation.new_scene
run-Advances_example = run-Advances cancelled refl

abbrev open_generation : Liveness
open_generation = record {
  alive = true;
  disposing = false;
  generation_replacing = false;
  state = FiberState.active;
}

-- Three obligations; one is disposed and one disarmed while a drain claims them.
abbrev closing : List (Obligations.Action String)
closing =
    registers open_generation open_generation "socket"
    ∷ registers open_generation open_generation "file"
    ∷ registers open_generation open_generation "lock"
    ∷ drains
    ∷ disposes true 3
    ∷ next
    ∷ disarms true 2
    ∷ next
    ∷ next
    ∷ []

run-Accounts_example : Accounts (Obligations.run closing new_generation)
run-Accounts_example = run-Accounts closing (omega arith)

-- The body of Fiber 7 in task 1 lends its attribution to task 2.
abbrev lent : List Attribution.Action
lent = Attribution.brackets 1 7 ∷ Attribution.transfers 1 2 ∷ []

run-refusal_example :
    (u : ℕ) × (f : Attribution.Frame) × IsOpen f
      ((Attribution.run lent Attribution.idle).tasks u).guards
    × (f.fiber ≡ 7)
unfolding Attribution.run Attribution.act Attribution.idle Attribution.is_doomed
run-refusal_example = run-refusal lent 2 7 false Attribution.restart refl

-- After that body the loan refuses nothing.
expired :
    Attribution.is_doomed
      (Attribution.run
        (Attribution.brackets 1 7 ∷ Attribution.transfers 1 2 ∷ Attribution.leaves 1 ∷ [])
        Attribution.idle)
      2
      7
      false
      Attribution.restart
    ≡ false
unfolding Attribution.run Attribution.act Attribution.idle Attribution.is_doomed
expired = refl
