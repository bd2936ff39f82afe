-- ===== src/Tests/Fiber.antt =====
-- The properties of the Fiber's slot at concrete threads and interleavings.
use cordis_rs.Base.{
  ℕ, zero, suc, ◌+◌, ◌≤◌, ◌≡◌, ◌≢◌, refl, Bool, true, false, none, some, List, [], ◌∷◌, ◌++◌,
  nat_eq, ℕ_eq, arith, All, if◌then◌else◌,
}
use cordis_rs.Core.Inertia.{new_slot, idle, is_idle}
use cordis_rs.Core.Inertia.Threads.{
  Shared, Thread, Choice, claiming, changing, settling, panicked, initial, restart, disposal,
  kicked, entered, kicking, act, move, run,
}
use cordis_rs.Core.Inertia.Sound.{holds}
use cordis_rs.Core.Inertia.Holder.{total}
use cordis_rs.Core.Inertia.Quiescence.{run-one_holder, run-quiescent}
use cordis_rs.Core.Inertia.Alone.{alone, Exits, kick-Exits}
use cordis_rs.Core.Gated.{DisposableList, push, failed}
use cordis_rs.Core.Settle.{Fiber, Applied, settle_once, unload, defers, drain_disposables}
use cordis_rs.Core.Settle.Trails.{Trail, Trails}
use cordis_rs.Core.Settle.Outcome.{Ends, settle_once-Ends}
use cordis_rs.Core.Settle.Drain.{obligation, drain_disposables_empties}

abbrev here : Choice
here = record { on_runtime = true; failed = false }

abbrev missing : ℕ → Bool
missing n = nat_eq n 0

abbrev fresh : Shared ℕ
fresh = record { slot = new_slot; alive = true; live = 5; released = none }

abbrev turns : ℕ → ℕ → List (ℕ × Choice)
turns i zero = []
turns i (suc n) = (i, here) ∷ turns i n

abbrev settling_now : List (Thread ℕ) → ℕ
settling_now [] = 0
settling_now (settling p t r ∷ ts) = 1 + settling_now ts
settling_now (_ ∷ ts) = settling_now ts

-- A creation ends: its slot is released, a kick takes the idle slot for a convergence pass, and the
-- look of the creation at the slot abandons it under that pass; a restart then claims it.
abbrev race : List (ℕ × Choice)
race = turns 0 11 ++ turns 1 14 ++ turns 0 3 ++ turns 2 4

overlap :
    settling_now (run missing race (claiming initial ∷ changing 6 ∷ claiming restart ∷ []) fresh).0
    ≡ 2
unfolding run move act
overlap = refl

-- Two changes, a restart and a disposal, interleaved.
abbrev threads : List (Thread ℕ)
threads = claiming restart ∷ changing 6 ∷ changing 7 ∷ claiming disposal ∷ []

abbrev schedule : List (ℕ × Choice)
schedule = turns 0 7 ++ turns 1 2 ++ turns 2 4 ++ turns 0 3 ++ turns 1 9 ++ turns 3 1 ++ turns 0 24

run-one_holder_example :
    (total holds (run missing schedule threads fresh).0
      ≡ (if is_idle (run missing schedule threads fresh).1.slot then 0 else 1))
    × All (λ t. t ≢ panicked) (run missing schedule threads fresh).0
unfolding run move act
run-one_holder_example =
    run-one_holder missing schedule threads fresh (omega arith) (tt, (tt, (tt, (tt, tt))))
      (refl, refl)

run-quiescent_example : (run missing schedule threads fresh).1.live ≡ 7
unfolding run move act
run-quiescent_example =
    run-quiescent missing schedule threads fresh 7 (omega arith) (tt, (tt, (tt, (tt, tt))))
      (refl, refl) refl refl refl refl

abbrev drifted : Shared ℕ
drifted = record {
  slot = record {
    inertia = idle;
    target = some 4;
    recheck_committed = 3;
    recheck_settled = 2;
    creation_owned = false;
  };
  alive = true;
  live = 5;
  released = none;
}

kick-Exits_example :
    (n : ℕ) × (n ≤ 14)
    × (alone missing n here (kicking entered) drifted ≡ Exits missing kicked 4 drifted false)
kick-Exits_example = kick-Exits missing here drifted 4 refl refl refl refl refl

-- A failed Fiber with two obligations is settled again, by an apply that leaves one.
abbrev settled_before : Fiber ℕ ℕ
settled_before = record {
  state = failed;
  alive = true;
  creation_pending = false;
  applied = true;
  generation_replacing = true;
  error = some 40;
  journal = record { sn = 2; entries = (1, 11) ∷ (2, 12) ∷ [] };
  published = [];
  cleaned = [];
}

abbrev quiet : ℕ → DisposableList ℕ → DisposableList ℕ
quiet cleanup journal = journal

abbrev applies : DisposableList ℕ → Applied ℕ ℕ
applies journal = record { failure = none; journal = (push journal 13).1 }

settle_once-Ends_example :
    Trails failed (settle_once quiet applies false false settled_before)
    × Ends quiet applies false
        (defers false settled_before)
        (applies (unload quiet failed settled_before).journal).failure
        settled_before
        (settle_once quiet applies false false settled_before)
settle_once-Ends_example =
    settle_once-Ends quiet applies failed false false settled_before refl (λ e. ground arith)
      here_trail
  where
    here_trail : Trails failed settled_before
    here_trail = Trail.here

drain_disposables_empties_example :
    obligation (drain_disposables quiet settled_before).journal 2 ≡ none
drain_disposables_empties_example = drain_disposables_empties quiet settled_before 2 (λ c j t h. h)
