-- ===== src/Core/Inertia/Keep.antt =====
-- fiber/inertia.rs: every access keeps what holds between two accesses.
use cordis_rs.Base.{
  ℕ, ◌+◌, ◌^◌, ◌≤◌, ◌<◌, ◌≡◌, refl, inl, inr, Bool, ◌||◌, true, false, not, arith, Eq, ◌==◌,
  Bool-cases, eq_of_beq,
}
use cordis_rs.Core.Inertia.{has_committed_recheck}
use cordis_rs.Core.Inertia.Threads.{
  Shared, Pass, initial, kicked, convergence, restart, disposal, update, Kick, entered, looping,
  saw_releasing, saw_idle, won, revised, unset, Exit, enter, probe, observe, judge, drift, swap,
  reread, Thread, finished, panicked, changing, committing, kicking, claiming, claimed, starting,
  targeting, settling, settled, exiting, unmarking, ending, abandoning, Choice, act, kick,
  exit_recheck, admit, aim, conclude,
}
use cordis_rs.Core.Inertia.Sound.{holds, owes, Sound, IsMild}

module _ {Target : Type 0} where
  Sound-kick :
      (on_runtime : Bool) (at : Kick) (s : Shared Target) (held owed : ℕ)
      → Sound s held owed (kicking at)
      → Sound (kick on_runtime at s).1 held owed (kick on_runtime at s).0
  Sound-kick on_runtime entered s held owed h =
      elim (Bool-cases (not s.alive || not (has_committed_recheck s.slot))) [
        | inl b ↦ rw b (ground arith)
        | inr b ↦ rw b (ground arith)
      ]
  Sound-kick on_runtime looping s held owed h = ground arith
  Sound-kick on_runtime saw_releasing s held owed h = ground arith
  Sound-kick false saw_idle s held owed h = ground arith
  Sound-kick true saw_idle s held owed h = ground arith
  Sound-kick on_runtime won s held owed h = ground arith
  Sound-kick on_runtime (revised revision) s held owed h = ground arith
  Sound-kick on_runtime unset s held owed h = ground arith

  module _ ⦃e : Eq Target⦄ where
    Sound-exit :
        (pass : Pass Target) (target : Target) (at : Exit Target) (s : Shared Target)
        (held owed : ℕ)
        → Sound s held owed (exiting pass target at)
        → Sound (exit_recheck pass target at s).1 held owed (exit_recheck pass target at s).0
    Sound-exit pass target (enter revision) s held owed h = ground arith
    Sound-exit pass target (probe revision) s held owed h = ground arith
    Sound-exit pass target (observe revision live) s held owed h = ground arith
    Sound-exit pass target (judge revision live observed) s held owed h =
        ground (arith, eq_of_beq live target)
    Sound-exit pass target drift s held owed h = ground arith
    Sound-exit pass target (swap revision) s held owed h = ground arith
    Sound-exit pass target reread s held owed h = ground arith

  Sound-admit :
      (pass : Pass Target) (s : Shared Target) (held owed : ℕ)
      → Sound s held owed (claimed pass)
      → Sound (admit pass s).1 held owed (admit pass s).0
  Sound-admit restart s held owed h = elim (Bool-cases s.alive) [
    | inl b ↦ rw b (ground arith)
    | inr b ↦ rw b (ground arith)
  ]
  Sound-admit (update input) s held owed h = elim (Bool-cases s.alive) [
    | inl b ↦ rw b (ground arith)
    | inr b ↦ rw b (ground arith)
  ]
  Sound-admit disposal s held owed h = elim (Bool-cases s.alive) [
    | inl b ↦ rw b (ground arith)
    | inr b ↦ rw b (ground arith)
  ]
  Sound-admit initial s held owed h = ground arith
  Sound-admit kicked s held owed h = ground arith
  Sound-admit convergence s held owed h = ground arith

  Sound-aim :
      (pass : Pass Target) (revision : ℕ) (s : Shared Target) (held owed : ℕ)
      → Sound s held owed (targeting pass revision)
      → Sound (aim pass revision s).1 held owed (aim pass revision s).0
  Sound-aim initial revision s held owed h = ground arith
  Sound-aim kicked revision s held owed h = ground arith
  Sound-aim convergence revision s held owed h = ground arith
  Sound-aim restart revision s held owed h = ground arith
  Sound-aim disposal revision s held owed h = ground arith
  Sound-aim (update input) revision s held owed h = ground arith

  module _ ⦃e : Eq Target⦄ (has_missing : Target → Bool) where
    Sound-conclude :
        (failed : Bool) (pass : Pass Target) (target : Target) (revision : ℕ) (s : Shared Target)
        (held owed : ℕ)
        → Sound s held owed (settled pass target revision)
        → Sound
            (conclude has_missing failed pass target revision s).1
            held
            owed
            (conclude has_missing failed pass target revision s).0
    Sound-conclude failed initial target revision s held owed h = ground arith
    Sound-conclude failed kicked target revision s held owed h = ground arith
    Sound-conclude failed convergence target revision s held owed h =
        elim (Bool-cases (s.live == target)) [
          | inl b ↦ rw b (ground arith)
          | inr b ↦ rw b (ground arith)
        ]
    Sound-conclude failed restart target revision s held owed h = ground arith
    Sound-conclude failed disposal target revision s held owed h = ground arith
    Sound-conclude failed (update input) target revision s held owed h = ground arith

    -- An access of a thread keeps what holds of it and of the slot.
    pub Sound-act :
        (c : Choice) (t : Thread Target) (s : Shared Target) (held owed : ℕ)
        → s.slot.recheck_committed + 1 < 2 ^ 64
        → Sound s held owed t
        → Sound (act has_missing c t s).1 held owed (act has_missing c t s).0
    unfolding act
    Sound-act c finished s held owed b h = h
    Sound-act c panicked s held owed b h = h
    Sound-act c (changing target) s held owed b h = ground arith
    Sound-act c committing s held owed b h = ground arith
    Sound-act c (kicking at) s held owed b h = Sound-kick c.on_runtime at s held owed h
    Sound-act c (claiming pass) s held owed b h = ground arith
    Sound-act c (claimed pass) s held owed b h = Sound-admit pass s held owed h
    Sound-act c (starting pass) s held owed b h = ground arith
    Sound-act c (targeting pass revision) s held owed b h = Sound-aim pass revision s held owed h
    Sound-act c (settling pass target revision) s held owed b h = ground arith
    Sound-act c (settled pass target revision) s held owed b h =
        Sound-conclude c.failed pass target revision s held owed h
    Sound-act c (exiting pass target at) s held owed b h = Sound-exit pass target at s held owed h
    Sound-act c unmarking s held owed b h = ground arith
    Sound-act c ending s held owed b h = ground arith
    Sound-act c abandoning s held owed b h = ground arith

    -- A thread that does not hold the slot disturbs no other.
    pub IsMild-act :
        (c : Choice) (t : Thread Target) (s : Shared Target) (owed : ℕ)
        → s.slot.recheck_committed + 1 < 2 ^ 64
        → holds t ≡ 0
        → IsMild s (owed + owes t) (act has_missing c t s).1 (owed + owes (act has_missing c t s).0)
    unfolding act
    IsMild-act c finished s owed b h = ground arith
    IsMild-act c panicked s owed b h = ground arith
    IsMild-act c (changing target) s owed b h = ground arith
    IsMild-act c committing s owed b h = ground arith
    IsMild-act c (kicking entered) s owed b h =
        elim (Bool-cases (not s.alive || not (has_committed_recheck s.slot))) [
          | inl q ↦ rw q (refl, refl, omega arith, λ r t k. k)
          | inr q ↦ rw q (refl, refl, omega arith, λ r t k. k)
        ]
    IsMild-act c (kicking looping) s owed b h = ground arith
    IsMild-act c (kicking saw_releasing) s owed b h = ground arith
    IsMild-act c (kicking saw_idle) s owed b h = ground arith
    IsMild-act c (kicking won) s owed b h = absurd (ground arith)
    IsMild-act c (kicking (revised r)) s owed b h = absurd (ground arith)
    IsMild-act c (kicking unset) s owed b h = absurd (ground arith)
    IsMild-act c (claiming pass) s owed b h = ground arith
    IsMild-act c (claimed pass) s owed b h = absurd (ground arith)
    IsMild-act c (starting pass) s owed b h = absurd (ground arith)
    IsMild-act c (targeting pass revision) s owed b h = absurd (ground arith)
    IsMild-act c (settling pass target revision) s owed b h = absurd (ground arith)
    IsMild-act c (settled pass target revision) s owed b h = absurd (ground arith)
    IsMild-act c (exiting pass target at) s owed b h = absurd (ground arith)
    IsMild-act c unmarking s owed b h = absurd (ground arith)
    IsMild-act c ending s owed b h = absurd (ground arith)
    IsMild-act c abandoning s owed b h = absurd (ground arith)

    -- One access commits one recheck at most.
    pub act-committed :
        (c : Choice) (t : Thread Target) (s : Shared Target)
        → (act has_missing c t s).1.slot.recheck_committed ≤ s.slot.recheck_committed + 1
    unfolding act
    act-committed c finished s = omega arith
    act-committed c panicked s = omega arith
    act-committed c (changing target) s = omega arith
    act-committed c committing s = omega arith
    act-committed c (kicking at) s = ground arith
    act-committed c (claiming pass) s = ground arith
    act-committed c (claimed pass) s = ground arith
    act-committed c (starting pass) s = omega arith
    act-committed c (targeting pass revision) s = ground arith
    act-committed c (settling pass target revision) s = omega arith
    act-committed c (settled pass target revision) s = ground arith
    act-committed c (exiting pass target at) s = ground arith
    act-committed c unmarking s = omega arith
    act-committed c ending s = omega arith
    act-committed c abandoning s = omega arith
