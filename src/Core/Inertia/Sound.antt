-- ===== src/Core/Inertia/Sound.antt =====
-- fiber/inertia.rs: what holds between two accesses, and that an access keeps it, for threads none
-- of which is an initial pass.
use cordis_rs.Base.{ℕ, ◌+◌, ◌≤◌, ◌≡◌, ap, ◌∙◌, true, false, Option, some, arith}
use cordis_rs.Core.Events.{is_some}
use cordis_rs.Core.Inertia.{Inertia, idle, active, releasing}
use cordis_rs.Core.Inertia.Threads.{
  Shared, Pass, initial, kicked, convergence, restart, disposal, update, Kick, entered, looping,
  saw_releasing, saw_idle, won, revised, unset, Exit, enter, probe, observe, judge, drift, swap,
  reread, Thread, finished, panicked, changing, committing, kicking, claiming, claimed, starting,
  targeting, settling, settled, exiting, unmarking, ending, abandoning,
}

abbrev pub occupied : Inertia → ℕ
occupied idle = 0
occupied active = 1
occupied releasing = 1

abbrev pub kick_holds : Kick → ℕ
kick_holds won = 1
kick_holds (revised revision) = 1
kick_holds unset = 1
kick_holds _ = 0

module _ {Target : Type 0} where
  -- Whether the thread is the holder of the slot.
  abbrev pub holds : Thread Target → ℕ
  holds finished = 0
  holds panicked = 0
  holds (changing target) = 0
  holds committing = 0
  holds (kicking at) = kick_holds at
  holds (claiming pass) = 0
  holds _ = 1

  -- Whether the thread owes the recheck of a change that it has made.
  abbrev pub owes : Thread Target → ℕ
  owes committing = 1
  owes _ = 0

  abbrev pub IsEstablished : Pass Target → Type 0
  IsEstablished initial = true ≡ false
  IsEstablished _ = Unit

  abbrev pub IsClaimant : Pass Target → Type 0
  IsClaimant restart = Unit
  IsClaimant disposal = Unit
  IsClaimant (update target) = Unit
  IsClaimant _ = true ≡ false

  abbrev pub Aims : Pass Target → Shared Target → Type 0
  Aims convergence s = is_some s.slot.target ≡ true
  Aims initial s = true ≡ false
  Aims _ s = Unit

  -- At the revision, with no recheck owed, the live target is this one.
  abbrev pub Tracks : Shared Target → ℕ → ℕ → Target → Type 0
  Tracks s owed revision target =
      (revision ≤ s.slot.recheck_committed)
      × (s.slot.recheck_committed ≡ revision → owed ≡ 0 → s.live ≡ target)

  abbrev pub GoodExit : Shared Target → ℕ → Target → Exit Target → Type 0
  GoodExit s owed target (enter revision) = revision ≤ s.slot.recheck_committed
  GoodExit s owed target (probe revision) = revision ≤ s.slot.recheck_committed
  GoodExit s owed target (observe revision live) = Tracks s owed revision live
  GoodExit s owed target (judge revision live observed) =
      Tracks s owed revision live × (observed ≤ s.slot.recheck_committed)
  GoodExit s owed target drift = is_some s.slot.target ≡ true
  GoodExit s owed target (swap revision) =
      (s.slot.recheck_settled ≡ revision) × Tracks s owed revision target
  GoodExit s owed target reread = Unit

  abbrev pub GoodKick : Shared Target → Kick → Type 0
  GoodKick s (revised revision) = revision ≤ s.slot.recheck_committed
  GoodKick s _ = Unit

  -- What a thread may rely on at its next access, whatever the others do.
  abbrev pub Good : Shared Target → ℕ → Thread Target → Type 0
  Good s owed finished = Unit
  Good s owed panicked = true ≡ false
  Good s owed (changing target) = Unit
  Good s owed committing = Unit
  Good s owed (kicking at) = GoodKick s at
  Good s owed (claiming pass) = IsClaimant pass
  Good s owed (claimed pass) = IsClaimant pass
  Good s owed (starting pass) = Aims pass s
  Good s owed (targeting pass revision) = Aims pass s × (revision ≤ s.slot.recheck_committed)
  Good s owed (settling pass target revision) =
      IsEstablished pass × (revision ≤ s.slot.recheck_committed)
  Good s owed (settled pass target revision) =
      IsEstablished pass × (revision ≤ s.slot.recheck_committed)
  Good s owed (exiting pass target at) = IsEstablished pass × GoodExit s owed target at
  Good s owed unmarking = true ≡ false
  Good s owed ending = true ≡ false
  Good s owed abandoning = Unit

  -- An idle slot that was released by `exit_recheck`.
  abbrev pub Rests : Inertia → Option Target → Shared Target → ℕ → Type 0
  Rests idle (some target) s owed = Tracks s owed s.slot.recheck_settled target
  Rests _ _ s owed = Unit

  -- The thread `t` among others that hold and owe so much.
  abbrev pub Sound : Shared Target → (held owed : ℕ) → Thread Target → Type 0
  Sound s held owed t =
      (held + holds t ≡ occupied s.slot.inertia)
      × Good s (owed + owes t) t
      × Rests s.slot.inertia s.released s (owed + owes t)

  -- What a thread that does not hold the slot does to the others.
  abbrev pub IsMild : Shared Target → ℕ → Shared Target → ℕ → Type 0
  IsMild s owed s' owed' =
      (s'.slot.target ≡ s.slot.target)
      × (s'.slot.recheck_settled ≡ s.slot.recheck_settled)
      × (s.slot.recheck_committed ≤ s'.slot.recheck_committed)
      × ((revision : ℕ) (target : Target)
          → Tracks s owed revision target
          → Tracks s' owed' revision target)

  -- The facts of a thread that does not hold the slot are about itself alone.
  pub Good-outside :
      (s s' : Shared Target) (owed owed' : ℕ) (t : Thread Target)
      → holds t ≡ 0
      → Good s owed t
      → Good s' owed' t
  Good-outside s s' owed owed' finished h g = tt
  Good-outside s s' owed owed' panicked h g = g
  Good-outside s s' owed owed' (changing target) h g = tt
  Good-outside s s' owed owed' committing h g = tt
  Good-outside s s' owed owed' (kicking (revised r)) h g = absurd (ground arith)
  Good-outside s s' owed owed' (kicking won) h g = tt
  Good-outside s s' owed owed' (kicking unset) h g = tt
  Good-outside s s' owed owed' (kicking entered) h g = tt
  Good-outside s s' owed owed' (kicking looping) h g = tt
  Good-outside s s' owed owed' (kicking saw_releasing) h g = tt
  Good-outside s s' owed owed' (kicking saw_idle) h g = tt
  Good-outside s s' owed owed' (claiming pass) h g = g
  Good-outside s s' owed owed' (claimed pass) h g = absurd (ground arith)
  Good-outside s s' owed owed' (starting pass) h g = absurd (ground arith)
  Good-outside s s' owed owed' (targeting pass r) h g = absurd (ground arith)
  Good-outside s s' owed owed' (settling pass target r) h g = absurd (ground arith)
  Good-outside s s' owed owed' (settled pass target r) h g = absurd (ground arith)
  Good-outside s s' owed owed' (exiting pass target at) h g = absurd (ground arith)
  Good-outside s s' owed owed' unmarking h g = absurd (ground arith)
  Good-outside s s' owed owed' ending h g = absurd (ground arith)
  Good-outside s s' owed owed' abandoning h g = tt

  Aims-Mild :
      (s s' : Shared Target) (pass : Pass Target)
      → s'.slot.target ≡ s.slot.target
      → Aims pass s
      → Aims pass s'
  Aims-Mild s s' initial m g = g
  Aims-Mild s s' kicked m g = tt
  Aims-Mild s s' convergence m g = ap is_some m ∙ g
  Aims-Mild s s' restart m g = tt
  Aims-Mild s s' disposal m g = tt
  Aims-Mild s s' (update target) m g = tt

  pub Good-Mild :
      (s s' : Shared Target) (owed owed' : ℕ) (t : Thread Target)
      → IsMild s owed s' owed'
      → Good s owed t
      → Good s' owed' t
  Good-Mild s s' owed owed' finished m g = tt
  Good-Mild s s' owed owed' panicked m g = g
  Good-Mild s s' owed owed' (changing target) m g = tt
  Good-Mild s s' owed owed' committing m g = tt
  Good-Mild s s' owed owed' (kicking (revised r)) m g = omega (arith, g, m.2)
  Good-Mild s s' owed owed' (kicking won) m g = tt
  Good-Mild s s' owed owed' (kicking unset) m g = tt
  Good-Mild s s' owed owed' (kicking entered) m g = tt
  Good-Mild s s' owed owed' (kicking looping) m g = tt
  Good-Mild s s' owed owed' (kicking saw_releasing) m g = tt
  Good-Mild s s' owed owed' (kicking saw_idle) m g = tt
  Good-Mild s s' owed owed' (claiming pass) m g = g
  Good-Mild s s' owed owed' (claimed pass) m g = g
  Good-Mild s s' owed owed' (starting pass) m g = Aims-Mild s s' pass m.0 g
  Good-Mild s s' owed owed' (targeting pass r) m g =
      (Aims-Mild s s' pass m.0 g.0, omega (arith, g.1, m.2))
  Good-Mild s s' owed owed' (settling pass target r) m g = (g.0, omega (arith, g.1, m.2))
  Good-Mild s s' owed owed' (settled pass target r) m g = (g.0, omega (arith, g.1, m.2))
  Good-Mild s s' owed owed' (exiting pass target (enter r)) m g = (g.0, omega (arith, g.1, m.2))
  Good-Mild s s' owed owed' (exiting pass target (probe r)) m g = (g.0, omega (arith, g.1, m.2))
  Good-Mild s s' owed owed' (exiting pass target (observe r live)) m g = (g.0, m.3 r live g.1)
  Good-Mild s s' owed owed' (exiting pass target (judge r live observed)) m g =
      (g.0, (m.3 r live g.1.0, omega (arith, g.1.1, m.2)))
  Good-Mild s s' owed owed' (exiting pass target drift) m g = (g.0, ap is_some m.0 ∙ g.1)
  Good-Mild s s' owed owed' (exiting pass target (swap r)) m g =
      (g.0, (m.1 ∙ g.1.0, m.3 r target g.1.1))
  Good-Mild s s' owed owed' (exiting pass target reread) m g = g
  Good-Mild s s' owed owed' unmarking m g = g
  Good-Mild s s' owed owed' ending m g = g
  Good-Mild s s' owed owed' abandoning m g = tt
