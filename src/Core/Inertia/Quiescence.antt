-- ===== src/Core/Inertia/Quiescence.antt =====
-- fiber/inertia.rs: what a run of threads that begin outside the slot leads to.
use cordis_rs.Base.{
  ℕ, ◌+◌, ◌^◌, ◌<◌, ◌≡◌, refl, ◌≢◌, ◌∙◌, Bool, true, false, none, some, List, [], ◌∷◌, arith, Eq,
  All, All-map, length, if◌then◌else◌,
}
use cordis_rs.Core.Inertia.{InertiaSlot, idle, is_idle, has_committed_recheck}
use cordis_rs.Core.Inertia.Threads.{
  Shared, entered, Thread, panicked, changing, kicking, claiming, Choice, run,
}
use cordis_rs.Core.Inertia.Sound.{occupied, holds, owes, IsClaimant, Good, Rests, Tracks}
use cordis_rs.Core.Inertia.Holder.{total, IsSettling, run-IsSettling}

module _ {Target : Type 0} where
  -- A thread that begins outside the slot: a Service change with its recheck and kick, a kick, or
  -- the claim of a restart, an update or a disposal.
  abbrev pub IsOutside : Thread Target → Type 0
  IsOutside (changing target) = Unit
  IsOutside (kicking entered) = Unit
  IsOutside (claiming pass) = IsClaimant pass
  IsOutside _ = true ≡ false

  IsOutside-Good : (s : Shared Target) (owed : ℕ) (t : Thread Target) → IsOutside t → Good s owed t
  IsOutside-Good s owed t h = ground arith

  IsOutside-holds : (t : Thread Target) → IsOutside t → holds t ≡ 0
  IsOutside-holds t h = ground arith

  IsOutside-total : (ts : List (Thread Target)) → All IsOutside ts → total holds ts ≡ 0
  IsOutside-total [] h = refl
  IsOutside-total (t ∷ ts) h = omega (arith, IsOutside-holds t h.0, IsOutside-total ts h.1)

  -- A slot that no thread holds and that no `exit_recheck` has released.
  abbrev pub IsFree : Shared Target → Type 0
  IsFree s = (s.slot.inertia ≡ idle) × (s.released ≡ none)

  IsOutside-IsSettling :
      (ts : List (Thread Target)) (s : Shared Target)
      → All IsOutside ts
      → IsFree s
      → IsSettling ts s
  IsOutside-IsSettling ts s h f = (
    rw (f.0) (IsOutside-total ts h),
    All-map IsOutside (Good s (total owes ts)) ts (IsOutside-Good s (total owes ts)) h,
    rw (f.0, f.1) tt,
  )

  Good-unpanicked :
      (s : Shared Target) (owed : ℕ) (t : Thread Target) → Good s owed t → t ≢ panicked
  Good-unpanicked s owed t g q = absurd (ground arith)

  occupied-is_idle :
      (slot : InertiaSlot Target) → occupied slot.inertia ≡ (if is_idle slot then 0 else 1)
  occupied-is_idle slot = ground arith

  Rests-Tracks :
      (s : Shared Target) (owed : ℕ) (target : Target)
      → is_idle s.slot ≡ true
      → s.released ≡ some target
      → Rests s.slot.inertia s.released s owed
      → Tracks s owed s.slot.recheck_settled target
  Rests-Tracks s owed target i r h = ground arith

  module _ ⦃e : Eq Target⦄ (has_missing : Target → Bool) where
    -- However many changes, kicks, restarts, updates and disposals run against a free slot, and
    -- however fewer than 2^64 accesses of theirs interleave: one thread holds the slot when it is
    -- not idle and none when it is, and no thread panics.
    pub run-one_holder :
        (moves : List (ℕ × Choice)) (ts : List (Thread Target)) (s : Shared Target)
        → s.slot.recheck_committed + length moves < 2 ^ 64
        → All IsOutside ts
        → IsFree s
        → (total holds (run has_missing moves ts s).0
            ≡ (if is_idle (run has_missing moves ts s).1.slot then 0 else 1))
          × All (λ t. t ≢ panicked) (run has_missing moves ts s).0
    run-one_holder moves ts s b h f =
        let (ts', s') = run has_missing moves ts s in
        let kept = run-IsSettling has_missing moves ts s b (IsOutside-IsSettling ts s h f) in
        (
          kept.0 ∙ occupied-is_idle s'.slot,
          All-map (Good s' (total owes ts')) (λ t. t ≢ panicked) ts'
              (Good-unpanicked s' (total owes ts')) kept.1,
        )

    -- No recheck is lost: when such a run has left the slot idle with no recheck outstanding, and no
    -- change still owes its recheck, the live target is the one that the last release settled,
    -- unless the slot was never released or was abandoned after that.
    pub run-quiescent :
        (moves : List (ℕ × Choice)) (ts : List (Thread Target)) (s : Shared Target)
        (target : Target)
        → s.slot.recheck_committed + length moves < 2 ^ 64
        → All IsOutside ts
        → IsFree s
        → is_idle (run has_missing moves ts s).1.slot ≡ true
        → has_committed_recheck (run has_missing moves ts s).1.slot ≡ false
        → total owes (run has_missing moves ts s).0 ≡ 0
        → (run has_missing moves ts s).1.released ≡ some target
        → (run has_missing moves ts s).1.live ≡ target
    run-quiescent moves ts s target b h f i c o r =
        let (ts', s') = run has_missing moves ts s in
        let kept = run-IsSettling has_missing moves ts s b (IsOutside-IsSettling ts s h f) in
        (Rests-Tracks s' (total owes ts') target i r kept.2).1 (ground (arith, c)) o
