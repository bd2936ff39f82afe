-- ===== src/Core/Inertia/Holder.antt =====
-- fiber/inertia.rs: over any interleaving, one thread at most holds the slot of a Fiber.
use cordis_rs.Base.{
  ℕ, zero, suc, ◌+◌, ◌^◌, ◌≤◌, ◌<◌, ◌≡◌, refl, sym, subst, inl, inr, ◌⊎◌, Bool, List, [], ◌∷◌,
  arith, Eq, All, length,
}
use cordis_rs.Core.Inertia.{Inertia}
use cordis_rs.Core.Inertia.Threads.{Shared, Thread, Choice, act, move, run}
use cordis_rs.Core.Inertia.Sound.{
  occupied, holds, owes, Good, Rests, Sound, Good-outside, Good-Mild,
}
use cordis_rs.Core.Inertia.Keep.{Sound-act, IsMild-act, act-committed}

occupied_le : (i : Inertia) → occupied i ≤ 1
occupied_le i = ground arith

module _ {Target : Type 0} where
  -- The sum of a measure over the threads.
  abbrev pub total : (Thread Target → ℕ) → List (Thread Target) → ℕ
  total f [] = 0
  total f (t ∷ ts) = f t + total f ts

  -- What holds between two accesses: the slot is idle exactly when no thread holds it, every thread
  -- can rely on its facts, and a slot that `exit_recheck` released tracks the live target.
  abbrev pub IsSettling : List (Thread Target) → Shared Target → Type 0
  IsSettling ts s =
      (total holds ts ≡ occupied s.slot.inertia)
      × All (Good s (total owes ts)) ts
      × Rests s.slot.inertia s.released s (total owes ts)

  -- The same for the threads behind others that hold and owe so much.
  abbrev Behind : ℕ → ℕ → List (Thread Target) → Shared Target → Type 0
  Behind held owed ts s =
      (held + total holds ts ≡ occupied s.slot.inertia)
      × All (Good s (owed + total owes ts)) ts
      × Rests s.slot.inertia s.released s (owed + total owes ts)

  holds_le : (t : Thread Target) → holds t ≤ 1
  holds_le t = ground arith

  All-within :
      (P Q : Thread Target → Type 0) (bound : ℕ) (ts : List (Thread Target))
      → total holds ts ≤ bound
      → ((t : Thread Target) → holds t ≤ bound → P t → Q t)
      → All P ts
      → All Q ts
  All-within P Q bound [] l f h = tt
  All-within P Q bound (t ∷ ts) l f h =
      (f t (omega (arith, l)) h.0, All-within P Q bound ts (omega (arith, l)) f h.1)

  module _ ⦃e : Eq Target⦄ (has_missing : Target → Bool) where
    -- An access of one thread leaves another its facts.
    Good-other :
        (c : Choice) (t q : Thread Target) (s : Shared Target) (held owed : ℕ)
        → s.slot.recheck_committed + 1 < 2 ^ 64
        → Sound s held owed t
        → holds q ≤ held
        → Good s (owed + owes t) q
        → Good (act has_missing c t s).1 (owed + owes (act has_missing c t s).0) q
    Good-other c t q s held owed b h l g =
        elim (split (holds t) (holds q) (omega (arith, h.0, l, occupied_le s.slot.inertia))) [
          | inl z ↦
              Good-Mild s (act has_missing c t s).1 (owed + owes t)
                (owed + owes (act has_missing c t s).0) q (IsMild-act has_missing c t s owed b z) g
          | inr z ↦
              Good-outside s (act has_missing c t s).1 (owed + owes t)
                (owed + owes (act has_missing c t s).0) q z g
        ]
      where
        split : (m n : ℕ) → m + n ≤ 1 → (m ≡ 0) ⊎ (n ≡ 0)
        split zero n k = inl refl
        split (suc m) n k = inr (omega (arith, k))

    abbrev Moves :
        List (Thread Target) → Shared Target → List (Thread Target) → Shared Target → ℕ → ℕ → Type 0
    Moves ts s ts' s' held owed =
        Behind held owed ts' s'
        × ((q : Thread Target)
            → holds q ≤ held
            → Good s (owed + total owes ts) q
            → Good s' (owed + total owes ts') q)

    Behind-move :
        (i : ℕ) (c : Choice) (ts : List (Thread Target)) (s : Shared Target) (held owed : ℕ)
        → s.slot.recheck_committed + 1 < 2 ^ 64
        → Behind held owed ts s
        → Moves ts s (move has_missing i c ts s).0 (move has_missing i c ts s).1 held owed
    unfolding move
    Behind-move i c [] s held owed b h = (h, λ q l g. g)
    Behind-move zero c (t ∷ ts) s held owed b h =
        let before : owed + (owes t + total owes ts) ≡ (owed + total owes ts) + owes t =
          omega arith in
        let (t', s') = act has_missing c t s in
        let after : (owed + total owes ts) + owes t' ≡ owed + (owes t' + total owes ts) =
          omega arith in
        let sound : Sound s (held + total holds ts) (owed + total owes ts) t = (
          omega (arith, h.0),
          subst (λ n. Good s n t) before h.1.0,
          subst (λ n. Rests s.slot.inertia s.released s n) before h.2,
        ) in
        let kept =
          Sound-act has_missing c t s (held + total holds ts) (owed + total owes ts) b sound in
        let other : (q : Thread Target)
            → holds q ≤ held + total holds ts
            → Good s (owed + (owes t + total owes ts)) q
            → Good s' (owed + (owes t' + total owes ts)) q =
          λ q l g.
            subst (λ n. Good s' n q) after
              (Good-other c t q s (held + total holds ts) (owed + total owes ts) b sound l
                (subst (λ n. Good s n q) before g)) in
        (
          (
            omega (arith, kept.0),
            (
              subst (λ n. Good s' n t') after kept.1,
              All-within (Good s (owed + (owes t + total owes ts)))
                  (Good s' (owed + (owes t' + total owes ts))) (held + total holds ts) ts
                  (omega arith) other h.1.1,
            ),
            subst (λ n. Rests s'.slot.inertia s'.released s' n) after kept.2,
          ),
          λ q l g. other q (omega (arith, l)) g,
        )
    Behind-move (suc i) c (t ∷ ts) s held owed b h =
        let (ts', s') = move has_missing i c ts s in
        let flat : (us : List (Thread Target))
            → (owed + owes t) + total owes us ≡ owed + (owes t + total owes us) =
          λ us. omega arith in
        let (kept, other) = Behind-move i c ts s (held + holds t) (owed + owes t) b (
          omega (arith, h.0),
          subst (λ n. All (Good s n) ts) (sym (flat ts)) h.1.1,
          subst (λ n. Rests s.slot.inertia s.released s n) (sym (flat ts)) h.2,
        ) in
        let other' : (q : Thread Target)
            → holds q ≤ held + holds t
            → Good s (owed + (owes t + total owes ts)) q
            → Good s' (owed + (owes t + total owes ts')) q =
          λ q l g.
            subst (λ n. Good s' n q) (flat ts')
              (other q l (subst (λ n. Good s n q) (sym (flat ts)) g)) in
        (
          (
            omega (arith, kept.0),
            (other' t (omega arith) h.1.0, subst (λ n. All (Good s' n) ts') (flat ts') kept.1),
            subst (λ n. Rests s'.slot.inertia s'.released s' n) (flat ts') kept.2,
          ),
          λ q l g. other' q (omega (arith, l)) g,
        )

    IsSettling-Behind :
        (ts : List (Thread Target)) (s : Shared Target) → IsSettling ts s → Behind 0 0 ts s
    IsSettling-Behind ts s h = (
      omega (arith, h.0),
      subst (λ n. All (Good s n) ts) (omega arith) h.1,
      subst (λ n. Rests s.slot.inertia s.released s n) (omega arith) h.2,
    )

    Behind-IsSettling :
        (ts : List (Thread Target)) (s : Shared Target) → Behind 0 0 ts s → IsSettling ts s
    Behind-IsSettling ts s h = (
      omega (arith, h.0),
      subst (λ n. All (Good s n) ts) (omega arith) h.1,
      subst (λ n. Rests s.slot.inertia s.released s n) (omega arith) h.2,
    )

    move-committed :
        (i : ℕ) (c : Choice) (ts : List (Thread Target)) (s : Shared Target)
        → (move has_missing i c ts s).1.slot.recheck_committed ≤ s.slot.recheck_committed + 1
    unfolding move
    move-committed i c [] s = omega arith
    move-committed zero c (t ∷ ts) s = act-committed has_missing c t s
    move-committed (suc i) c (t ∷ ts) s = move-committed i c ts s

    pub run-IsSettling :
        (moves : List (ℕ × Choice)) (ts : List (Thread Target)) (s : Shared Target)
        → s.slot.recheck_committed + length moves < 2 ^ 64
        → IsSettling ts s
        → IsSettling (run has_missing moves ts s).0 (run has_missing moves ts s).1
    unfolding run
    run-IsSettling [] ts s b h = h
    run-IsSettling ((i, c) ∷ moves) ts s b h =
        run-IsSettling moves (move has_missing i c ts s).0 (move has_missing i c ts s).1
          (omega (arith, b, move-committed i c ts s))
          (Behind-IsSettling (move has_missing i c ts s).0 (move has_missing i c ts s).1
            (Behind-move i c ts s 0 0 (omega (arith, b)) (IsSettling-Behind ts s h)).0)
