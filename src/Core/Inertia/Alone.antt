-- ===== src/Core/Inertia/Alone.antt =====
-- fiber/inertia.rs: `exit_recheck` and `kick` while no other thread moves.
use cordis_rs.Base.{
  ℕ, zero, suc, ◌≤◌, ◌≡◌, refl, sym, ap, ◌∙◌, inl, inr, Bool, true, false, some, arith, Eq, ◌==◌,
  Bool-cases, nat_eq, nat_eq_iff,
}
use cordis_rs.Core.Inertia.{has_committed_recheck, idle, active, releasing}
use cordis_rs.Core.Inertia.Threads.{
  Shared, Pass, kicked, enter, Thread, exiting, starting, kicking, entered, Choice, act, resume,
  leave,
}

module _ {Target : Type 0} ⦃e : Eq Target⦄ (has_missing : Target → Bool) where
  -- So many accesses of one thread.
  unfoldable pub alone : ℕ → Choice → Thread Target → Shared Target → Thread Target × Shared Target
  alone zero c t s = (t, s)
  alone (suc n) c t s = alone n c (act has_missing c t s).0 (act has_missing c t s).1

  -- What `exit_recheck` comes to: a release that acknowledges every recheck committed, or drift.
  abbrev pub Exits : Pass Target → Target → Shared Target → Bool → Thread Target × Shared Target
  Exits pass target s true = (
    leave pass,
    record s {
      slot = record s.slot { inertia = idle; recheck_settled = s.slot.recheck_committed };
      released = some target;
    },
  )
  Exits pass target s false = (
    starting (resume pass),
    record s { slot = record s.slot { inertia = active; target = some s.live } },
  )

  alone-clean :
      (c : Choice) (pass : Pass Target) (target : Target) (revision : ℕ) (s : Shared Target)
      → (s.live == target) ≡ true
      → nat_eq s.slot.recheck_committed revision ≡ true
      → alone 5 c (exiting pass target (enter revision)) s ≡ Exits pass target s true
  unfolding alone act
  alone-clean c pass target revision s d b =
      rw (d, b, sym ((nat_eq_iff s.slot.recheck_committed revision).0 b)) refl

  alone-again :
      (c : Choice) (pass : Pass Target) (target : Target) (revision : ℕ) (s : Shared Target)
      → (s.live == target) ≡ true
      → nat_eq s.slot.recheck_committed revision ≡ false
      → alone 4 c (exiting pass target (enter revision)) s ≡ (
        exiting pass target (enter s.slot.recheck_committed),
        record s { slot = record s.slot { inertia = releasing } },
      )
  unfolding alone act
  alone-again c pass target revision s d b = rw (d, b) refl

  later :
      (c : Choice) (t : Thread Target) (s : Shared Target) (n : ℕ)
      → alone (suc (suc (suc (suc (suc n))))) c t s ≡ alone n c (alone 5 c t s).0 (alone 5 c t s).1
  unfolding alone
  later c t s n = refl

  alone-split :
      (c : Choice) (t : Thread Target) (s : Shared Target)
      → alone 9 c t s ≡ alone 5 c (alone 4 c t s).0 (alone 4 c t s).1
  unfolding alone
  alone-split c t s = refl

  alone-drift :
      (c : Choice) (pass : Pass Target) (target : Target) (revision : ℕ) (s : Shared Target)
      → (s.live == target) ≡ false
      → alone 5 c (exiting pass target (enter revision)) s ≡ Exits pass target s false
  unfolding alone act
  alone-drift c pass target revision s d = rw d refl

  -- While no other thread moves, `exit_recheck` ends within nine accesses of its thread, whatever
  -- revision it began with: it releases the slot when the live target is the one settled, with every
  -- committed recheck acknowledged, and otherwise keeps it, with the live target recorded.
  alone-Exits :
      (c : Choice) (pass : Pass Target) (target : Target) (revision : ℕ) (s : Shared Target)
      → (n : ℕ) × (n ≤ 9)
        × (alone n c (exiting pass target (enter revision)) s
            ≡ Exits pass target s (s.live == target))
  alone-Exits c pass target revision s = elim (Bool-cases (s.live == target)) [
    | inr d ↦
        (5, omega arith, alone-drift c pass target revision s d ∙ ap (Exits pass target s) (sym d))
    | inl d ↦ elim (Bool-cases (nat_eq s.slot.recheck_committed revision)) [
      | inl b ↦ (
        5,
        omega arith,
        alone-clean c pass target revision s d b ∙ ap (Exits pass target s) (sym d),
      )
      | inr b ↦ (
        9,
        omega arith,
        alone-split c (exiting pass target (enter revision)) s
            ∙ ap (λ r. alone 5 c r.0 r.1) (alone-again c pass target revision s d b)
            ∙ alone-clean c pass target s.slot.recheck_committed
                (record s { slot = record s.slot { inertia = releasing } }) d
                ((nat_eq_iff s.slot.recheck_committed s.slot.recheck_committed).1 refl)
            ∙ ap (Exits pass target s) (sym d),
      )
    ]
  ]

  alone-kick :
      (c : Choice) (s : Shared Target) (target : Target)
      → c.on_runtime ≡ true
      → s.alive ≡ true
      → has_committed_recheck s.slot ≡ true
      → s.slot.inertia ≡ idle
      → s.slot.target ≡ some target
      → alone 5 c (kicking entered) s ≡ (
        exiting kicked target (enter s.slot.recheck_committed),
        record s { slot = record s.slot { inertia = active } },
      )
  unfolding alone act
  alone-kick c s target r a h i t = simp (a, h, i, r, t)

  -- A kick with a runtime, of a live Fiber whose slot is idle and whose recheck is outstanding, while
  -- no other thread moves: within 14 accesses it has released the slot with every recheck
  -- acknowledged, when the stored target is the live one, or has become a convergence pass that
  -- holds the slot, with the live target recorded.
  pub kick-Exits :
      (c : Choice) (s : Shared Target) (target : Target)
      → c.on_runtime ≡ true
      → s.alive ≡ true
      → has_committed_recheck s.slot ≡ true
      → s.slot.inertia ≡ idle
      → s.slot.target ≡ some target
      → (n : ℕ) × (n ≤ 14)
        × (alone n c (kicking entered) s ≡ Exits kicked target s (s.live == target))
  kick-Exits c s target r a h i t =
      let s' : Shared Target = record s { slot = record s.slot { inertia = active } } in
      let (n, l, q) = alone-Exits c kicked target s.slot.recheck_committed s' in
      (
        suc (suc (suc (suc (suc n)))),
        omega (arith, l),
        later c (kicking entered) s n
            ∙ ap (λ x. alone n c x.0 x.1) (alone-kick c s target r a h i t)
            ∙ q,
      )
