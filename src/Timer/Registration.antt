-- ===== src/Timer/Registration.antt =====
-- shapes.rs, `TimerExt` of a Context: when a timer is registered, and what a refusal says.
-- Whether a Tokio runtime is current, and has a time driver, and the greatest instant of its clock
-- are parameters.
use cordis_rs.Base.{
  ℕ, ◌+◌, ◌≡◌, ◌≢◌, ◌⊎◌, ◌||◌, refl, Bool, true, false, not, ◌&&◌, arith, ltb, nat_eq,
  if◌then◌else◌, Bool-cases, Result, ok, err, inl, inr,
}
use cordis_rs.Core.Gated.{
  Liveness, DisposableList, GatedPublishError, can_register, push, push_gated,
}
use cordis_rs.Core.Gated.Journal.{push_gated-cases}

pub data TimerRegistrationError : Type 0 where
  inactive_context timer_unavailable zero_period deadline_out_of_range : TimerRegistrationError

-- The executor that is current at a registration.
pub record Executor : Type 0 where
  pub is_current : Bool
  pub has_timer : Bool
  pub now : ℕ
  pub clock_max : ℕ

-- `prepare_deadline` and `prepare_interval`, whose checks are the same
pub prepare : Executor → ℕ → Result (Unit {0}) TimerRegistrationError
prepare executor delay =
    if not executor.is_current
    then err timer_unavailable
    else if ltb executor.clock_max (executor.now + delay)
    then err deadline_out_of_range
    else if not executor.has_timer
    then err timer_unavailable
    else ok tt

abbrev pub Answer : Type 0 → Type 0
Answer Cleanup = Result ℕ TimerRegistrationError × DisposableList Cleanup

-- A deadline that the executor's clock has and its timer serves.
abbrev pub can_reach : Executor → ℕ → Bool
can_reach executor delay =
    executor.is_current
    && (executor.has_timer && not (ltb executor.clock_max (executor.now + delay)))

prepare-ok :
    (executor : Executor) (delay : ℕ)
    → executor.is_current ≡ true
    → ltb executor.clock_max (executor.now + delay) ≡ false
    → executor.has_timer ≡ true
    → prepare executor delay ≡ ok tt
unfolding prepare
prepare-ok executor delay c d e = rw (c, d, e) refl

module _ {Cleanup : Type 0} where
  abbrev mapped : Result ℕ GatedPublishError × DisposableList Cleanup × Unit {0} → Answer Cleanup
  mapped (ok token, journal, _) = (ok token, journal)
  mapped (err refusal, journal, _) = (err inactive_context, journal)

  -- `commit_cancellation`, with `register_cleanup` of effect.rs, which publishes nothing
  pub commit_cancellation : Liveness → Liveness → Cleanup → DisposableList Cleanup → Answer Cleanup
  commit_cancellation gate locked cleanup journal =
      mapped (push_gated gate locked journal cleanup (λ s. (true, s)) tt)

  abbrev prepared :
      Result (Unit {0}) TimerRegistrationError
      → Answer Cleanup
      → DisposableList Cleanup
      → Answer Cleanup
  prepared (ok _) committed journal = committed
  prepared (err e) committed journal = (err e, journal)

  -- `timeout` and `sleep`: the generation as the first check, the gate and the lock find it
  pub register_one_shot :
      (first gate locked : Liveness)
      → Executor
      → ℕ
      → Cleanup
      → DisposableList Cleanup
      → Answer Cleanup
  unfolding prepare commit_cancellation
  register_one_shot first gate locked executor delay cleanup journal =
      if not (can_register first)
      then (err inactive_context, journal)
      else prepared (prepare executor delay) (commit_cancellation gate locked cleanup journal)
          journal

  -- `interval`
  pub register_interval :
      (first gate locked : Liveness)
      → Executor
      → ℕ
      → Cleanup
      → DisposableList Cleanup
      → Answer Cleanup
  unfolding register_one_shot
  register_interval first gate locked executor period cleanup journal =
      if nat_eq period 0
      then (err zero_period, journal)
      else register_one_shot first gate locked executor period cleanup journal

  -- What each answer to a one-shot timer means; a refusal names the first check that failed.
  abbrev pub Registers :
      (first gate locked : Liveness)
      → Executor
      → ℕ
      → Cleanup
      → DisposableList Cleanup
      → Answer Cleanup
      → Type 0
  Registers first gate locked executor delay cleanup journal (ok token, journal') =
      ((can_register first && (can_register gate && can_register locked)) ≡ true)
      × (can_reach executor delay ≡ true)
      × ((token, journal') ≡ push journal cleanup)
  Registers first gate locked executor delay cleanup journal (err inactive_context, journal') =
      ((not (can_register first)
          || (can_reach executor delay && not (can_register gate && can_register locked)))
        ≡ true)
      × (journal' ≡ journal)
  Registers first gate locked executor delay cleanup journal (err timer_unavailable, journal') =
      (can_register first ≡ true)
      × ((not executor.is_current
            || (not (ltb executor.clock_max (executor.now + delay)) && not executor.has_timer))
          ≡ true)
      × (journal' ≡ journal)
  Registers first gate locked executor delay cleanup journal (err zero_period, journal') = ⊥
  Registers first gate locked executor delay cleanup journal (err deadline_out_of_range, journal') =
      (can_register first ≡ true)
      × (executor.is_current ≡ true)
      × (ltb executor.clock_max (executor.now + delay) ≡ true)
      × (journal' ≡ journal)

  -- A period of zero is refused before any other check; any other is registered like a delay.
  abbrev pub IntervalRegisters :
      (first gate locked : Liveness)
      → Executor
      → ℕ
      → Cleanup
      → DisposableList Cleanup
      → Answer Cleanup
      → Type 0
  IntervalRegisters first gate locked executor period cleanup journal answer =
      ((period ≡ 0) × (answer ≡ (err zero_period, journal)))
      ⊎ ((period ≢ 0) × Registers first gate locked executor period cleanup journal answer)

  prepared-Registers :
      (first gate locked : Liveness) (executor : Executor) (delay : ℕ) (cleanup : Cleanup)
      (journal : DisposableList Cleanup)
      → can_register first ≡ true
      → can_reach executor delay ≡ true
      → Registers first gate locked executor delay cleanup journal
          (commit_cancellation gate locked cleanup journal)
  unfolding commit_cancellation
  prepared-Registers first gate locked executor delay cleanup journal h r =
      elim (push_gated-cases gate locked journal cleanup (λ s. (true, s)) tt) [
        | inl (b, q) ↦ rw (q) (rw (h, r, b) refl, refl)
        | inr (inl (b, p, q)) ↦ absurd (never p)
        | inr (inr (b, p, q)) ↦ rw (q) (rw (h, b) refl, r, refl)
      ]
    where
      never : true ≡ false → ⊥
      never p = cc

  register_one_shot-Registers :
      (first gate locked : Liveness) (executor : Executor) (delay : ℕ) (cleanup : Cleanup)
      (journal : DisposableList Cleanup)
      → Registers first gate locked executor delay cleanup journal
          (register_one_shot first gate locked executor delay cleanup journal)
  unfolding register_one_shot prepare
  register_one_shot-Registers first gate locked executor delay cleanup journal =
      elim (Bool-cases (can_register first)) [
        | inr b ↦ rw (b, register_one_shot) (rw (b) refl, refl)
        | inl b ↦ elim (Bool-cases executor.is_current) [
          | inr c ↦ rw (b, register_one_shot, prepare, c) (b, refl, refl)
          | inl c ↦ elim (Bool-cases (ltb executor.clock_max (executor.now + delay))) [
            | inl d ↦ rw (b, register_one_shot, prepare, c, d) (b, refl, d, refl)
            | inr d ↦ elim (Bool-cases executor.has_timer) [
              | inr e ↦ rw (b, register_one_shot, prepare, c, d, e) (b, rw (d) refl, refl)
              | inl e ↦
                  rw (b, register_one_shot, prepare-ok executor delay c d e)
                    (prepared-Registers first gate locked executor delay cleanup journal b
                      (rw (c, d, e) refl))
            ]
          ]
        ]
      ]

  -- A timer is registered, with one obligation to cancel it, exactly when its period is not zero, the
  -- generation is open at all three checks and the deadline is reachable; a refusal names the first
  -- check that failed, and has changed nothing.
  pub register_interval-Registers :
      (first gate locked : Liveness) (executor : Executor) (period : ℕ) (cleanup : Cleanup)
      (journal : DisposableList Cleanup)
      → IntervalRegisters first gate locked executor period cleanup journal
          (register_interval first gate locked executor period cleanup journal)
  unfolding register_interval
  register_interval-Registers first gate locked executor period cleanup journal =
      elim (Bool-cases (nat_eq period 0)) [
        | inl b ↦ inl (zero period b, rw (b, register_interval) refl)
        | inr b ↦ inr (
          nonzero period b,
          rw (b, register_interval)
              (register_one_shot-Registers first gate locked executor period cleanup journal),
        )
      ]
    where
      zero : (n : ℕ) → nat_eq n 0 ≡ true → n ≡ 0
      zero n h = ground arith

      nonzero : (n : ℕ) → nat_eq n 0 ≡ false → n ≢ 0
      nonzero n h = ground arith
