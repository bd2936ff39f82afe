-- ===== src/Core/Creation/Endings.antt =====
-- fiber/spawn.rs: each ending of a creation, and that the cleanup of a cancelled one gets through.
use cordis_rs.Base.{
  ℕ, ◌<◌, ◌≡◌, ◌⊎◌, refl, inl, inr, true, false, arith, List, [], ◌∷◌, subst, Bool-cases,
}
use cordis_rs.Core.Creation.{
  other, Attempt, inactive_context, initial_apply, interrupted, Creator, calling, entering,
  settling, failing, unlinking_failed, passed, rechecking, delivered, refused, dropped_early,
  dropped, Disposer, Cleaner, Scene, is_idle, new_scene, dispose, clean, Action, creates, cancels,
  disposes, cleans, kicks, act, run,
}
use cordis_rs.Core.Creation.Sound.{
  Sound, Sound-clean, Sound-dispose, Sound-kicked_pass, Sound-cancel, Sound-create, disposes_now,
}
use cordis_rs.Core.Creation.Live.{
  Live, Live-clean, Live-dispose, Live-kicked_pass, Live-cancel, Live-create, is_disposing,
}

abbrev AtScene : (Attempt → Creator → Disposer → Cleaner → Type 0) → Scene → Type 0
AtScene P s = P s.fiber s.creator s.disposer s.cleaner

act-Sound : (action : Action) (s : Scene) → AtScene Sound s → AtScene Sound (act action s)
unfolding act
act-Sound (creates require_open origin_open applied) s h =
    Sound-create require_open origin_open applied s.fiber s.creator s.disposer s.cleaner h
act-Sound cancels s h = Sound-cancel s.fiber s.creator s.disposer s.cleaner h
act-Sound disposes s h = Sound-dispose s.fiber s.creator s.disposer s.cleaner h
act-Sound cleans s h = Sound-clean s.fiber s.creator s.disposer s.cleaner h
act-Sound kicks s h = Sound-kicked_pass s.fiber s.creator s.disposer s.cleaner h

act-Live :
    (action : Action) (s : Scene) → AtScene Sound s → AtScene Live s → AtScene Live (act action s)
unfolding act
act-Live (creates require_open origin_open applied) s h l =
    Live-create require_open origin_open applied s.fiber s.creator s.disposer s.cleaner h l
act-Live cancels s h l = Live-cancel s.fiber s.creator s.disposer s.cleaner h l
act-Live disposes s h l = Live-dispose s.fiber s.creator s.disposer s.cleaner h l
act-Live cleans s h l = Live-clean s.fiber s.creator s.disposer s.cleaner h l
act-Live kicks s h l = Live-kicked_pass s.fiber s.creator s.disposer s.cleaner h l

run-invariants :
    (actions : List Action) (s : Scene)
    → AtScene Sound s
    → AtScene Live s
    → AtScene Sound (run actions s) × AtScene Live (run actions s)
unfolding run
run-invariants [] s h l = (h, l)
run-invariants (action ∷ actions) s h l =
    run-invariants actions (act action s) (act-Sound action s h) (act-Live action s h l)

new_scene-Sound : AtScene Sound new_scene
unfolding new_scene
new_scene-Sound = ground arith

new_scene-Live : AtScene Live new_scene
unfolding new_scene
new_scene-Live = ground arith

-- What is left of an attempted Fiber that nobody will need any more.
abbrev pub Unlinked : Attempt → Type 0
Unlinked f = (f.alive ≡ false) × (f.resident ≡ false)

-- What an ending of the creation promises of the attempted Fiber.
abbrev pub Ends : Attempt → Creator → Cleaner → Type 0
Ends f (refused inactive_context) k =
    (f.resident ≡ false) × (f.armed ≡ false) × (k ≡ Cleaner.unstarted)
Ends f (refused e) k = Unlinked f × (f.armed ≡ false) × (k ≡ Cleaner.unstarted)
Ends f delivered k =
    (f.armed ≡ false) × (k ≡ Cleaner.unstarted) × (f.resident ≡ false → f.alive ≡ false)
Ends f dropped_early k = (f.resident ≡ false) × (k ≡ Cleaner.unstarted)
Ends f dropped k = (k ≡ Cleaner.gone → Unlinked f × (f.complete ≡ true)) × (f.armed ≡ false)
Ends f _ k = Unit

Sound-Ends : (f : Attempt) (c : Creator) (d : Disposer) (k : Cleaner) → Sound f c d k → Ends f c k
Sound-Ends f calling d k h = tt
Sound-Ends f entering d k h = tt
Sound-Ends f settling d k h = tt
Sound-Ends f failing d k h = tt
Sound-Ends f unlinking_failed d k h = tt
Sound-Ends f passed d k h = tt
Sound-Ends f rechecking d k h = tt
Sound-Ends f delivered d k h = ground arith
Sound-Ends f (refused inactive_context) d k h = ground arith
Sound-Ends f (refused initial_apply) d k h = ground arith
Sound-Ends f (refused interrupted) d k h = ground arith
Sound-Ends f dropped_early d k h = ground arith
Sound-Ends f dropped d k h = ground arith

-- How far a disposer and a cleanup have come.
abbrev pub disposer_stage : Disposer → ℕ
disposer_stage Disposer.absent = 0
disposer_stage Disposer.waiting = 1
disposer_stage Disposer.draining = 2
disposer_stage Disposer.joining = 2
disposer_stage Disposer.dying = 3
disposer_stage Disposer.unlinking = 4
disposer_stage Disposer.gone = 5

abbrev pub cleaner_stage : Cleaner → ℕ
cleaner_stage Cleaner.unstarted = 0
cleaner_stage Cleaner.starting = 1
cleaner_stage Cleaner.waiting = 2
cleaner_stage Cleaner.joining = 2
cleaner_stage Cleaner.draining = 3
cleaner_stage Cleaner.dying = 4
cleaner_stage Cleaner.gone = 5

-- Somebody can move: the cleanup, the disposer, or a kicked pass that has the slot.
abbrev pub Advances : Scene → Type 0
Advances s =
    (cleaner_stage s.cleaner < cleaner_stage (act cleans s).cleaner)
    ⊎ ((disposer_stage s.disposer < disposer_stage (act disposes s).disposer)
        ⊎ (s.fiber.slot ≡ other))

-- A committed disposal moves by itself.
disposes_now-advances :
    (f : Attempt) (d : Disposer)
    → disposes_now d ≡ true
    → disposer_stage d < disposer_stage (dispose f d).1
unfolding dispose
disposes_now-advances f Disposer.absent h = absurd (ground arith)
disposes_now-advances f Disposer.waiting h = absurd (ground arith)
disposes_now-advances f Disposer.draining h = ground arith
disposes_now-advances f Disposer.dying h = ground arith
disposes_now-advances f Disposer.unlinking h = ground arith
disposes_now-advances f Disposer.joining h = absurd (ground arith)
disposes_now-advances f Disposer.gone h = absurd (ground arith)

advances-from :
    (f : Attempt) (d : Disposer) (k : Cleaner)
    → Sound f dropped d k
    → Live f dropped d k
    → (k ≡ Cleaner.gone)
      ⊎ ((cleaner_stage k < cleaner_stage (clean f k).1)
          ⊎ ((disposer_stage d < disposer_stage (dispose f d).1) ⊎ (f.slot ≡ other)))
unfolding clean
advances-from f d Cleaner.unstarted h l = ground arith
advances-from f d Cleaner.starting h l = elim (Bool-cases f.creation_owned) [
  | inl o ↦ inr (inl (rw (o) (ground arith)))
  | inr o ↦ elim (Bool-cases f.disposing) [
    | inl b ↦ inr (inl (rw (o, b) (ground arith)))
    | inr b ↦ inr (inl (rw (o, b) (ground arith)))
  ]
]
advances-from f d Cleaner.joining h l = elim (Bool-cases f.complete) [
  | inl b ↦ inr (inl (rw (b) (ground arith)))
  | inr b ↦ inr (inr (inl (disposes_now-advances f d (ground arith))))
]
advances-from f d Cleaner.waiting h l = elim (Bool-cases (is_idle f.slot)) [
  | inl b ↦ elim (Bool-cases f.alive) [
    | inl a ↦ inr (inl (rw (b, a) (ground arith)))
    | inr a ↦ inr (inl (rw (b, a) (ground arith)))
  ]
  | inr b ↦ elim (Bool-cases (is_disposing f.slot)) [
    | inl e ↦ inr (inr (inl (disposes_now-advances f d (ground arith))))
    | inr e ↦ inr (inr (inr (ground arith)))
  ]
]
advances-from f d Cleaner.draining h l = inr (inl (ground arith))
advances-from f d Cleaner.dying h l = inr (inl (ground arith))
advances-from f d Cleaner.gone h l = inl refl

-- However the creator, a disposer that finds the Fiber, kicked passes and a cancellation of the
-- creation interleave: a creation that is refused before its commit has left no resident Fiber, one
-- that is refused afterwards has left a dead and unlinked Fiber, a delivered one only a Fiber that is
-- resident as long as it lives, and a dropped one a cleanup at whose end the Fiber is dead, unlinked
-- and completely disposed. The guard is armed in none of them.
pub run-Ends :
    (actions : List Action)
    → Ends
        (run actions new_scene).fiber
        (run actions new_scene).creator
        (run actions new_scene).cleaner
run-Ends actions =
    let s = run actions new_scene in
    Sound-Ends s.fiber s.creator s.disposer s.cleaner
      (run-invariants actions new_scene new_scene-Sound new_scene-Live).0

-- The cleanup of a creation that was dropped after its commit is never stuck: until it is gone, a
-- step of the cleanup or of the disposer brings that thread forward, or a kicked pass has the slot.
pub run-Advances :
    (actions : List Action)
    → (run actions new_scene).creator ≡ dropped
    → ((run actions new_scene).cleaner ≡ Cleaner.gone) ⊎ Advances (run actions new_scene)
unfolding act
run-Advances actions h =
    let s = run actions new_scene in
    let (sound, live) = run-invariants actions new_scene new_scene-Sound new_scene-Live in
    advances-from s.fiber s.disposer s.cleaner
      (subst (λ c. Sound s.fiber c s.disposer s.cleaner) h sound)
      (subst (λ c. Live s.fiber c s.disposer s.cleaner) h live)
