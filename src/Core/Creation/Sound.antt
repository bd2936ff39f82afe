-- ===== src/Core/Creation/Sound.antt =====
-- What holds of an attempted Fiber between two steps of its creator, its disposer and its cleanup.
use cordis_rs.Base.{◌≡◌, Bool, true, false, not, ◌&&◌, ◌||◌, arith}
use cordis_rs.Core.Creation.{
  Attempt, inactive_context, initial_apply, interrupted, Creator, calling, entering, settling,
  failing, unlinking_failed, passed, rechecking, delivered, refused, dropped_early, dropped,
  Disposer, Cleaner, create, cancel, dispose, clean, kicked_pass,
}

-- Before the commit, nobody else knows the Fiber.
abbrev pub precommit : Creator → Bool
precommit calling = true
precommit dropped_early = true
precommit (refused inactive_context) = true
precommit _ = false

-- The endings that leave no resident Fiber.
abbrev pub is_failed : Creator → Bool
is_failed (refused initial_apply) = true
is_failed (refused interrupted) = true
is_failed _ = false

abbrev pub is_dropped : Creator → Bool
is_dropped dropped = true
is_dropped _ = false

-- The creator may still be cancelled, or ends by itself.
abbrev pub is_armed : Creator → Bool
is_armed entering = true
is_armed settling = true
is_armed failing = true
is_armed unlinking_failed = true
is_armed passed = true
is_armed rechecking = true
is_armed _ = false

abbrev pub fails : Creator → Bool
fails failing = true
fails unlinking_failed = true
fails _ = false

abbrev pub is_dead : Creator → Bool
is_dead unlinking_failed = true
is_dead creator = is_failed creator

abbrev pub is_present : Disposer → Bool
is_present Disposer.absent = false
is_present _ = true

-- The disposer has committed the disposal, and it has marked the Fiber dead.
abbrev pub disposes_now : Disposer → Bool
disposes_now Disposer.draining = true
disposes_now Disposer.dying = true
disposes_now Disposer.unlinking = true
disposes_now _ = false

abbrev pub has_killed : Disposer → Bool
has_killed Disposer.dying = true
has_killed Disposer.unlinking = true
has_killed _ = false

abbrev pub has_gone : Disposer → Bool
has_gone Disposer.gone = true
has_gone _ = false

abbrev pub is_started : Cleaner → Bool
is_started Cleaner.unstarted = false
is_started _ = true

abbrev pub cleans_now : Cleaner → Bool
cleans_now Cleaner.draining = true
cleans_now Cleaner.dying = true
cleans_now _ = false

abbrev pub awaits_slot : Cleaner → Bool
awaits_slot Cleaner.waiting = true
awaits_slot _ = false

abbrev pub is_joining : Cleaner → Bool
is_joining Cleaner.joining = true
is_joining _ = false

abbrev pub is_dying : Cleaner → Bool
is_dying Cleaner.dying = true
is_dying _ = false

abbrev pub is_cleaned : Cleaner → Bool
is_cleaned Cleaner.gone = true
is_cleaned _ = false

abbrev pub implies : Bool → Bool → Bool
implies a b = not a || b

pub record Sound (f : Attempt) (c : Creator) (d : Disposer) (k : Cleaner) : Type 0 where
  pub fresh :
      implies (precommit c) (
        f.alive
        && (not f.resident && (not f.complete && (not (is_present d) && not (is_started k)))))
      ≡ true
  pub completed : implies f.complete (not f.alive && not f.resident) ≡ true
  pub dead : implies (not f.alive) f.disposing ≡ true
  pub drained : implies f.drained (not f.alive) ≡ true
  pub failed : implies (is_failed c) (not f.alive && (not f.resident && not f.armed)) ≡ true
  pub failing_dead : implies (is_dead c) (not f.alive) ≡ true
  pub committed : implies (disposes_now d) f.disposing ≡ true
  pub killed : implies (has_killed d) (not f.alive) ≡ true
  pub ended : implies (has_gone d) f.complete ≡ true
  pub armed : is_armed c ≡ f.armed
  pub started : is_dropped c ≡ is_started k
  pub waiting : implies (awaits_slot k) (f.alive && (f.disposing && not (disposes_now d))) ≡ true
  pub joined : implies (is_joining k) f.disposing ≡ true
  pub cleaning : implies (cleans_now k) f.disposing ≡ true
  pub failing_closed : implies (fails c) f.disposing ≡ true
  pub dying : implies (is_dying k) (not f.alive) ≡ true
  pub unlinked : implies (not (precommit c) && not f.resident) (not f.alive) ≡ true
  pub cleaned : implies (is_cleaned k) f.complete ≡ true

pub Sound-clean :
    (f : Attempt) (c : Creator) (d : Disposer) (k : Cleaner)
    → Sound f c d k
    → Sound (clean f k).0 c d (clean f k).1
unfolding clean
Sound-clean f c d Cleaner.unstarted h = h
Sound-clean f c d Cleaner.starting h = ground arith
Sound-clean f c d Cleaner.joining h = ground arith
Sound-clean f c d Cleaner.waiting h = ground arith
Sound-clean f c d Cleaner.draining h = ground arith
Sound-clean f c d Cleaner.dying h = ground arith
Sound-clean f c d Cleaner.gone h = h

pub Sound-dispose :
    (f : Attempt) (c : Creator) (d : Disposer) (k : Cleaner)
    → Sound f c d k
    → Sound (dispose f d).0 c (dispose f d).1 k
unfolding dispose
Sound-dispose f c Disposer.absent k h = ground arith
Sound-dispose f c Disposer.waiting k h = ground arith
Sound-dispose f c Disposer.draining k h = ground arith
Sound-dispose f c Disposer.dying k h = ground arith
Sound-dispose f c Disposer.unlinking k h = ground arith
Sound-dispose f c Disposer.joining k h = ground arith
Sound-dispose f c Disposer.gone k h = h

pub Sound-kicked_pass :
    (f : Attempt) (c : Creator) (d : Disposer) (k : Cleaner)
    → Sound f c d k
    → Sound (kicked_pass f) c d k
Sound-kicked_pass f c d k h = ground arith

pub Sound-cancel :
    (f : Attempt) (c : Creator) (d : Disposer) (k : Cleaner)
    → Sound f c d k
    → Sound (cancel f c k).0 (cancel f c k).1 d (cancel f c k).2
unfolding cancel
Sound-cancel f calling d k h = ground arith
Sound-cancel f entering d k h = ground arith
Sound-cancel f settling d k h = ground arith
Sound-cancel f failing d k h = ground arith
Sound-cancel f unlinking_failed d k h = ground arith
Sound-cancel f passed d k h = h
Sound-cancel f rechecking d k h = ground arith
Sound-cancel f delivered d k h = h
Sound-cancel f (refused e) d k h = h
Sound-cancel f dropped_early d k h = h
Sound-cancel f dropped d k h = h

pub Sound-create :
    (require_open origin_open applied : Bool) (f : Attempt) (c : Creator) (d : Disposer)
    (k : Cleaner)
    → Sound f c d k
    → Sound
        (create require_open origin_open applied f c).0
        (create require_open origin_open applied f c).1
        d
        k
unfolding create
Sound-create require_open origin_open applied f calling d k h = ground arith
Sound-create require_open origin_open applied f entering d k h = ground arith
Sound-create require_open origin_open true f settling d k h = ground arith
Sound-create require_open origin_open false f settling d k h = ground arith
Sound-create require_open origin_open applied f failing d k h = ground arith
Sound-create require_open origin_open applied f unlinking_failed d k h = ground arith
Sound-create require_open origin_open applied f passed d k h = ground arith
Sound-create require_open origin_open applied f rechecking d k h = ground arith
Sound-create require_open origin_open applied f delivered d k h = h
Sound-create require_open origin_open applied f (refused e) d k h = h
Sound-create require_open origin_open applied f dropped_early d k h = h
Sound-create require_open origin_open applied f dropped d k h = h
