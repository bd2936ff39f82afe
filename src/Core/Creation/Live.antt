-- ===== src/Core/Creation/Live.antt =====
-- Who answers for the slot, the creation mark and a committed disposal of an attempted Fiber.
use cordis_rs.Base.{◌≡◌, Bool, true, false, not, ◌&&◌, ◌||◌, arith}
use cordis_rs.Core.Creation.{
  Holder, creating, disposing_pass, cleaning, Attempt, Creator, calling, entering, settling,
  failing, unlinking_failed, passed, rechecking, delivered, refused, dropped_early, dropped,
  Disposer, Cleaner, create, cancel, dispose, clean, kicked_pass,
}
use cordis_rs.Core.Creation.Sound.{
  Sound, implies, fails, is_dropped, disposes_now, cleans_now, awaits_slot,
}

abbrev pub is_creating : Holder → Bool
is_creating creating = true
is_creating _ = false

abbrev pub is_disposing : Holder → Bool
is_disposing disposing_pass = true
is_disposing _ = false

abbrev pub is_cleaning : Holder → Bool
is_cleaning cleaning = true
is_cleaning _ = false

abbrev pub settles : Creator → Bool
settles settling = true
settles c = fails c

abbrev pub has_passed : Creator → Bool
has_passed passed = true
has_passed _ = false

abbrev pub holds_slot : Disposer → Bool
holds_slot Disposer.draining = true
holds_slot Disposer.dying = true
holds_slot _ = false

abbrev pub is_starting : Cleaner → Bool
is_starting Cleaner.starting = true
is_starting _ = false

-- The cleanup is about to inherit the slot.
abbrev pub inherits : Attempt → Creator → Cleaner → Bool
inherits f c k = is_dropped c && (f.creation_owned && is_starting k)

pub record Live (f : Attempt) (c : Creator) (d : Disposer) (k : Cleaner) : Type 0 where
  pub created : implies (is_creating f.slot) (settles c || inherits f c k) ≡ true
  pub disposed : implies (is_disposing f.slot) (holds_slot d) ≡ true
  pub cleaned : implies (is_cleaning f.slot) (cleans_now k) ≡ true
  pub owned : implies (settles c) f.creation_owned ≡ true
  pub marked : implies f.creation_owned (settles c || (has_passed c || inherits f c k)) ≡ true
  pub answered :
      implies
        (f.disposing && not f.complete)
        (disposes_now d || (fails c || (cleans_now k || (awaits_slot k || inherits f c k))))
      ≡ true

pub Live-clean :
    (f : Attempt) (c : Creator) (d : Disposer) (k : Cleaner)
    → Sound f c d k
    → Live f c d k
    → Live (clean f k).0 c d (clean f k).1
unfolding clean
Live-clean f c d Cleaner.unstarted h l = l
Live-clean f c d Cleaner.starting h l = ground arith
Live-clean f c d Cleaner.joining h l = ground arith
Live-clean f c d Cleaner.waiting h l = ground arith
Live-clean f c d Cleaner.draining h l = ground arith
Live-clean f c d Cleaner.dying h l = ground arith
Live-clean f c d Cleaner.gone h l = l

pub Live-dispose :
    (f : Attempt) (c : Creator) (d : Disposer) (k : Cleaner)
    → Sound f c d k
    → Live f c d k
    → Live (dispose f d).0 c (dispose f d).1 k
unfolding dispose
Live-dispose f c Disposer.absent k h l = ground arith
Live-dispose f c Disposer.waiting k h l = ground arith
Live-dispose f c Disposer.draining k h l = ground arith
Live-dispose f c Disposer.dying k h l = ground arith
Live-dispose f c Disposer.unlinking k h l = ground arith
Live-dispose f c Disposer.joining k h l = ground arith
Live-dispose f c Disposer.gone k h l = l

pub Live-kicked_pass :
    (f : Attempt) (c : Creator) (d : Disposer) (k : Cleaner)
    → Sound f c d k
    → Live f c d k
    → Live (kicked_pass f) c d k
Live-kicked_pass f c d k h l = ground arith

pub Live-cancel :
    (f : Attempt) (c : Creator) (d : Disposer) (k : Cleaner)
    → Sound f c d k
    → Live f c d k
    → Live (cancel f c k).0 (cancel f c k).1 d (cancel f c k).2
unfolding cancel
Live-cancel f calling d k h l = ground arith
Live-cancel f entering d k h l = ground arith
Live-cancel f settling d k h l = ground arith
Live-cancel f failing d k h l = ground arith
Live-cancel f unlinking_failed d k h l = ground arith
Live-cancel f passed d k h l = l
Live-cancel f rechecking d k h l = ground arith
Live-cancel f delivered d k h l = l
Live-cancel f (refused e) d k h l = l
Live-cancel f dropped_early d k h l = l
Live-cancel f dropped d k h l = l

pub Live-create :
    (require_open origin_open applied : Bool) (f : Attempt) (c : Creator) (d : Disposer)
    (k : Cleaner)
    → Sound f c d k
    → Live f c d k
    → Live
        (create require_open origin_open applied f c).0
        (create require_open origin_open applied f c).1
        d
        k
unfolding create
Live-create require_open origin_open applied f calling d k h l = ground arith
Live-create require_open origin_open applied f entering d k h l = ground arith
Live-create require_open origin_open true f settling d k h l = ground arith
Live-create require_open origin_open false f settling d k h l = ground arith
Live-create require_open origin_open applied f failing d k h l = ground arith
Live-create require_open origin_open applied f unlinking_failed d k h l = ground arith
Live-create require_open origin_open applied f passed d k h l = ground arith
Live-create require_open origin_open applied f rechecking d k h l = ground arith
Live-create require_open origin_open applied f delivered d k h l = l
Live-create require_open origin_open applied f (refused e) d k h l = l
Live-create require_open origin_open applied f dropped_early d k h l = l
Live-create require_open origin_open applied f dropped d k h l = l
