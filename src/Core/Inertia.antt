-- ===== src/Core/Inertia.antt =====
-- crates/cordis-core/src/fiber/inertia.rs: the slot that arbitrates who may settle one Fiber.
-- This file has the cells of the slot and its one-step operations; Threads has `kick`,
-- `exit_recheck` and the lifecycle passes, cut at their atomic accesses.
pub mod Threads
pub mod Sound
pub mod Keep
pub mod Holder
pub mod Quiescence
pub mod Alone
use cordis_rs.Base.{ℕ, ◌+◌, ◌%◌, ◌^◌, Bool, true, false, not, Option, none, some, nat_eq}

-- The three values of the word `inertia`.
pub data Inertia : Type 0 where
  idle active releasing : Inertia

pub record InertiaSlot (Target : Type 0) : Type 0 where
  pub inertia : Inertia
  pub target : Option Target
  pub recheck_committed : ℕ
  pub recheck_settled : ℕ
  pub creation_owned : Bool

module _ {Target : Type 0} where
  abbrev pub new_slot : InertiaSlot Target
  new_slot = record {
    inertia = idle;
    target = none;
    recheck_committed = 0;
    recheck_settled = 0;
    creation_owned = false;
  }

  abbrev pub set_creation_owned : Bool → InertiaSlot Target → InertiaSlot Target
  set_creation_owned owned slot = record slot { creation_owned = owned }

  abbrev pub record_target : Target → InertiaSlot Target → InertiaSlot Target
  record_target target slot = record slot { target = some target }

  abbrev pub pin_inactive : InertiaSlot Target → InertiaSlot Target
  pin_inactive slot = record slot { target = none }

  abbrev pub mark_pending_if_untouched : Target → InertiaSlot Target → InertiaSlot Target
  mark_pending_if_untouched pending slot = elim slot.target [
    | none ↦ record slot { target = some pending }
    | some stored ↦ slot
  ]

  -- `fetch_add` on the 64-bit revision
  abbrev pub commit_recheck : InertiaSlot Target → InertiaSlot Target
  commit_recheck slot = record slot { recheck_committed = (slot.recheck_committed + 1) % 2 ^ 64 }

  abbrev pub has_committed_recheck : InertiaSlot Target → Bool
  has_committed_recheck slot = not (nat_eq slot.recheck_committed slot.recheck_settled)

  abbrev pub is_idle : InertiaSlot Target → Bool
  is_idle slot = elim slot.inertia [ idle ↦ true | active ↦ false | releasing ↦ false ]

  -- The compare-and-swap from IDLE to ACTIVE.
  abbrev pub try_claim : InertiaSlot Target → Bool × InertiaSlot Target
  try_claim slot = elim slot.inertia [
    | idle ↦ (true, record slot { inertia = active })
    | active ↦ (false, slot)
    | releasing ↦ (false, slot)
  ]

  -- The compare-and-swap from RELEASING to ACTIVE, of a kick.
  abbrev pub try_retain : InertiaSlot Target → Bool × InertiaSlot Target
  try_retain slot = elim slot.inertia [
    | idle ↦ (false, slot)
    | active ↦ (false, slot)
    | releasing ↦ (true, record slot { inertia = active })
  ]

  abbrev pub abandon : InertiaSlot Target → InertiaSlot Target
  abandon slot = record slot { inertia = idle }
