-- ===== src/Core/Gated.antt =====
-- crates/cordis-core/src/gated.rs and the journal of effect.rs: a registration is published and its
-- cleanup obligation recorded in one gated step. The state that a publication changes and the
-- cleanups are parameters; the fields that the gate of fiber/mod.rs reads are a record.
pub mod Journal
pub mod Register
use mathlib.Core.Option
use cordis_rs.Base.{
  ℕ, ◌+◌, ◌%◌, ◌^◌, ◌&&◌, ◌||◌, Bool, true, false, not, Option, none, some, List, [], ◌∷◌, ◌++◌,
  nat_eq, ltb, ℕ_eq, if◌then◌else◌, lookup, remove, map, Result, ok, err,
}

pub data FiberState : Type 0 where
  pending loading active unloading failed disposed : FiberState

-- What `assert_alive` and `assert_can_register` read of a Fiber.
pub record Liveness : Type 0 where
  pub alive : Bool
  pub disposing : Bool
  pub generation_replacing : Bool
  pub state : FiberState

abbrev pub is_open : FiberState → Bool
is_open loading = true
is_open active = true
is_open _ = false

-- `assert_can_register`
unfoldable pub can_register : Liveness → Bool
can_register fiber =
    if not fiber.alive
    then false
    else if fiber.disposing || fiber.generation_replacing
    then false
    else is_open fiber.state

-- `DisposableList`: a `BTreeMap` is its entries by ascending key.
pub record DisposableList (Cleanup : Type 0) : Type 0 where
  pub sn : ℕ
  pub entries : List (ℕ × Cleanup)

pub data GatedPublishError : Type 0 where
  inactive_context publish_refused : GatedPublishError

module _ {Cleanup : Type 0} where
  abbrev pub new_journal : DisposableList Cleanup
  new_journal = record { sn = 0; entries = [] }

  abbrev pub insert_sorted : ℕ → Cleanup → List (ℕ × Cleanup) → List (ℕ × Cleanup)
  insert_sorted k v [] = (k, v) ∷ []
  insert_sorted k v ((j, c) ∷ entries) =
      let rest = insert_sorted k v entries in
      if ltb k j
      then (k, v) ∷ (j, c) ∷ entries
      else if nat_eq k j
      then (k, v) ∷ entries
      else (j, c) ∷ rest

  -- `push`, with the 64-bit counter
  pub push : DisposableList Cleanup → Cleanup → ℕ × DisposableList Cleanup
  push journal cleanup =
      let sn = (journal.sn + 1) % 2 ^ 64 in
      (sn, record { sn = sn; entries = insert_sorted sn cleanup journal.entries })

  -- `remove`, the one-time claim of an obligation
  unfoldable pub remove_token : DisposableList Cleanup → ℕ → Option Cleanup × DisposableList Cleanup
  remove_token journal token =
      (lookup token journal.entries, record journal { entries = remove token journal.entries })

  unfoldable pub tokens : DisposableList Cleanup → List ℕ
  tokens journal = map (λ e. e.0) journal.entries

  module _ {Store : Type 0} where
    -- `push_gated`: the liveness at the gate and under the lock of the journal, the journal, and the
    -- store that `publish` changes when it does not refuse.
    pub push_gated :
        Liveness
        → Liveness
        → DisposableList Cleanup
        → Cleanup
        → (Store → Bool × Store)
        → Store
        → Result ℕ GatedPublishError × DisposableList Cleanup × Store
    unfolding can_register push
    push_gated gate locked journal cleanup publish store =
        if not (can_register gate)
        then (err inactive_context, journal, store)
        else if not (can_register locked)
        then (err inactive_context, journal, store)
        else elim (publish store).0 [
          | false ↦ (err publish_refused, journal, (publish store).1)
          | true ↦
              let (token, journal') = push journal cleanup in
              (ok token, journal', (publish store).1)
        ]
