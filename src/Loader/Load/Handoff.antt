-- ===== src/Loader/Load/Handoff.antt =====
-- crates/cordis-loader/src/outcome.rs and handoff.rs: what a caller reads from the outcomes, and the
-- rollback of outcomes that were never delivered. `rollback_fiber` is the Runtime's.
use mathlib.Core.List.{reverse-cons, reverse-append}
use mathlib.Core.Option.{some-injective}
use cordis_rs.Base.{
  ℕ, ◌≡◌, refl, sym, ap, subst, ◌∙◌, inl, inr, ◌≢◌, Bool, true, false, not, Option, none, some,
  List, [], ◌∷◌, ◌++◌, reverse, append_assoc, arith, ◌==◌, beq_cases, ℕ_eq, get_elem?, contains,
  count, any, if◌then◌else◌,
}
use cordis_rs.Core.Context.{Context}
use cordis_rs.Loader.Plan.{EntryId, EntryId_eq, PlanEntry, PlanNode, PluginEntry}
use cordis_rs.Loader.Plan.Build.{IsOrdered}
use cordis_rs.Loader.Load.{
  World, Host, EntryOutcome, group, disabled, pruned, spawned, failed, Outcome, Execution,
  from_parent, load,
}
use cordis_rs.Loader.Load.Rows.{Row, RowEnabled, RowReached, Rows, load-Rows}
use cordis_rs.Loader.Load.Cover.{cover, cover-Covers}
use cordis_rs.Loader.Order.Tree.{same_index, get_elem?-lt}

module _ {Handle SpawnError : Type 0} where
  -- `EntryOutcome::id`
  abbrev pub id_of : EntryOutcome Handle SpawnError → EntryId
  id_of (group id) = id
  id_of (disabled id) = id
  id_of (pruned id ancestor) = id
  id_of (spawned id key handle) = id
  id_of (failed id key failure) = id

  -- `LoadOutcome::entry`
  abbrev pub entry :
      List (EntryOutcome Handle SpawnError) → EntryId → Option (EntryOutcome Handle SpawnError)
  entry [] id = none
  entry (o ∷ outcomes) id = if id_of o == id then some o else entry outcomes id

  -- The arms of `filter_map` and of `rollback`: the handle that an outcome owns.
  abbrev pub handle_of : EntryOutcome Handle SpawnError → List Handle
  handle_of (spawned id key handle) = handle ∷ []
  handle_of _ = []

  -- `LoadOutcome::fiber_handles`
  abbrev pub fiber_handles : List (EntryOutcome Handle SpawnError) → List Handle
  fiber_handles [] = []
  fiber_handles (o ∷ outcomes) = handle_of o ++ fiber_handles outcomes

  abbrev pub is_failed : EntryOutcome Handle SpawnError → Bool
  is_failed (failed id key failure) = true
  is_failed _ = false

  -- `LoadOutcome::is_ok`
  abbrev pub is_ok : List (EntryOutcome Handle SpawnError) → Bool
  is_ok outcomes = not (any is_failed outcomes)

module _ {Handle State : Type 0} (rollback_fiber : Handle → State → State) where
  abbrev pub roll : List Handle → State → State
  roll [] s = s
  roll (handle ∷ handles) s = roll handles (rollback_fiber handle s)

  module _ {SpawnError : Type 0} where
    -- The loop of `rollback`, which continues past an outcome with no handle.
    rollback_loop : List (EntryOutcome Handle SpawnError) → State → State
    rollback_loop [] s = s
    rollback_loop (spawned id key handle ∷ entries) s =
        rollback_loop entries (rollback_fiber handle s)
    rollback_loop (group _ ∷ entries) s = rollback_loop entries s
    rollback_loop (disabled _ ∷ entries) s = rollback_loop entries s
    rollback_loop (pruned _ _ ∷ entries) s = rollback_loop entries s
    rollback_loop (failed _ _ _ ∷ entries) s = rollback_loop entries s

    -- handoff.rs, `rollback`
    pub rollback : List (EntryOutcome Handle SpawnError) → State → State
    unfolding rollback_loop
    rollback entries s = rollback_loop (reverse entries) s

    rollback_loop-roll :
        (entries : List (EntryOutcome Handle SpawnError)) (s : State)
        → rollback_loop entries s ≡ roll (fiber_handles entries) s
    unfolding rollback_loop
    rollback_loop-roll [] s = refl
    rollback_loop-roll (spawned id key handle ∷ entries) s =
        rollback_loop-roll entries (rollback_fiber handle s)
    rollback_loop-roll (group _ ∷ entries) s = rollback_loop-roll entries s
    rollback_loop-roll (disabled _ ∷ entries) s = rollback_loop-roll entries s
    rollback_loop-roll (pruned _ _ ∷ entries) s = rollback_loop-roll entries s
    rollback_loop-roll (failed _ _ _ ∷ entries) s = rollback_loop-roll entries s

module _ {Handle SpawnError : Type 0} where
  fiber_handles-append :
      (xs ys : List (EntryOutcome Handle SpawnError))
      → fiber_handles (xs ++ ys) ≡ fiber_handles xs ++ fiber_handles ys
  fiber_handles-append [] ys = refl
  fiber_handles-append (o ∷ xs) ys =
      ap (λ l. handle_of o ++ l) (fiber_handles-append xs ys)
      ∙ sym (append_assoc (handle_of o) (fiber_handles xs) (fiber_handles ys))

  reverse-handle_of :
      (o : EntryOutcome Handle SpawnError) → reverse (handle_of o) ≡ handle_of o ++ []
  reverse-handle_of (group _) = refl
  reverse-handle_of (disabled _) = refl
  reverse-handle_of (pruned _ _) = refl
  reverse-handle_of (spawned _ _ _) = refl
  reverse-handle_of (failed _ _ _) = refl

  fiber_handles-reverse :
      (entries : List (EntryOutcome Handle SpawnError))
      → fiber_handles (reverse entries) ≡ reverse (fiber_handles entries)
  fiber_handles-reverse [] = refl
  fiber_handles-reverse (o ∷ entries) =
      ap fiber_handles (reverse-cons o entries)
      ∙ fiber_handles-append (reverse entries) (o ∷ [])
      ∙ ap (λ l. l ++ (handle_of o ++ [])) (fiber_handles-reverse entries)
      ∙ ap (λ l. reverse (fiber_handles entries) ++ l) (sym (reverse-handle_of o))
      ∙ sym (reverse-append (handle_of o) (fiber_handles entries))

-- The rollback of undelivered outcomes disposes exactly the Fibers that `fiber_handles` lists,
-- one after another, the last one spawned first.
rollback-reverse :
    {Handle SpawnError State : Type 0} (rollback_fiber : Handle → State → State)
    (entries : List (EntryOutcome Handle SpawnError)) (s : State)
    → rollback rollback_fiber entries s ≡ roll rollback_fiber (reverse (fiber_handles entries)) s
unfolding rollback
rollback-reverse f entries s =
    rollback_loop-roll f (reverse entries) s
    ∙ ap (λ handles. roll f handles s) (fiber_handles-reverse entries)

contains_of_count : (j : ℕ) (order : List ℕ) → count j order ≡ 1 → contains order j ≡ true
contains_of_count j [] h = absurd (omega (arith, h))
contains_of_count j (i ∷ order) h = ground (arith, contains_of_count j order)

module _ {Value : Type 0} (host : Host Value) where
  RowEnabled-id :
      (b : Bool) (id : EntryId) (e : PluginEntry Value) (o : Outcome host)
      → RowEnabled host b id e o
      → id_of o ≡ id
  RowEnabled-id true id e o r = ap id_of r
  RowEnabled-id false id e o (key, k, inl (handle, r)) = ap id_of r
  RowEnabled-id false id e o (key, k, inr (failure, r)) = ap id_of r

  RowReached-id :
      (id : EntryId) (e : PlanEntry Value) (o : Outcome host)
      → RowReached host id e o
      → id_of o ≡ id
  RowReached-id id PlanEntry.group o r = ap id_of r
  RowReached-id id (PlanEntry.plugin e) o r = RowEnabled-id e.disabled id e o r

  Row-id :
      (c : Option EntryId) (n : PlanNode Value) (o : Outcome host) → Row host c n o → id_of o ≡ n.id
  Row-id (some d) n o r = ap id_of r
  Row-id none n o r = RowReached-id n.id n.entry o r

  module _ (lineage : ℕ) (nodes : List (PlanNode Value)) (v : IsOrdered lineage [] nodes) where
    Rows-entry :
        (T : EntryId → Option EntryId) (order : List ℕ) (outcomes : List (Outcome host)) (i : ℕ)
        (n : PlanNode Value)
        → Rows host T nodes order outcomes
        → get_elem? nodes i ≡ some n
        → contains order i ≡ true
        → (o : Outcome host) × (entry outcomes n.id ≡ some o)
          × Row host (from_parent T n.parent) n o
    Rows-entry T [] outcomes i n rows e c = cc
    Rows-entry T (j ∷ order) [] i n rows e c = absurd rows
    Rows-entry T (j ∷ order) (o ∷ outcomes) i n ((m, f, r), rows) e c = elim (beq_cases m.id n.id) [
      | inl (b, s) ↦
          let same : m ≡ n =
            some-injective m n
              (sym f ∙ ap (get_elem? nodes) (same_index lineage nodes v j i m n f e s) ∙ e) in
          (
            o,
            rw (Row-id (from_parent T m.parent) m o r, b) refl,
            subst (λ k. Row host (from_parent T k.parent) k o) same r,
          )
      | inr (b, s) ↦
          let (p, g, q) = Rows-entry T order outcomes i n rows e (later s) in
          (p, rw (Row-id (from_parent T m.parent) m o r, b) g, q)
    ]
      where
        later : m.id ≢ n.id → contains order i ≡ true
        later s = elim (beq_cases j i) [
          | inl (b, k) ↦
              absurd (s (ap (λ z. z.id) (some-injective m n (sym f ∙ ap (get_elem? nodes) k ∙ e))))
          | inr (b, k) ↦ rw b at c
        ]

    -- After an execution, `LoadOutcome::entry` finds every node of the plan by its identity, and
    -- the outcome found is the one that the plan prescribes for that node.
    pub load-entry :
        (ctx : Context host.Layer) (world : World host.Rest) (x : Execution host) (i : ℕ)
        (n : PlanNode Value)
        → load host ctx nodes world ≡ some x
        → get_elem? nodes i ≡ some n
        → (o : Outcome host) × (entry x.handoff n.id ≡ some o)
          × Row host (from_parent (cover nodes) n.parent) n o
    load-entry ctx world x i n h e =
        let (order, ex, rows) =
          load-Rows host lineage nodes (cover nodes) v (cover-Covers lineage nodes v) ctx world x
            h in
        Rows-entry (cover nodes) order x.handoff i n rows e
          (contains_of_count i order (ex.each_once i (get_elem?-lt nodes i e)))
