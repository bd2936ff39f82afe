-- ===== src/Loader/Order.antt =====
-- plan.rs, `LoadPlan::execution_order`: indices of the nodes, each parent before its descendants.
pub mod Forest
pub mod Parents
pub mod Tree
pub mod Total
use mathlib.Core.Option
use cordis_rs.Base.{
  ℕ, zero, suc, Option, none, some, List, [], ◌∷◌, ◌++◌, length, get_elem?, lookup, insert,
}
use cordis_rs.Loader.Plan.{EntryId, EntryId_eq, PlanNode}

-- `HashMap<EntryId, Vec<usize>>`
abbrev pub Children : Type 0
Children = List (EntryId × List ℕ)

-- `children.get(id)`, with no children for an absent key.
abbrev pub children_of : Children → EntryId → List ℕ
children_of kids id = Option.get_or (lookup id kids) []

-- One round of the first loop.
abbrev pub classify : ℕ → Option EntryId → List ℕ × Children → List ℕ × Children
classify i none (roots, kids) = (roots ++ (i ∷ []), kids)
classify i (some p) (roots, kids) = (roots, insert p (children_of kids p ++ (i ∷ [])) kids)

-- The `while` loop on fuel. The head of `stack` is the back of the vector, so that the two `rev`s
-- leave the order of the indices as it is. `none`: no fuel is left, or `next` panics.
unfoldable pub walk : (ℕ → Option (List ℕ)) → ℕ → List ℕ → Option (List ℕ)
walk next zero stack = none
walk next (suc fuel) [] = some []
walk next (suc fuel) (i ∷ stack) = elim (next i) [
  | none ↦ none
  | some descendants ↦ Option.map (◌∷◌ i) (walk next fuel (descendants ++ stack))
]

module _ {Value : Type 0} where
  unfoldable pub split : ℕ → List (PlanNode Value) → List ℕ × Children → List ℕ × Children
  split i [] found = found
  split i (n ∷ ns) found = split (suc i) ns (classify i n.parent found)

  -- `children.get(&nodes[index].id)`; an index out of range panics.
  unfoldable pub descendants : List (PlanNode Value) → Children → ℕ → Option (List ℕ)
  descendants nodes kids i = Option.map (λ n. children_of kids n.id) (get_elem? nodes i)

  unfoldable pub execution_order : List (PlanNode Value) → Option (List ℕ)
  execution_order nodes =
      let (roots, kids) = split 0 nodes ([], []) in
      walk (descendants nodes kids) (suc (length nodes)) roots
