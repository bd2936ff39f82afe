-- ===== src/Core/Deps.antt =====
-- crates/cordis-core/src/deps.rs: the reverse index from an edge to the Fibers that declare it.
-- A dependent is the identity of its Fiber, whose `Weak` upgrades while it is not dropped. The edges
-- of a Fiber are fixed; here as in Core.Services an edge is a realm and a name.
pub mod Refine
pub mod Authority
use mathlib.Core.Option
use cordis_rs.Base.{
  ℕ, ◌+◌, Bool, true, false, not, Option, none, some, List, [], ◌∷◌, ◌++◌, String_eq, ℕ_eq, pair_eq,
  if◌then◌else◌, nat_eq, lookup, insert, remove, filter, contains, length,
}
use cordis_rs.Core.Services.{Edge}

abbrev pub Reverse : Type 0
Reverse = List (Edge × List ℕ)

pub record DependencyIndex : Type 0 where
  pub reverse : Reverse
  pub complete : Bool

abbrev pub new_index : DependencyIndex
new_index = record { reverse = []; complete = true }

-- The dependents that stand under an edge.
abbrev pub row : Edge → Reverse → List ℕ
row edge reverse = Option.get_or (lookup edge reverse) []

-- `entry(..).or_default().push(..)`, for each edge
abbrev pub push_all : ℕ → List Edge → Reverse → Reverse
push_all id [] reverse = reverse
push_all id (edge ∷ edges) reverse =
    push_all id edges (insert edge (row edge reverse ++ (id ∷ [])) reverse)

-- `register`
pub register : (id : ℕ) → (alive : Bool) → List Edge → DependencyIndex → DependencyIndex
register id alive edges state =
    if not state.complete
    then state
    else if not alive
    then state
    else record state { reverse = push_all id edges state.reverse }

-- A list put back under its edge, or its row removed when it is empty.
abbrev pub put_row : Edge → List ℕ → Reverse → Reverse
put_row edge [] reverse = remove edge reverse
put_row edge (id ∷ ids) reverse = insert edge (id ∷ ids) reverse

abbrev pub retain_row : Edge → Option (List ℕ) → (ℕ → Bool) → Reverse → Reverse
retain_row edge none keep reverse = reverse
retain_row edge (some list) keep reverse = put_row edge (filter keep list) reverse

abbrev pub retain_all : ℕ → List Edge → Reverse → Reverse
retain_all id [] reverse = reverse
retain_all id (edge ∷ edges) reverse =
    retain_all id edges (retain_row edge (lookup edge reverse) (λ d. not (nat_eq d id)) reverse)

-- `unregister`
pub unregister : (id : ℕ) → List Edge → DependencyIndex → DependencyIndex
unregister id edges state = record state { reverse = retain_all id edges state.reverse }

-- A requested edge: its live dependents, the row that is left and whether it is empty.
abbrev pub prune_row : (ℕ → Bool) → Edge → Option (List ℕ) → Reverse → List ℕ × Reverse
prune_row upgrades edge none reverse = ([], reverse)
prune_row upgrades edge (some list) reverse =
    (filter upgrades list, insert edge (filter upgrades list) reverse)

abbrev pub emptied_row : Edge → Option (List ℕ) → List ℕ → List Edge → List Edge
emptied_row edge none upgraded emptied = emptied
emptied_row edge (some list) [] emptied = edge ∷ emptied
emptied_row edge (some list) (id ∷ ids) emptied = emptied

abbrev pub upgrade_all : (ℕ → Bool) → List Edge → Reverse → List ℕ × List Edge × Reverse
upgrade_all upgrades [] reverse = ([], [], reverse)
upgrade_all upgrades (edge ∷ edges) reverse =
    let (upgraded, pruned) = prune_row upgrades edge (lookup edge reverse) reverse in
    let (later, emptied, reverse') = upgrade_all upgrades edges pruned in
    (upgraded ++ later, emptied_row edge (lookup edge reverse) upgraded emptied, reverse')

abbrev pub remove_all : List Edge → Reverse → Reverse
remove_all [] reverse = reverse
remove_all (edge ∷ edges) reverse = remove_all edges (remove edge reverse)

-- The loop over the `HashSet` of those seen.
abbrev pub unique : List ℕ → List ℕ → List ℕ
unique seen [] = []
unique seen (id ∷ ids) =
    let rest = unique (id ∷ seen) ids in
    let skipped = unique seen ids in if contains seen id then skipped else id ∷ rest

-- `dependents_of`: the answer, `none` for an index that is not complete, and the state behind it.
pub dependents_of : (ℕ → Bool) → List Edge → DependencyIndex → Option (List ℕ) × DependencyIndex
dependents_of upgrades edges state =
    let (upgraded, emptied, reverse) = upgrade_all upgrades edges state.reverse in
    if not state.complete
    then (none, state)
    else (some (unique [] upgraded), record state { reverse = remove_all emptied reverse })
