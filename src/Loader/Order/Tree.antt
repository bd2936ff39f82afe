-- ===== src/Loader/Order/Tree.antt =====
-- The nodes of a plan as a forest: the parent of an index, and what the first loop of
-- `execution_order` collects for each node.
use mathlib.Core.Option
use cordis_rs.Base.{
  ℕ, zero, suc, ◌+◌, ◌<◌, ◌≡◌, refl, sym, ap, subst, ◌∙◌, inl, inr, Bool, true, false, ◌&&◌, Option,
  none, some, List, [], ◌∷◌, ◌++◌, append-nil, append_assoc, arith, nat_eq, if◌then◌else◌,
  Bool-cases, ◌==◌, ℕ_eq, beq_refl, beq_cases, eq_of_beq, count, count-append, contains, get_elem?,
  length, lookup, insert, lookup-insert_self, lookup-insert_ne,
}
use cordis_rs.Loader.Plan.{EntryId, EntryId_eq, PlanNode}
use cordis_rs.Loader.Plan.Build.{IsOrdered, ParentIn}
use mathlib.Core.Option.{some-injective}
use cordis_rs.Loader.Order.{Children, children_of, classify, split}
use cordis_rs.Loader.Order.Forest.{bit}

abbrev pub is_parent : Option EntryId → EntryId → Bool
is_parent none p = false
is_parent (some q) p = q == p

abbrev pub is_absent : Option EntryId → Bool
is_absent none = true
is_absent (some q) = false

children_of-insert :
    (q p : EntryId) (v : List ℕ) (kids : Children)
    → children_of (insert q v kids) p ≡ (if q == p then v else children_of kids p)
children_of-insert q p v kids = elim (beq_cases q p) [
  | inl (b, e) ↦ rw b (
      ap (λ o. Option.get_or o [])
        (subst (λ x. lookup x (insert q v kids) ≡ some v) e (lookup-insert_self q v kids)))
  | inr (b, e) ↦ rw b (ap (λ o. Option.get_or o []) (lookup-insert_ne q p v kids e))
]

classify-kids :
    (p : EntryId) (k : ℕ) (parent : Option EntryId) (found : List ℕ × Children) (j : ℕ)
    → count j (children_of (classify k parent found).1 p)
      ≡ count j (children_of found.1 p) + bit (nat_eq k j && is_parent parent p)
classify-kids p k none (roots, kids) j = ground arith
classify-kids p k (some q) (roots, kids) j = elim (beq_cases q p) [
  | inl (b, e) ↦
      rw (children_of-insert q p (children_of kids q ++ (k ∷ [])) kids, b, e)
        (ground (arith, count-append j (children_of kids p) (k ∷ [])))
  | inr (b, e) ↦ rw (children_of-insert q p (children_of kids q ++ (k ∷ [])) kids, b) (ground arith)
]

classify-roots :
    (k : ℕ) (parent : Option EntryId) (found : List ℕ × Children) (j : ℕ)
    → count j (classify k parent found).0 ≡ count j found.0 + bit (nat_eq k j && is_absent parent)
classify-roots k none (roots, kids) j = ground (arith, count-append j roots (k ∷ []))
classify-roots k (some q) (roots, kids) j = ground arith

classify-append :
    (p : EntryId) (k : ℕ) (parent : Option EntryId) (found : List ℕ × Children) (rest : List ℕ)
    → children_of (classify k parent found).1 p ++ rest
      ≡ children_of found.1 p ++ (if is_parent parent p then k ∷ rest else rest)
classify-append p k none (roots, kids) rest = refl
classify-append p k (some q) (roots, kids) rest = elim (beq_cases q p) [
  | inl (b, e) ↦
      rw (children_of-insert q p (children_of kids q ++ (k ∷ [])) kids, b, e)
        (append_assoc (children_of kids p) (k ∷ []) rest)
  | inr (b, e) ↦ rw (children_of-insert q p (children_of kids q ++ (k ∷ [])) kids, b)
]

classify-append_roots :
    (k : ℕ) (parent : Option EntryId) (found : List ℕ × Children) (rest : List ℕ)
    → (classify k parent found).0 ++ rest ≡ found.0 ++ (if is_absent parent then k ∷ rest else rest)
classify-append_roots k none (roots, kids) rest = append_assoc roots (k ∷ []) rest
classify-append_roots k (some q) (roots, kids) rest = refl

module _ {Value : Type 0} where
  abbrev pub index_of : EntryId → List (PlanNode Value) → Option ℕ
  index_of id [] = none
  index_of id (n ∷ ns) = if n.id == id then some 0 else Option.map suc (index_of id ns)

  abbrev pub has_parent : PlanNode Value → EntryId → Bool
  has_parent n p = is_parent n.parent p

  abbrev pub is_root : PlanNode Value → Bool
  is_root n = is_absent n.parent

  -- The index of the parent of node `j`.
  abbrev pub parent_index : List (PlanNode Value) → ℕ → Option ℕ
  parent_index nodes j = elim (get_elem? nodes j) [
    | none ↦ none
    | some n ↦ elim n.parent [ none ↦ none | some p ↦ index_of p nodes ]
  ]

  abbrev pub kid_list : List (PlanNode Value) → Children → ℕ → List ℕ
  kid_list nodes kids i = elim (get_elem? nodes i) [ none ↦ [] | some n ↦ children_of kids n.id ]

  pub index_of_self :
      (lineage : ℕ) (seen : List EntryId) (ns : List (PlanNode Value)) (i : ℕ) (n : PlanNode Value)
      → IsOrdered lineage seen ns
      → get_elem? ns i ≡ some n
      → (index_of n.id ns ≡ some i) × (contains seen n.id ≡ false)
  index_of_self lineage seen [] i n h e = cc
  index_of_self lineage seen (m ∷ ns) zero n h e = ground (arith, beq_refl n.id)
  index_of_self lineage seen (m ∷ ns) (suc i) n h e =
      ground (arith, index_of_self lineage (m.id ∷ seen) ns i n h.4 e)

  pub parent_before :
      (lineage : ℕ) (seen : List EntryId) (ns : List (PlanNode Value)) (j : ℕ) (n : PlanNode Value)
      (q : EntryId)
      → IsOrdered lineage seen ns
      → get_elem? ns j ≡ some n
      → n.parent ≡ some q
      → contains seen q ≡ false
      → (p : ℕ) × (index_of q ns ≡ some p) × (p < j)
  parent_before lineage seen [] j n q h e f c = cc
  parent_before lineage seen (m ∷ ns) zero n q h e f c = absurd (
      subst (λ o. ParentIn lineage seen o → ⊥) (sym f) (λ k. ground arith)
        (subst (λ x. ParentIn lineage seen x.parent) (some-injective m n e) h.2))
  parent_before lineage seen (m ∷ ns) (suc j) n q h e f c = elim (Bool-cases (m.id == q)) [
    | inl s ↦ (0, rw s, omega arith)
    | inr s ↦
        let (p, i, lt) = parent_before lineage (m.id ∷ seen) ns j n q h.4 e f (rw s c) in
        (suc p, rw (s, i), omega arith)
  ]

  pub index_of-get :
      (ns : List (PlanNode Value)) (q : EntryId) (i : ℕ)
      → index_of q ns ≡ some i
      → (n : PlanNode Value) × (get_elem? ns i ≡ some n) × (n.id ≡ q)
  index_of-get [] q i h = cc
  index_of-get (m ∷ ns) q zero h = elim (Bool-cases (m.id == q)) [
    | inl s ↦ (m, refl, eq_of_beq m.id q s)
    | inr s ↦ ground arith
  ]
  index_of-get (m ∷ ns) q (suc i) h = elim (Bool-cases (m.id == q)) [
    | inl s ↦ ground arith
    | inr s ↦ index_of-get ns q i (ground arith)
  ]

  pub get_elem?-lt :
      (ns : List (PlanNode Value)) (i : ℕ) {n : PlanNode Value}
      → get_elem? ns i ≡ some n
      → i < length ns
  get_elem?-lt [] i h = cc
  get_elem?-lt (m ∷ ns) zero h = omega arith
  get_elem?-lt (m ∷ ns) (suc i) h = omega (arith, get_elem?-lt ns i h)

  -- How often the loop records index `j` below `p`, and among the roots.
  pub kid_bit : EntryId → ℕ → List (PlanNode Value) → ℕ → ℕ
  kid_bit p k [] j = 0
  kid_bit p k (n ∷ ns) j = bit (nat_eq k j && has_parent n p) + kid_bit p (suc k) ns j

  pub root_bit : ℕ → List (PlanNode Value) → ℕ → ℕ
  root_bit k [] j = 0
  root_bit k (n ∷ ns) j = bit (nat_eq k j && is_root n) + root_bit (suc k) ns j

  pub split-kids :
      (p : EntryId) (k : ℕ) (ns : List (PlanNode Value)) (found : List ℕ × Children) (j : ℕ)
      → count j (children_of (split k ns found).1 p)
        ≡ count j (children_of found.1 p) + kid_bit p k ns j
  unfolding split kid_bit
  split-kids p k [] found j = omega arith
  split-kids p k (n ∷ ns) found j = omega (
    arith,
    split-kids p (suc k) ns (classify k n.parent found) j,
    classify-kids p k n.parent found j,
  )

  pub split-roots :
      (k : ℕ) (ns : List (PlanNode Value)) (found : List ℕ × Children) (j : ℕ)
      → count j (split k ns found).0 ≡ count j found.0 + root_bit k ns j
  unfolding split root_bit
  split-roots k [] found j = omega arith
  split-roots k (n ∷ ns) found j = omega (
    arith,
    split-roots (suc k) ns (classify k n.parent found) j,
    classify-roots k n.parent found j,
  )

  kid_bit-before :
      (p : EntryId) (k : ℕ) (ns : List (PlanNode Value)) (j : ℕ) → j < k → kid_bit p k ns j ≡ 0
  unfolding kid_bit
  kid_bit-before p k [] j h = refl
  kid_bit-before p k (n ∷ ns) j h = ground (arith, kid_bit-before p (suc k) ns j)

  root_bit-before : (k : ℕ) (ns : List (PlanNode Value)) (j : ℕ) → j < k → root_bit k ns j ≡ 0
  unfolding root_bit
  root_bit-before k [] j h = refl
  root_bit-before k (n ∷ ns) j h = ground (arith, root_bit-before (suc k) ns j)

  pub kid_bit-at :
      (p : EntryId) (k : ℕ) (ns : List (PlanNode Value)) (i j : ℕ)
      → j ≡ k + i
      → kid_bit p k ns j ≡ elim (get_elem? ns i) [ none ↦ 0 | some n ↦ bit (has_parent n p) ]
  unfolding kid_bit
  kid_bit-at p k [] i j h = refl
  kid_bit-at p k (n ∷ ns) zero j h = ground (arith, kid_bit-before p (suc k) ns j)
  kid_bit-at p k (n ∷ ns) (suc i) j h = ground (arith, kid_bit-at p (suc k) ns i j)

  pub root_bit-at :
      (k : ℕ) (ns : List (PlanNode Value)) (i j : ℕ)
      → j ≡ k + i
      → root_bit k ns j ≡ elim (get_elem? ns i) [ none ↦ 0 | some n ↦ bit (is_root n) ]
  unfolding root_bit
  root_bit-at k [] i j h = refl
  root_bit-at k (n ∷ ns) zero j h = ground (arith, root_bit-before (suc k) ns j)
  root_bit-at k (n ∷ ns) (suc i) j h = ground (arith, root_bit-at (suc k) ns i j)

  -- The indices, in declaration order, of the nodes whose parent is `p`, and of those without one.
  pub listed : EntryId → ℕ → List (PlanNode Value) → List ℕ
  listed p k [] = []
  listed p k (n ∷ ns) = let rest = listed p (suc k) ns in if has_parent n p then k ∷ rest else rest

  pub listed_roots : ℕ → List (PlanNode Value) → List ℕ
  listed_roots k [] = []
  listed_roots k (n ∷ ns) =
      let rest = listed_roots (suc k) ns in if is_root n then k ∷ rest else rest

  -- The first loop collects exactly these lists.
  pub split-listed :
      (p : EntryId) (k : ℕ) (ns : List (PlanNode Value)) (found : List ℕ × Children)
      → children_of (split k ns found).1 p ≡ children_of found.1 p ++ listed p k ns
  unfolding split listed
  split-listed p k [] found = sym (append-nil _)
  split-listed p k (n ∷ ns) found =
      split-listed p (suc k) ns (classify k n.parent found)
      ∙ classify-append p k n.parent found (listed p (suc k) ns)

  pub split-listed_roots :
      (k : ℕ) (ns : List (PlanNode Value)) (found : List ℕ × Children)
      → (split k ns found).0 ≡ found.0 ++ listed_roots k ns
  unfolding split listed_roots
  split-listed_roots k [] found = sym (append-nil _)
  split-listed_roots k (n ∷ ns) found =
      split-listed_roots (suc k) ns (classify k n.parent found)
      ∙ classify-append_roots k n.parent found (listed_roots (suc k) ns)

-- Two nodes with one identity are one node.
pub same_index :
    {Value : Type 0} (lineage : ℕ) (nodes : List (PlanNode Value)) (v : IsOrdered lineage [] nodes)
    (i j : ℕ) (n m : PlanNode Value)
    → get_elem? nodes i ≡ some n
    → get_elem? nodes j ≡ some m
    → n.id ≡ m.id
    → i ≡ j
same_index lineage nodes v i j n m a b e = some-injective i j (
    sym (index_of_self lineage [] nodes i n v a).0
    ∙ ap (λ d. index_of d nodes) e
    ∙ (index_of_self lineage [] nodes j m v b).0)
