-- ===== src/Loader/Order/Total.antt =====
-- plan.rs, `LoadPlan::execution_order` on the plans that the builder makes.
use mathlib.Core.Option.{some-injective}
use mathlib.Core.Path.{fun_ext, subst₂}
use cordis_rs.Base.{
  ℕ, zero, suc, ◌≤◌, ◌<◌, ◌≡◌, refl, sym, ap, subst, ◌∙◌, inl, inr, ◌≢◌, false, Option, none, some,
  List, [], ◌∷◌, arith, nat_eq_iff, Option-cases, ◌==◌, ℕ_eq, beq_refl, beq_cases, beq_of_ne, All,
  count, get_elem?, length,
}
use cordis_rs.Loader.Plan.{EntryId, EntryId_eq, PlanNode}
use cordis_rs.Loader.Plan.Build.{IsOrdered}
use cordis_rs.Loader.Order.{Children, split, descendants, execution_order}
use cordis_rs.Loader.Order.Forest.{
  bit, is_at, is_none, IsForest, Preorder, Walked, walk-Walked, work-roots, above-roots,
}
use native.Mathlib.Decide.{dec_lt}
use cordis_rs.Loader.Order.Parents.{ParentsFirst, Preorder-ParentsFirst, roots-ParentSeen}
use cordis_rs.Loader.Order.Tree.{
  index_of, has_parent, is_absent, parent_index, kid_list, root_bit, index_of_self, parent_before,
  index_of-get, split-kids, split-roots, listed, listed_roots, split-listed, split-listed_roots,
  kid_bit-at, root_bit-at,
}

-- No member of the list reaches a bound that none of them counts from.
All-of_count : (n : ℕ) (xs : List ℕ) → ((j : ℕ) → n ≤ j → count j xs ≡ 0) → All (λ c. c < n) xs
All-of_count n [] h = tt
All-of_count n (x ∷ xs) h =
    (ground (arith, h x, (nat_eq_iff x x).1 refl), All-of_count n xs (λ j k. ground (arith, h j k)))

get_elem?-ge {ℓ} : {A : Type ℓ} (xs : List A) (j : ℕ) → length xs ≤ j → get_elem? xs j ≡ none
get_elem?-ge [] j h = refl
get_elem?-ge (x ∷ xs) zero h = absurd (omega arith)
get_elem?-ge (x ∷ xs) (suc j) h = get_elem?-ge xs j (omega arith)

get_elem?-some {ℓ} :
    {A : Type ℓ} (xs : List A) (j : ℕ) → j < length xs → (x : A) × (get_elem? xs j ≡ some x)
get_elem?-some [] j h = elim h [ ]
get_elem?-some (x ∷ xs) zero h = (x, refl)
get_elem?-some (x ∷ xs) (suc j) h = get_elem?-some xs j (omega arith)

module _ {Value : Type 0} (nodes : List (PlanNode Value)) where
  -- The nodes below node `i`, and the roots, in declaration order.
  abbrev pub children : ℕ → List ℕ
  children i = elim (get_elem? nodes i) [ none ↦ [] | some m ↦ listed m.id 0 nodes ]

  -- The order is complete, visits every node once, and is depth first.
  pub record IsTraversal (order : List ℕ) : Type 0 where
    pub computed : execution_order nodes ≡ some order
    pub depth_first : Preorder children (listed_roots 0 nodes) order
    pub inside : All (λ i. i < length nodes) order
    pub parents_first : ParentsFirst (parent_index nodes) [] order
    pub each_once : (j : ℕ) → j < length nodes → count j order ≡ 1

module _ {Value : Type 0} (lineage : ℕ) (nodes : List (PlanNode Value))
    (v : IsOrdered lineage [] nodes) where
  abbrev n : ℕ
  n = length nodes

  abbrev roots : List ℕ
  roots = (split 0 nodes ([], [])).0

  abbrev kids : Children
  kids = (split 0 nodes ([], [])).1

  elsewhere :
      (q : EntryId) (i : ℕ) (m : PlanNode Value) (p : ℕ)
      → get_elem? nodes i ≡ some m
      → q ≢ m.id
      → index_of q nodes ≡ some p
      → p ≢ i
  elsewhere q i m p e s a k =
      let (x, g, d) = index_of-get nodes q p a in
      s (sym d ∙ ap (λ r. r.id) (some-injective x m (sym g ∙ ap (get_elem? nodes) k ∙ e)))

  is_at-index_of :
      (q : EntryId) (i : ℕ) (m : PlanNode Value)
      → get_elem? nodes i ≡ some m
      → is_at (index_of q nodes) i ≡ (q == m.id)
  is_at-index_of q i m e = elim (beq_cases q m.id) [
    | inl (b, s) ↦
        rw (s, (index_of_self lineage [] nodes i m v e).0) (ground (arith, beq_refl m.id))
    | inr (b, s) ↦ elim (Option-cases (index_of q nodes)) [
      | inl a ↦ rw (a, b)
      | inr (p, a) ↦ rw (a, b) (beq_of_ne p i (elsewhere q i m p e s a))
    ]
  ]

  parent_index-cases :
      (i j : ℕ) (m : PlanNode Value)
      → get_elem? nodes i ≡ some m
      → (o : Option (PlanNode Value)) → get_elem? nodes j ≡ o
      → elim o [ none ↦ 0 | some x ↦ bit (has_parent x m.id) ]
        ≡ bit (is_at (parent_index nodes j) i)
  parent_index-cases i j m e none f = rw (f, parent_index)
  parent_index-cases i j m e (some x) f = elim (Option-cases x.parent) [
    | inl a ↦ rw (f, parent_index, a) refl
    | inr (q, a) ↦ rw (f, parent_index, a) (ap bit (sym (is_at-index_of q i m e)))
  ]

  parent_index-some :
      (j p : ℕ)
      → parent_index nodes j ≡ some p
      → (x : PlanNode Value) × (get_elem? nodes p ≡ some x) × (p < j)
  parent_index-some j p h = elim (Option-cases (get_elem? nodes j)) [
    | inl e ↦ absurd (cc (ap (λ o. o) (rw (e, parent_index) at h)))
    | inr (x, e) ↦ elim (Option-cases x.parent) [
      | inl a ↦ absurd (cc (ap (λ o. o) (rw (e, parent_index, a) at h)))
      | inr (q, a) ↦ found x q e a
    ]
  ]
    where
      found :
          (x : PlanNode Value) (q : EntryId)
          → get_elem? nodes j ≡ some x
          → x.parent ≡ some q
          → (x : PlanNode Value) × (get_elem? nodes p ≡ some x) × (p < j)
      found x q e a =
          let (p', i, lt) = parent_before lineage [] nodes j x q v e a refl in
          let i' : index_of q nodes ≡ some p = rw (e, parent_index, a) at h in
          let (y, g, d) = index_of-get nodes q p i' in
          (y, g, subst (λ k. k < j) (some-injective p' p (sym i ∙ i')) lt)

  is_at-beyond : (i j : ℕ) → get_elem? nodes i ≡ none → is_at (parent_index nodes j) i ≡ false
  is_at-beyond i j e = elim (Option-cases (parent_index nodes j)) [
    | inl a ↦ rw a
    | inr (p, a) ↦ rw a (
        beq_of_ne p i (λ k.
          let (x, g, lt) = parent_index-some j p a in cc (sym g ∙ ap (get_elem? nodes) k ∙ e)))
  ]

  kid_list-once : (i j : ℕ) → count j (kid_list nodes kids i) ≡ bit (is_at (parent_index nodes j) i)
  kid_list-once i j = elim (Option-cases (get_elem? nodes i)) [
    | inr (m, e) ↦
        rw (e, kid_list)
          (omega (
            arith,
            split-kids m.id 0 nodes ([], []) j,
            kid_bit-at m.id 0 nodes j j (omega arith),
            parent_index-cases i j m e (get_elem? nodes j) refl,
          ))
    | inl e ↦ rw (e, kid_list) (sym (ap bit (is_at-beyond i j e)))
  ]

  kid_list-inside : (i : ℕ) → All (λ c. c < n) (kid_list nodes kids i)
  kid_list-inside i =
      All-of_count n (kid_list nodes kids i)
        λ j h. kid_list-once i j ∙ rw (get_elem?-ge nodes j h, parent_index)

  pub nodes-IsForest : IsForest n (parent_index nodes) (kid_list nodes kids)
  nodes-IsForest = record {
    down = λ j p h. (parent_index-some j p h).2;
    once = kid_list-once;
    inside = kid_list-inside;
  }

  is_absent-is_none :
      (j : ℕ) (x : PlanNode Value)
      → get_elem? nodes j ≡ some x
      → is_absent x.parent ≡ is_none (parent_index nodes j)
  is_absent-is_none j x e = elim (Option-cases x.parent) [
    | inl a ↦ rw (e, parent_index, a)
    | inr (q, a) ↦ rw (e, parent_index, a, (parent_before lineage [] nodes j x q v e a refl).1)
  ]

  roots-once : (j : ℕ) → j < n → count j roots ≡ bit (is_none (parent_index nodes j))
  roots-once j h =
      omega (arith, split-roots 0 nodes ([], []) j, rooted, ap bit (is_absent-is_none j x e))
    where
      x : PlanNode Value
      x = (get_elem?-some nodes j h).0

      e : get_elem? nodes j ≡ some x
      e = (get_elem?-some nodes j h).1

      rooted : root_bit 0 nodes j ≡ bit (is_absent x.parent)
      rooted = root_bit-at 0 nodes j j (omega arith) ∙ rw e

  root_bit-beyond : (j : ℕ) → n ≤ j → root_bit 0 nodes j ≡ 0
  root_bit-beyond j h = root_bit-at 0 nodes j j (omega arith) ∙ rw (get_elem?-ge nodes j h)

  roots-inside : All (λ i. i < n) roots
  roots-inside =
      All-of_count n roots λ j h. omega (arith, split-roots 0 nodes ([], []) j, root_bit-beyond j h)

  kid_list-children : kid_list nodes kids ≡ children nodes
  kid_list-children = fun_ext λ i. elim (Option-cases (get_elem? nodes i)) [
    | inl e ↦ rw (e, kid_list, children)
    | inr (m, e) ↦ rw (e, kid_list, children) (split-listed m.id 0 nodes ([], []))
  ]

  known : (i : ℕ) → i < n → descendants nodes kids i ≡ some (kid_list nodes kids i)
  unfolding descendants
  known i h = let (m, e) = get_elem?-some nodes i h in rw (e, kid_list)

  walked : Walked nodes-IsForest roots (execution_order nodes)
  unfolding execution_order
  walked =
      walk-Walked nodes-IsForest (descendants nodes kids) known (suc n) roots roots-inside
        (omega (arith, work-roots nodes-IsForest roots roots-once))

  roots-le : (j : ℕ) → count j roots ≤ bit (is_none (parent_index nodes j))
  roots-le j = elim (dec_lt j n) [
    | yes h ↦ omega (arith, roots-once j h)
    | no h ↦ omega (arith, split-roots 0 nodes ([], []) j, root_bit-beyond j (omega arith))
  ]

  -- For the nodes of a plan the loop ends within its fuel, and its order is depth first, roots and
  -- siblings in declaration order, each parent before its descendants, and each node once.
  pub execution_order-IsTraversal : (order : List ℕ) × IsTraversal nodes order
  execution_order-IsTraversal = (
    walked.order,
    record {
      computed = walked.ends;
      depth_first =
          subst₂ (λ k r. Preorder k r walked.order) kid_list-children
            (split-listed_roots 0 nodes ([], [])) walked.preorder;
      inside = walked.inside;
      parents_first =
          Preorder-ParentsFirst nodes-IsForest [] (roots-ParentSeen nodes-IsForest roots roots-le)
            walked.preorder;
      each_once = λ j h. walked.counts j h ∙ above-roots nodes-IsForest roots roots-once n j h h;
    },
  )

count-inside : (n : ℕ) (xs : List ℕ) (j : ℕ) → All (λ i. i < n) xs → n ≤ j → count j xs ≡ 0
count-inside n [] j a h = refl
count-inside n (x ∷ xs) j a h = ground (arith, count-inside n xs j a.1 h)

pub count-le_one :
    {Value : Type 0} (nodes : List (PlanNode Value)) (order : List ℕ)
    → IsTraversal nodes order
    → (j : ℕ) → count j order ≤ 1
count-le_one nodes order e j = elim (dec_lt j (length nodes)) [
  | yes h ↦ omega (arith, e.each_once j h)
  | no h ↦ omega (arith, count-inside (length nodes) order j e.inside (omega arith))
]
