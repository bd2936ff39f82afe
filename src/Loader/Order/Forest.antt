-- ===== src/Loader/Order/Forest.antt =====
-- The walk of `execution_order` over a forest that is given by parents and lists of children.
use mathlib.Core.Option
use cordis_rs.Base.{
  ℕ, zero, suc, ◌+◌, ◌≤◌, ◌<◌, ◌≡◌, refl, sym, ap, ◌∙◌, inl, inr, Bool, true, false, Option, none,
  some, List, [], ◌∷◌, ◌++◌, append_assoc, arith, nat_eq, Bool-cases, Option-cases, ℕ_eq, All,
  All-append, count, count-append,
}
use cordis_rs.Loader.Order.{walk}

abbrev pub bit : Bool → ℕ
bit true = 1
bit false = 0

abbrev pub is_at : Option ℕ → ℕ → Bool
is_at none i = false
is_at (some p) i = nat_eq p i

abbrev pub is_none : Option ℕ → Bool
is_none none = true
is_none (some p) = false

-- Node `j < n` has the parent `par j`; its list of children holds each child once.
pub record IsForest (n : ℕ) (par : ℕ → Option ℕ) (kids : ℕ → List ℕ) : Type 0 where
  pub down : (j p : ℕ) → par j ≡ some p → p < j
  pub once : (i j : ℕ) → count j (kids i) ≡ bit (is_at (par j) i)
  pub inside : (i : ℕ) → All (λ c. c < n) (kids i)

-- The depth-first order: every node is followed by all that is below it.
pub data Preorder (kids : ℕ → List ℕ) : List ℕ → List ℕ → Type 0 where
  done : Preorder kids [] []
  visit :
      {i : ℕ} {st below rest w : List ℕ}
      → Preorder kids (kids i) below
      → Preorder kids st rest
      → w ≡ i ∷ (below ++ rest)
      → Preorder kids (i ∷ st) w

sum_below : ℕ → (ℕ → ℕ) → ℕ
sum_below zero f = 0
sum_below (suc n) f = sum_below n f + f n

sum_below-add :
    (n : ℕ) (f g h : ℕ → ℕ)
    → ((j : ℕ) → j < n → f j ≡ g j + h j)
    → sum_below n f ≡ sum_below n g + sum_below n h
unfolding sum_below
sum_below-add zero f g h e = refl
sum_below-add (suc n) f g h e =
    omega (arith, e n (omega arith), sum_below-add n f g h (λ j k. e j (omega arith)))

sum_below-bit_of_le : (n i : ℕ) → n ≤ i → sum_below n (λ j. bit (nat_eq i j)) ≡ 0
unfolding sum_below
sum_below-bit_of_le zero i h = refl
sum_below-bit_of_le (suc n) i h = ground (arith, sum_below-bit_of_le n i)

sum_below-bit : (n i : ℕ) → i < n → sum_below n (λ j. bit (nat_eq i j)) ≡ 1
unfolding sum_below
sum_below-bit zero i h = elim h [ ]
sum_below-bit (suc n) i h = elim (Bool-cases (nat_eq i n)) [
  | inl e ↦ rw e (ground (arith, sum_below-bit_of_le n i))
  | inr e ↦ rw e (ground (arith, sum_below-bit n i))
]

sum_below-const : (n : ℕ) (f : ℕ → ℕ) → ((j : ℕ) → j < n → f j ≡ 1) → sum_below n f ≡ n
unfolding sum_below
sum_below-const zero f h = refl
sum_below-const (suc n) f h =
    omega (arith, h n (omega arith), sum_below-const n f (λ j k. h j (omega arith)))

module _ (par : ℕ → Option ℕ) where
  -- How many members of `xs` are `j` or an ancestor of `j`, looking `f` nodes far.
  pub above : ℕ → List ℕ → ℕ → ℕ
  above zero xs j = 0
  above (suc f) xs j = count j xs + elim (par j) [ none ↦ 0 | some p ↦ above f xs p ]

  above-append :
      (f : ℕ) (xs ys : List ℕ) (j : ℕ) → above f (xs ++ ys) j ≡ above f xs j + above f ys j
  unfolding above
  above-append zero xs ys j = refl
  above-append (suc f) xs ys j = elim (Option-cases (par j)) [
    | inl e ↦ rw (e, above) (omega (arith, count-append j xs ys))
    | inr (p, e) ↦ rw (e, above) (omega (arith, count-append j xs ys, above-append f xs ys p))
  ]

module _ {n : ℕ} {par : ℕ → Option ℕ} {kids : ℕ → List ℕ} (t : IsForest n par kids) where
  above-node :
      (f i j : ℕ) → j < f → above par f (i ∷ []) j ≡ bit (nat_eq i j) + above par f (kids i) j
  unfolding above
  above-node zero i j h = elim h [ ]
  above-node (suc f) i j h = elim (Option-cases (par j)) [
    | inl e ↦ rw (e, above) (ground (arith, t.once i j))
    | inr (p, e) ↦
        rw (e, above) (ground (arith, t.once i j, above-node f i p (omega (arith, t.down j p e))))
  ]

  -- A walk from a stack of nodes: it ends, in depth-first order, and holds `j` as often as the
  -- stack holds `j` and its ancestors.
  pub record Walked (stack : List ℕ) (r : Option (List ℕ)) : Type 0 where
    pub order : List ℕ
    pub ends : r ≡ some order
    pub preorder : Preorder kids stack order
    pub inside : All (λ i. i < n) order
    pub counts : (j : ℕ) → j < n → count j order ≡ above par n stack j

  above-cons :
      (i : ℕ) (st : List ℕ) (j : ℕ)
      → j < n
      → above par n (i ∷ st) j ≡ bit (nat_eq i j) + above par n (kids i ++ st) j
  above-cons i st j h = omega (
    arith,
    above-append par n (i ∷ []) st j,
    above-append par n (kids i) st j,
    above-node n i j h,
  )

  pub work : List ℕ → ℕ
  work st = sum_below n (above par n st)

  work-cons : (i : ℕ) (st : List ℕ) → i < n → work (i ∷ st) ≡ 1 + work (kids i ++ st)
  unfolding work
  work-cons i st h = omega (
    arith,
    sum_below-add n (above par n (i ∷ st)) (λ j. bit (nat_eq i j)) (above par n (kids i ++ st))
        (above-cons i st),
    sum_below-bit n i h,
  )

Preorder-append :
    {kids : ℕ → List ℕ} (xs : List ℕ) {ys w : List ℕ}
    → Preorder kids (xs ++ ys) w
    → (u : List ℕ) × (v : List ℕ) × Preorder kids xs u × Preorder kids ys v × (w ≡ u ++ v)
Preorder-append [] {w = w} p = ([], w, done, p, refl)
Preorder-append (x ∷ xs) (visit {below = below} a b e) =
    let (u, v, p, q, d) = Preorder-append xs b in
    (
      x ∷ (below ++ u),
      v,
      visit a p refl,
      q,
      e ∙ ap (λ r. x ∷ (below ++ r)) d ∙ ap (◌∷◌ x) (sym (append_assoc below u v)),
    )

above-nil : (par : ℕ → Option ℕ) (f j : ℕ) → above par f [] j ≡ 0
unfolding above
above-nil par zero j = refl
above-nil par (suc f) j = elim (Option-cases (par j)) [
  | inl e ↦ rw (e, above)
  | inr (p, e) ↦ rw (e, above) (omega (arith, above-nil par f p))
]

module _ {n : ℕ} {par : ℕ → Option ℕ} {kids : ℕ → List ℕ} (t : IsForest n par kids) where
  Walked-cons :
      {i : ℕ} {st : List ℕ} {r : Option (List ℕ)}
      → i < n
      → Walked t (kids i ++ st) r
      → Walked t (i ∷ st) (Option.map (◌∷◌ i) r)
  Walked-cons {i} {st} lt rest = record {
    order = i ∷ rest.order;
    ends = rw rest.ends;
    preorder = visit parts.2 parts.3 (ap (◌∷◌ i) parts.4);
    inside = (lt, rest.inside);
    counts = λ j k. ground (arith, rest.counts j k, above-cons t i st j k);
  }
    where
      parts :
          (u : List ℕ) × (v : List ℕ) × Preorder kids (kids i) u
          × Preorder kids st v
          × (rest.order ≡ u ++ v)
      parts = Preorder-append (kids i) rest.preorder

  module _ (next : ℕ → Option (List ℕ)) (known : (i : ℕ) → i < n → next i ≡ some (kids i)) where
    -- With fuel for every node below the stack the walk ends.
    pub walk-Walked :
        (f : ℕ) (st : List ℕ) → All (λ i. i < n) st → work t st < f → Walked t st (walk next f st)
    unfolding walk
    walk-Walked zero st a h = elim h [ ]
    walk-Walked (suc f) [] a h = record {
      order = [];
      ends = refl;
      preorder = done;
      inside = tt;
      counts = λ j k. sym (above-nil par n j);
    }
    walk-Walked (suc f) (i ∷ st) a h =
        rw (known i a.0, walk)
          (Walked-cons a.0 (
            walk-Walked f (kids i ++ st) (All-append _ (kids i) st (t.inside i) a.1)
              (omega (arith, work-cons t i st a.0))))

  -- The roots are the nodes with no parent, each once. Then every node is below one root.
  pub above-roots :
      (roots : List ℕ)
      → ((j : ℕ) → j < n → count j roots ≡ bit (is_none (par j)))
      → (f j : ℕ) → j < f
      → j < n
      → above par f roots j ≡ 1
  unfolding above
  above-roots roots h zero j k lt = elim k [ ]
  above-roots roots h (suc f) j k lt = elim (Option-cases (par j)) [
    | inl e ↦ rw (e, above) (ground (arith, h j lt))
    | inr (p, e) ↦
        rw (e, above)
          (ground (
            arith,
            h j lt,
            above-roots roots h f p (omega (arith, t.down j p e)) (omega (arith, t.down j p e)),
          ))
  ]

  pub work-roots :
      (roots : List ℕ)
      → ((j : ℕ) → j < n → count j roots ≡ bit (is_none (par j)))
      → work t roots ≡ n
  unfolding work
  work-roots roots h = sum_below-const n (above par n roots) (λ j k. above-roots roots h n j k k)
