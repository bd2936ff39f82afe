-- ===== src/Loader/Order/Parents.antt =====
-- In a depth-first order of a forest every node comes after its parent.
use cordis_rs.Base.{
  ℕ, ◌≤◌, ◌≡◌, refl, sym, ap, subst, true, Option, none, some, List, [], ◌∷◌, ◌++◌, arith,
  nat_eq_iff, ℕ_eq, All, All-map, contains, count,
}
use cordis_rs.Loader.Order.Forest.{bit, is_at, is_none, IsForest, Preorder, done, visit}

abbrev pub ParentSeen : List ℕ → Option ℕ → Type 0
ParentSeen seen none = Unit
ParentSeen seen (some p) = contains seen p ≡ true

abbrev pub ParentsFirst : (ℕ → Option ℕ) → List ℕ → List ℕ → Type 0
ParentsFirst par seen [] = Unit
ParentsFirst par seen (i ∷ order) = ParentSeen seen (par i) × ParentsFirst par (i ∷ seen) order

-- What has been seen after a run of nodes.
abbrev grow : List ℕ → List ℕ → List ℕ
grow seen [] = seen
grow seen (x ∷ xs) = grow (x ∷ seen) xs

contains-grow :
    (seen xs : List ℕ) (p : ℕ) → contains seen p ≡ true → contains (grow seen xs) p ≡ true
contains-grow seen [] p h = h
contains-grow seen (x ∷ xs) p h = contains-grow (x ∷ seen) xs p (ground arith)

ParentSeen-grow :
    (seen xs : List ℕ) (o : Option ℕ) → ParentSeen seen o → ParentSeen (grow seen xs) o
ParentSeen-grow seen xs none h = tt
ParentSeen-grow seen xs (some p) h = contains-grow seen xs p h

module _ (par : ℕ → Option ℕ) where
  ParentsFirst-append :
      (seen xs ys : List ℕ)
      → ParentsFirst par seen xs
      → ParentsFirst par (grow seen xs) ys
      → ParentsFirst par seen (xs ++ ys)
  ParentsFirst-append seen [] ys hx hy = hy
  ParentsFirst-append seen (x ∷ xs) ys hx hy = (hx.0, ParentsFirst-append (x ∷ seen) xs ys hx.1 hy)

  self_counted : (xs : List ℕ) (f : ℕ → ℕ) → ((c : ℕ) → count c xs ≤ f c) → All (λ c. 1 ≤ f c) xs
  self_counted [] f h = tt
  self_counted (x ∷ xs) f h =
      (ground (arith, h x, (nat_eq_iff x x).1 refl), self_counted xs f (λ c. ground (arith, h c)))

  is_at-some : (o : Option ℕ) (i : ℕ) → 1 ≤ bit (is_at o i) → o ≡ some i
  is_at-some none i h = absurd (omega arith)
  is_at-some (some p) i h = ap some (ground arith)

module _ {n : ℕ} {par : ℕ → Option ℕ} {kids : ℕ → List ℕ} (t : IsForest n par kids) where
  kids-par : (i : ℕ) → All (λ c. par c ≡ some i) (kids i)
  kids-par i =
      All-map _ _ (kids i) (λ c h. is_at-some par (par c) i h)
        (self_counted par (kids i) (λ c. bit (is_at (par c) i)) (λ c. omega (arith, t.once i c)))

  seen-kids : (seen : List ℕ) (i : ℕ) → All (λ c. ParentSeen (i ∷ seen) (par c)) (kids i)
  seen-kids seen i =
      All-map _ _ (kids i)
        (λ c h. subst (ParentSeen (i ∷ seen)) (sym h) (ground (arith, (nat_eq_iff i i).1 refl)))
        (kids-par i)

  pub Preorder-ParentsFirst :
      (seen : List ℕ) {st w : List ℕ}
      → All (λ i. ParentSeen seen (par i)) st
      → Preorder kids st w
      → ParentsFirst par seen w
  Preorder-ParentsFirst seen a done = tt
  Preorder-ParentsFirst seen a (visit {i} {st} {below} {rest} p q e) =
      subst (ParentsFirst par seen) (sym e) (
        a.0,
        ParentsFirst-append par (i ∷ seen) below rest
            (Preorder-ParentsFirst (i ∷ seen) (seen-kids seen i) p)
            (Preorder-ParentsFirst (grow (i ∷ seen) below)
              (All-map _ _ st (λ c h. ParentSeen-grow seen (i ∷ below) (par c) h) a.1) q),
      )

  -- Roots have no parent to wait for.
  pub roots-ParentSeen :
      (roots : List ℕ)
      → ((j : ℕ) → count j roots ≤ bit (is_none (par j)))
      → All (λ i. ParentSeen [] (par i)) roots
  roots-ParentSeen roots h =
      All-map _ _ roots (λ c k. none-ParentSeen (par c) k)
        (self_counted par roots (λ c. bit (is_none (par c))) h)
    where
      none-ParentSeen : (o : Option ℕ) → 1 ≤ bit (is_none o) → ParentSeen [] o
      none-ParentSeen none k = tt
      none-ParentSeen (some p) k = absurd (omega arith)
