-- ===== src/Base/Maps.antt =====
-- Maps as association lists: what a `HashMap` of the source answers to `get`, `insert`, `remove`.
use mathlib.Core.Path.{◌≡◌, refl, subst}
use mathlib.Core.Logic.{inl, inr, ◌≢◌}
use mathlib.Core.List.{List, [], ◌∷◌}
use mathlib.Core.Option.{Option, none, some}
use native.Mathlib.Omega.{arith}
use cordis_rs.Base.Tests.{if◌then◌else◌, Bool-cases}
use cordis_rs.Base.Lists.{All}
use cordis_rs.Base.Equality.{Eq, ◌==◌, beq_refl, beq_cases, beq_of_ne}

module _ {ℓ κ} {K : Type ℓ} {V : Type κ} ⦃e : Eq K⦄ where
  abbrev pub lookup : K → List (K × V) → Option V
  lookup k [] = none
  lookup k ((j, v) ∷ m) = if j == k then some v else lookup k m

  unfoldable pub insert : K → V → List (K × V) → List (K × V)
  insert k v [] = (k, v) ∷ []
  insert k v (entry ∷ rest) =
      let later = insert k v rest in if entry.0 == k then (k, v) ∷ rest else entry ∷ later

  unfoldable pub remove : K → List (K × V) → List (K × V)
  remove k [] = []
  remove k ((j, w) ∷ m) = let rest = remove k m in if j == k then rest else (j, w) ∷ rest

  pub lookup-insert_self : (k : K) (v : V) (m : List (K × V)) → lookup k (insert k v m) ≡ some v
  unfolding insert
  lookup-insert_self k v [] = ground (arith, beq_refl k)
  lookup-insert_self k v ((j, w) ∷ m) = ground (arith, beq_refl k, lookup-insert_self k v m)

  pub lookup-insert_ne :
      (k j : K) (v : V) (m : List (K × V)) → k ≢ j → lookup j (insert k v m) ≡ lookup j m
  unfolding insert
  lookup-insert_ne k j v [] h = rw (beq_of_ne k j h)
  lookup-insert_ne k j v ((i, w) ∷ m) h =
      ground (arith, beq_of_ne k j h, e.beq_iff i k, e.beq_iff i j, lookup-insert_ne k j v m h)

  pub lookup-remove_self : (k : K) (m : List (K × V)) → lookup k (remove k m) ≡ none
  unfolding remove
  lookup-remove_self k [] = refl
  lookup-remove_self k ((j, w) ∷ m) = ground (arith, lookup-remove_self k m)

  pub lookup-remove_ne : (k j : K) (m : List (K × V)) → k ≢ j → lookup j (remove k m) ≡ lookup j m
  unfolding remove
  lookup-remove_ne k j [] h = refl
  lookup-remove_ne k j ((i, w) ∷ m) h =
      ground (arith, e.beq_iff i k, e.beq_iff i j, lookup-remove_ne k j m h)

  pub lookup-insert :
      (k j : K) (v : V) (m : List (K × V))
      → lookup j (insert k v m) ≡ (if k == j then some v else lookup j m)
  lookup-insert k j v m = elim (beq_cases k j) [
    | inl (b, q) ↦ rw b (subst (λ x. lookup x (insert k v m) ≡ some v) q (lookup-insert_self k v m))
    | inr (b, q) ↦ rw b (lookup-insert_ne k j v m q)
  ]

  pub lookup-remove :
      (k j : K) (m : List (K × V)) → lookup j (remove k m) ≡ (if k == j then none else lookup j m)
  lookup-remove k j m = elim (beq_cases k j) [
    | inl (b, q) ↦ rw b (subst (λ x. lookup x (remove k m) ≡ none) q (lookup-remove_self k m))
    | inr (b, q) ↦ rw b (lookup-remove_ne k j m q)
  ]

  pub insert-All {ι} :
      (P : K × V → Type ι) (k : K) (v : V) (m : List (K × V))
      → P (k, v)
      → All P m
      → All P (insert k v m)
  unfolding insert
  insert-All P k v [] p a = (p, tt)
  insert-All P k v ((j, w) ∷ m) p a = elim (Bool-cases (j == k)) [
    | inl b ↦ rw b (p, a.1)
    | inr b ↦ rw b (a.0, insert-All P k v m p a.1)
  ]
