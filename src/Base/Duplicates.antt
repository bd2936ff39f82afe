-- ===== src/Base/Duplicates.antt =====
-- The loops that refuse a repeated name: `HashSet::insert` answers false on one seen before.
use mathlib.Core.Path.{◌≡◌, refl, subst}
use mathlib.Core.Logic.{◌↔◌, inl, inr}
use mathlib.Core.Bool.{true, false}
use mathlib.Core.Option.{Option, none, some}
use mathlib.Core.List.{List, [], ◌∷◌}
use native.Mathlib.Omega.{arith}
use cordis_rs.Base.Tests.{if◌then◌else◌, Bool-cases}
use cordis_rs.Base.Equality.{Eq, ◌==◌, beq_refl, beq_cases}
use cordis_rs.Base.Lists.{contains}

module _ {ℓ} {A : Type ℓ} ⦃e : Eq A⦄ where
  -- The loop over a `HashSet`: `insert` answers false on the first name that it has already seen.
  abbrev pub first_duplicate : List A → List A → Option A
  first_duplicate [] seen = none
  first_duplicate (s ∷ ss) seen =
      let rest = first_duplicate ss (s ∷ seen) in if contains seen s then some s else rest

  -- No name stands twice.
  abbrev pub Distinct : List A → Type 0
  Distinct [] = Unit
  Distinct (s ∷ ss) = (contains ss s ≡ false) × Distinct ss

  -- No name of `names` is among those seen, and none stands twice.
  abbrev Unseen : List A → List A → Type 0
  Unseen seen [] = Unit
  Unseen seen (s ∷ ss) = (contains seen s ≡ false) × Unseen (s ∷ seen) ss

  first_duplicate-none :
      (names seen : List A) → first_duplicate names seen ≡ none → Unseen seen names
  first_duplicate-none [] seen h = tt
  first_duplicate-none (s ∷ ss) seen h = elim (Bool-cases (contains seen s)) [
    | inl q ↦ ground arith
    | inr q ↦ (q, first_duplicate-none ss (s ∷ seen) (ground arith))
  ]

  Unseen-first_duplicate :
      (names seen : List A) → Unseen seen names → first_duplicate names seen ≡ none
  Unseen-first_duplicate [] seen h = refl
  Unseen-first_duplicate (s ∷ ss) seen h = rw (h.0) (Unseen-first_duplicate ss (s ∷ seen) h.1)

  abbrev Apart : List A → List A → Type ℓ
  Apart seen names = (s : A) → contains seen s ≡ true → contains names s ≡ false

  ne_of_contains :
      (seen : List A) (n s : A)
      → contains seen n ≡ false
      → contains seen s ≡ true
      → (n == s) ≡ false
  ne_of_contains seen n s h k = elim (beq_cases n s) [
    | inl (_, q) ↦ let h' = subst (λ x. contains seen x ≡ false) q h in ground arith
    | inr (q, _) ↦ q
  ]

  Unseen-Distinct : (names seen : List A) → Unseen seen names → Distinct names × Apart seen names
  Unseen-Distinct [] seen h = (tt, λ s k. refl)
  Unseen-Distinct (n ∷ ns) seen h =
      let (d, f) = Unseen-Distinct ns (n ∷ seen) h.1 in
      (
        (f n (ground (arith, beq_refl n)), d),
        λ s k. ground (arith, ne_of_contains seen n s h.0 k, f s),
      )

  Distinct-Unseen : (names seen : List A) → Distinct names → Apart seen names → Unseen seen names
  Distinct-Unseen [] seen d f = tt
  Distinct-Unseen (n ∷ ns) seen d f = (unseen, Distinct-Unseen ns (n ∷ seen) d.1 apart)
    where
      unseen : contains seen n ≡ false
      unseen = elim (Bool-cases (contains seen n)) [
        | inl q ↦ ground (arith, f n q, beq_refl n)
        | inr q ↦ q
      ]

      apart : Apart (n ∷ seen) ns
      apart s k = elim (beq_cases n s) [
        | inl (_, q) ↦ subst (λ x. contains ns x ≡ false) q d.0
        | inr (q, _) ↦ ground (arith, f s)
      ]

  pub first_duplicate-none_iff :
      (names : List A) → (first_duplicate names [] ≡ none) ↔ Distinct names
  first_duplicate-none_iff names = (
    λ h. (Unseen-Distinct names [] (first_duplicate-none names [] h)).0,
    λ d. Unseen-first_duplicate names [] (Distinct-Unseen names [] d (λ s k. cc)),
  )
