-- ===== src/Core/Deadlines/Order.antt =====
-- deadline.rs: the order of the armed deadlines, and what a round of the worker fires.
use cordis_rs.Base.{
  ℕ, ◌<◌, ◌≡◌, ◌⊎◌, refl, ap, inl, inr, arith, Bool, true, false, not, List, [], ◌∷◌, ltb, filter,
  Bool-cases, All, All-map,
}
use cordis_rs.Core.Deadlines.{Key, key_less, key_eq, insert_key, remove_key, pop_due}

-- The earlier deadline first, and the earlier identity of two equal ones.
abbrev pub Before : Key → Key → Type 0
Before (d, i) (e, j) = (d < e) ⊎ ((d ≡ e) × (i < j))

Before-trans : (a b c : Key) → Before a b → Before b c → Before a c
Before-trans (d, i) (e, j) (f, k) h l = ground arith

key_less-Before : (a b : Key) → key_less a b ≡ true → Before a b
key_less-Before (d, i) (e, j) h = ground arith

fresh-after : (k j : Key) → key_less k j ≡ false → j.1 < k.1 → Before j k
fresh-after (d, i) (e, j) h l = ground arith

fresh-other : (k j : Key) → key_eq k j ≡ true → j.1 < k.1 → ⊥
fresh-other (d, i) (e, j) h l = ground arith

module _ {Sender : Type 0} where
  abbrev pub Sorted : List (Key × Sender) → Type 0
  Sorted [] = Unit
  Sorted (entry ∷ entries) = All (λ e. Before entry.0 e.0) entries × Sorted entries

  -- Every armed identity is an earlier one.
  abbrev pub Issued : ℕ → List (Key × Sender) → Type 0
  Issued n = All (λ e. e.0.1 < n)

  pub insert_key-All :
      (P : Key × Sender → Type 0) (k : Key) (x : Sender) (entries : List (Key × Sender))
      → P (k, x)
      → All P entries
      → All P (insert_key k x entries)
  unfolding insert_key
  insert_key-All P k x [] p a = (p, tt)
  insert_key-All P k x ((j, y) ∷ entries) p a = elim (Bool-cases (key_less k j)) [
    | inl b ↦ rw (b, insert_key) (p, (a.0, a.1))
    | inr b ↦ elim (Bool-cases (key_eq k j)) [
      | inl e ↦ rw (b, e, insert_key) (p, a.1)
      | inr e ↦ rw (b, e, insert_key) (a.0, insert_key-All P k x entries p a.1)
    ]
  ]

  pub insert_key-Sorted :
      (k : Key) (x : Sender) (entries : List (Key × Sender))
      → Issued k.1 entries
      → Sorted entries
      → Sorted (insert_key k x entries)
  unfolding insert_key
  insert_key-Sorted k x [] i s = (tt, tt)
  insert_key-Sorted k x ((j, y) ∷ entries) i s = elim (Bool-cases (key_less k j)) [
    | inl b ↦
        rw (b, insert_key)
          (
            (
              key_less-Before k j b,
              All-map (λ e. Before j e.0) (λ e. Before k e.0) entries
                  (λ e. λ h. Before-trans k j e.0 (key_less-Before k j b) h) s.0,
            ),
            s,
          )
    | inr b ↦ elim (Bool-cases (key_eq k j)) [
      | inl e ↦ absurd (fresh-other k j e i.0)
      | inr e ↦
          rw (b, e, insert_key)
            (
              insert_key-All (λ e. Before j e.0) k x entries (fresh-after k j b i.0) s.0,
              insert_key-Sorted k x entries i.1 s.1,
            )
    ]
  ]

  pub remove_key-All :
      (P : Key × Sender → Type 0) (k : Key) (entries : List (Key × Sender))
      → All P entries
      → All P (remove_key k entries)
  unfolding remove_key
  remove_key-All P k [] a = tt
  remove_key-All P k ((j, y) ∷ entries) a = elim (Bool-cases (key_eq k j)) [
    | inl b ↦ rw (b, remove_key) (remove_key-All P k entries a.1)
    | inr b ↦ rw (b, remove_key) (a.0, remove_key-All P k entries a.1)
  ]

  pub remove_key-Sorted :
      (k : Key) (entries : List (Key × Sender)) → Sorted entries → Sorted (remove_key k entries)
  unfolding remove_key
  remove_key-Sorted k [] s = tt
  remove_key-Sorted k ((j, y) ∷ entries) s = elim (Bool-cases (key_eq k j)) [
    | inl b ↦ rw (b, remove_key) (remove_key-Sorted k entries s.1)
    | inr b ↦
        rw (b, remove_key)
          (remove_key-All (λ e. Before j e.0) k entries s.0, remove_key-Sorted k entries s.1)
  ]

  abbrev pub is_due : ℕ → Key × Sender → Bool
  is_due now entry = not (ltb now entry.0.0)

  none_due :
      (now : ℕ) (k : Key) (entries : List (Key × Sender))
      → ltb now k.0 ≡ true
      → All (λ e. Before k e.0) entries
      → (filter (is_due now) entries ≡ []) × (filter (λ e. not (is_due now e)) entries ≡ entries)
  none_due now k [] h a = (refl, refl)
  none_due now k (entry ∷ entries) h a =
      let (f, g) = none_due now k entries h a.1 in
      let late = later now k entry.0 h a.0 in rw (late) (f, ap (◌∷◌ entry) g)
    where
      later : (now : ℕ) (k e : Key) → ltb now k.0 ≡ true → Before k e → ltb now e.0 ≡ true
      later now (d, i) (e, j) h b = ground arith

  -- Of a sorted map, the loop pops exactly the due entries, in their order.
  pub pop_due-filter :
      (now : ℕ) (entries : List (Key × Sender))
      → Sorted entries
      → pop_due now entries
        ≡ (filter (is_due now) entries, filter (λ e. not (is_due now e)) entries)
  unfolding pop_due
  pop_due-filter now [] s = refl
  pop_due-filter now ((k, x) ∷ entries) s = elim (Bool-cases (ltb now k.0)) [
    | inl b ↦ let (f, g) = none_due now k entries b s.0 in rw (b, pop_due, f, g) refl
    | inr b ↦ rw (b, pop_due, pop_due-filter now entries s.1) refl
  ]
