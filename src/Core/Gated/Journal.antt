-- ===== src/Core/Gated/Journal.antt =====
-- effect.rs, `DisposableList`: obligations stand in commit order, and each is claimed at most once.
use cordis_rs.Base.{
  beq_refl, beq_of_ne, some, lookup, ℕ, ◌+◌, ◌%◌, ◌^◌, ◌≤◌, ◌<◌, ◌≡◌, refl, Bool, true, false, none,
  List, [], ◌∷◌, ◌++◌, arith, ℕ_eq, lookup-remove_self, map-append, All, All-append, All-map,
  Bool-cases, ◌⊎◌, inl, inr, ◌&&◌, ok, err,
}
use cordis_rs.Core.Gated.{
  DisposableList, insert_sorted, push, remove_token, tokens, Liveness, can_register, push_gated,
  inactive_context, publish_refused,
}

module _ {Cleanup : Type 0} where
  -- No token is above the counter.
  abbrev pub IsJournal : DisposableList Cleanup → Type 0
  IsJournal journal = All (λ e. e.0 ≤ journal.sn) journal.entries

  insert_sorted-last :
      (k : ℕ) (v : Cleanup) (entries : List (ℕ × Cleanup))
      → All (λ e. e.0 < k) entries
      → insert_sorted k v entries ≡ entries ++ ((k, v) ∷ [])
  insert_sorted-last k v [] a = refl
  insert_sorted-last k v ((j, c) ∷ entries) a =
      ground (arith, insert_sorted-last k v entries a.1, a.0)

  lookup-last :
      (k : ℕ) (v : Cleanup) (entries : List (ℕ × Cleanup))
      → All (λ e. e.0 < k) entries
      → lookup k (entries ++ ((k, v) ∷ [])) ≡ some v
  lookup-last k v [] a = rw (beq_refl k) refl
  lookup-last k v ((j, c) ∷ entries) a =
      rw (beq_of_ne j k (λ e. omega (arith, e, a.0))) (lookup-last k v entries a.1)

  pub push-sn :
      (journal : DisposableList Cleanup) (cleanup : Cleanup)
      → (push journal cleanup).1.sn ≡ (push journal cleanup).0
  unfolding push
  push-sn journal cleanup = refl

  -- While the counter is below its last value, a push gives a new token, puts its obligation behind
  -- all the others and keeps every token within the counter; a claim of the token then takes the
  -- obligation once, and a second claim gets nothing.
  pub push-commits :
      (journal : DisposableList Cleanup) (cleanup : Cleanup)
      → IsJournal journal
      → journal.sn + 1 < 2 ^ 64
      → ((push journal cleanup).0 ≡ journal.sn + 1)
        × (tokens (push journal cleanup).1 ≡ tokens journal ++ ((journal.sn + 1) ∷ []))
        × IsJournal (push journal cleanup).1
        × ((remove_token (push journal cleanup).1 (journal.sn + 1)).0 ≡ some cleanup)
        × ((remove_token
              (remove_token (push journal cleanup).1 (journal.sn + 1)).1
              (journal.sn + 1)).0
            ≡ none)
  unfolding push tokens remove_token
  push-commits journal cleanup v h =
      let sn : (journal.sn + 1) % 2 ^ 64 ≡ journal.sn + 1 = omega (arith, h) in
      let below : All (λ e. e.0 < journal.sn + 1) journal.entries =
        All-map (λ e. e.0 ≤ journal.sn) (λ e. e.0 < journal.sn + 1) journal.entries
          (λ e l. omega (arith, l)) v in
      let last = insert_sorted-last (journal.sn + 1) cleanup journal.entries below in
      rw (sn, last)
        (
          refl,
          map-append (λ e. e.0) journal.entries ((journal.sn + 1, cleanup) ∷ []),
          All-append (λ e. e.0 ≤ journal.sn + 1) journal.entries ((journal.sn + 1, cleanup) ∷ [])
              (All-map (λ e. e.0 ≤ journal.sn) (λ e. e.0 ≤ journal.sn + 1) journal.entries
                (λ e l. omega (arith, l)) v)
              (omega arith, tt),
          lookup-last (journal.sn + 1) cleanup journal.entries below,
          lookup-remove_self (journal.sn + 1) (journal.entries ++ ((journal.sn + 1, cleanup) ∷ [])),
        )

-- The three ends of a gated push.
pub push_gated-cases :
    {Cleanup Store : Type 0} (gate locked : Liveness) (journal : DisposableList Cleanup)
    (cleanup : Cleanup) (publish : Store → Bool × Store) (store : Store)
    → (((can_register gate && can_register locked) ≡ false)
        × (push_gated gate locked journal cleanup publish store
            ≡ (err inactive_context, journal, store)))
      ⊎ ((((can_register gate && can_register locked) ≡ true)
            × ((publish store).0 ≡ false)
            × (push_gated gate locked journal cleanup publish store
                ≡ (err publish_refused, journal, (publish store).1)))
          ⊎ (((can_register gate && can_register locked) ≡ true)
              × ((publish store).0 ≡ true)
              × (push_gated gate locked journal cleanup publish store
                  ≡ (ok (push journal cleanup).0, (push journal cleanup).1, (publish store).1))))
unfolding push_gated
push_gated-cases gate locked journal cleanup publish store = elim (Bool-cases (can_register gate)) [
  | inr b ↦ inl (rw b refl, rw (b, push_gated) refl)
  | inl b ↦ elim (Bool-cases (can_register locked)) [
    | inr c ↦ inl (rw (b, c) refl, rw (b, push_gated, c) refl)
    | inl c ↦ elim (Bool-cases (publish store).0) [
      | inr p ↦ inr (inl (rw (b, c) refl, p, rw (b, push_gated, c, p) refl))
      | inl p ↦ inr (inr (rw (b, c) refl, p, rw (b, push_gated, c, p) refl))
    ]
  ]
]
