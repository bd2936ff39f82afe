-- ===== src/Core/Effects/Obligations/Once.antt =====
-- effect.rs: each obligation of a generation is run once, released once, or still owned.
use cordis_rs.Base.{
  ℕ, suc, ◌+◌, ◌≤◌, ◌<◌, ◌^◌, ◌≡◌, sym, ap, subst, ◌∙◌, ◌++◌, arith, inl, inr, true, false, ◌&&◌,
  some, List, [], ◌∷◌, map, length, lookup, remove, nat_eq, leb, ℕ_eq, if◌then◌else◌, Bool-cases,
  Option-cases, All, ◌==◌,
}
use cordis_rs.Core.Gated.{Liveness, DisposableList, push, remove_token, tokens}
use cordis_rs.Core.Gated.Journal.{IsJournal, push-sn, push-commits, push_gated-cases}
use cordis_rs.Core.Effects.Obligations.{
  Generation, Action, registers, disarms, disposes, drains, next, new_generation, register_cleanup,
  claimed, log_run, log_release, disarm_effect, dispose_effect, drain_next, act, run,
}

-- How often a token stands in a list.
abbrev pub count : ℕ → List ℕ → ℕ
count k [] = 0
count k (x ∷ xs) = (if nat_eq k x then 1 else 0) + count k xs

-- Whether a token was ever issued.
abbrev pub issued : ℕ → ℕ → ℕ
issued k sn = if leb 1 k && leb k sn then 1 else 0

count-append : (k : ℕ) (xs ys : List ℕ) → count k (xs ++ ys) ≡ count k xs + count k ys
count-append k [] ys = omega arith
count-append k (x ∷ xs) ys =
    ap (λ n. (if nat_eq k x then 1 else 0) + n) (count-append k xs ys) ∙ assoc _ _ _
  where
    assoc : (a b c : ℕ) → a + (b + c) ≡ (a + b) + c
    assoc a b c = omega arith

one_owner : (c l o i : ℕ) → 1 ≤ c → i ≤ 1 → c + (l + o) ≡ i → 0 + ((1 + l) + o) ≡ i
one_owner c l o i h b e = omega (arith, h, b, e)

unmoved : (c l o i : ℕ) → c + (l + o) ≡ i → c + ((0 + l) + o) ≡ i
unmoved c l o i e = omega (arith, e)

issued-bound : (k sn : ℕ) → issued k sn ≤ 1
issued-bound k sn = ground arith

same_token : (k token : ℕ) → nat_eq k token ≡ true → token ≡ k
same_token k token h = ground arith

swapped : (a b c i : ℕ) → a + (b + c) ≡ i → a + (c + b) ≡ i
swapped a b c i h = omega (arith, h)

next_issued :
    (k sn c r : ℕ)
    → c + r ≡ issued k sn
    → c + (if nat_eq k (sn + 1) then 1 else 0) + r ≡ issued k (sn + 1)
next_issued k sn c r h = ground (arith, h)

module _ {Cleanup : Type 0} where
  abbrev keys : List (ℕ × Cleanup) → List ℕ
  keys entries = map (λ e. e.0) entries

  count-remove :
      (k token : ℕ) (entries : List (ℕ × Cleanup))
      → count k (keys (remove token entries))
        ≡ (if nat_eq k token then 0 else count k (keys entries))
  unfolding remove
  count-remove k token [] = ground arith
  count-remove k token ((j, c) ∷ entries) = ground (arith, count-remove k token entries)

  count-lookup :
      (token : ℕ) (c : Cleanup) (entries : List (ℕ × Cleanup))
      → lookup token entries ≡ some c
      → 1 ≤ count token (keys entries)
  count-lookup token c [] h = absurd (ground (arith, h))
  count-lookup token c ((j, d) ∷ entries) h = ground (arith, h, count-lookup token c entries)

  remove-All :
      (P : ℕ × Cleanup → Type 0) (token : ℕ) (entries : List (ℕ × Cleanup))
      → All P entries
      → All P (remove token entries)
  unfolding remove
  remove-All P token [] a = tt
  remove-All P token ((j, c) ∷ entries) a = elim (Bool-cases (j == token)) [
    | inl b ↦ rw (b) (remove-All P token entries a.1)
    | inr b ↦ rw (b) (a.0, remove-All P token entries a.1)
  ]

  -- Every token that was issued is owned, was run or was released, exactly once, and no other is.
  pub record Accounts (g : Generation Cleanup) : Type 0 where
    pub journal : IsJournal g.journal
    pub once :
        (k : ℕ)
        → count k (tokens g.journal) + (count k g.ran + count k g.released) ≡ issued k g.journal.sn

  abbrev taken : DisposableList Cleanup → ℕ → DisposableList Cleanup
  taken journal token = record journal { entries = remove token journal.entries }

  -- A claimed token moves from the journal to a log.
  moves :
      (k token : ℕ) (c : Cleanup) (journal : DisposableList Cleanup) (log other : List ℕ)
      → lookup token journal.entries ≡ some c
      → count k (tokens journal) + (count k log + count k other) ≡ issued k journal.sn
      → count k (tokens (taken journal token)) + (count k (token ∷ log) + count k other)
        ≡ issued k journal.sn
  unfolding tokens
  moves k token c journal log other h o = elim (Bool-cases (nat_eq k token)) [
    | inl b ↦
        rw (count-remove k token journal.entries, b)
          (one_owner (count k (keys journal.entries)) (count k log) (count k other)
            (issued k journal.sn)
            (subst (λ t. 1 ≤ count t (keys journal.entries)) (same_token k token b)
              (count-lookup token c journal.entries h))
            (issued-bound k journal.sn) o)
    | inr b ↦
        rw (count-remove k token journal.entries, b)
          (unmoved (count k (keys journal.entries)) (count k log) (count k other)
            (issued k journal.sn) o)
  ]

  claim_run-Accounts :
      (token : ℕ) (g : Generation Cleanup)
      → Accounts g
      → Accounts (claimed log_run g.ran token g).1
        × ((claimed log_run g.ran token g).1.journal.sn ≤ g.journal.sn + 1)
  unfolding remove_token
  claim_run-Accounts token g h = elim (Option-cases (lookup token g.journal.entries)) [
    | inl e ↦ rw (claimed, e) (h, omega arith)
    | inr (c, e) ↦
        rw (claimed, e)
          (
            record {
              journal = remove-All (λ x. x.0 ≤ g.journal.sn) token g.journal.entries h.journal;
              once = λ k. moves k token c g.journal g.ran g.released e (h.once k);
            },
            omega arith,
          )
  ]

  claim_release-Accounts :
      (token : ℕ) (g : Generation Cleanup)
      → Accounts g
      → Accounts (claimed log_release g.released token g).1
        × ((claimed log_release g.released token g).1.journal.sn ≤ g.journal.sn + 1)
  unfolding remove_token
  claim_release-Accounts token g h = elim (Option-cases (lookup token g.journal.entries)) [
    | inl e ↦ rw (claimed, e) (h, omega arith)
    | inr (c, e) ↦
        rw (claimed, e)
          (
            record {
              journal = remove-All (λ x. x.0 ≤ g.journal.sn) token g.journal.entries h.journal;
              once = λ k.
                  swapped _ _ _ _
                    (moves k token c g.journal g.released g.ran e (swapped _ _ _ _ (h.once k)));
            },
            omega arith,
          )
  ]

  push-Accounts :
      (c : Cleanup) (g : Generation Cleanup)
      → g.journal.sn + 1 < 2 ^ 64
      → Accounts g
      → Accounts (record g { journal = (push g.journal c).1 })
        × ((push g.journal c).1.sn ≡ g.journal.sn + 1)
  push-Accounts c g b h =
      let (number, order, kept, _, _) = push-commits g.journal c h.journal b in
      let token = push-sn g.journal c ∙ number in
      (
        record {
          journal = kept;
          once = λ k.
              ap (λ t. count k t + (count k g.ran + count k g.released)) order
              ∙ ap (λ n. n + (count k g.ran + count k g.released))
                  (count-append k (tokens g.journal) ((g.journal.sn + 1) ∷ []))
              ∙ last k
              ∙ ap (issued k) (sym token);
        },
        token,
      )
    where
      last :
          (k : ℕ)
          → (count k (tokens g.journal) + count k ((g.journal.sn + 1) ∷ []))
              + (count k g.ran + count k g.released)
            ≡ issued k (g.journal.sn + 1)
      last k = ground (
        arith,
        next_issued k g.journal.sn (count k (tokens g.journal)) (count k g.ran + count k g.released)
            (h.once k),
      )

  register-Accounts :
      (gate locked : Liveness) (c : Cleanup) (g : Generation Cleanup)
      → g.journal.sn + 1 < 2 ^ 64
      → Accounts g
      → Accounts (record g { journal = (register_cleanup gate locked c g.journal).1 })
        × ((register_cleanup gate locked c g.journal).1.sn ≤ g.journal.sn + 1)
  unfolding register_cleanup
  register-Accounts gate locked c g b h =
      elim (push_gated-cases gate locked g.journal c (λ s. (true, s)) tt) [
        | inl (f, q) ↦ rw (q) (h, below g.journal.sn)
        | inr (inl (f, p, q)) ↦ absurd (never p)
        | inr (inr (f, p, q)) ↦ let (a, e) = push-Accounts c g b h in rw (q) (a, upto _ _ e)
      ]
    where
      never : true ≡ false → ⊥
      never p = cc

      below : (n : ℕ) → n ≤ n + 1
      below n = omega arith

      upto : (m n : ℕ) → m ≡ n → m ≤ n
      upto m n e = omega (arith, e)

  drain_next-Accounts :
      (worklist : List ℕ) (g : Generation Cleanup)
      → Accounts g
      → Accounts (drain_next worklist g) × ((drain_next worklist g).journal.sn ≤ g.journal.sn + 1)
  drain_next-Accounts [] g h = (h, omega arith)
  drain_next-Accounts (token ∷ worklist) g h =
      claim_run-Accounts token (record g { worklist = worklist })
        (record { journal = h.journal; once = h.once })

  act-Accounts :
      (action : Action Cleanup) (g : Generation Cleanup)
      → g.journal.sn + 1 < 2 ^ 64
      → Accounts g
      → Accounts (act action g) × ((act action g).journal.sn ≤ g.journal.sn + 1)
  unfolding act disarm_effect dispose_effect
  act-Accounts (registers gate locked c) g b h = register-Accounts gate locked c g b h
  act-Accounts (disarms false token) g b h = (h, omega arith)
  act-Accounts (disarms true token) g b h = claim_release-Accounts token g h
  act-Accounts (disposes false token) g b h = (h, omega arith)
  act-Accounts (disposes true token) g b h = claim_run-Accounts token g h
  act-Accounts drains g b h = (record { journal = h.journal; once = h.once }, omega arith)
  act-Accounts next g b h = drain_next-Accounts g.worklist g h

  run-from :
      (actions : List (Action Cleanup)) (g : Generation Cleanup)
      → g.journal.sn + length actions < 2 ^ 64
      → Accounts g
      → Accounts (run actions g)
  unfolding run
  run-from [] g b h = h
  run-from (action ∷ actions) g b h =
      let (a, l) = act-Accounts action g (first g.journal.sn (length actions) b) h in
      run-from actions (act action g)
        (rest g.journal.sn (act action g).journal.sn (length actions) b l) a
    where
      first : (n k : ℕ) → n + suc k < 2 ^ 64 → n + 1 < 2 ^ 64
      first n k h = omega (arith, h)

      rest : (n m k : ℕ) → n + suc k < 2 ^ 64 → m ≤ n + 1 → m + k < 2 ^ 64
      rest n m k h l = omega (arith, h, l)

  -- However fewer than 2^64 registrations, manual disposals and disarms and the claims of drains
  -- interleave in a generation: each obligation that was registered was run once, was released once
  -- without a run, or is still owned by the generation, and never two of these.
  pub run-Accounts :
      (actions : List (Action Cleanup))
      → length actions < 2 ^ 64
      → Accounts (run actions new_generation)
  unfolding tokens
  run-Accounts actions b =
      run-from actions new_generation (start (length actions) b)
        (record { journal = tt; once = λ k. ground arith })
    where
      start : (k : ℕ) → k < 2 ^ 64 → 0 + k < 2 ^ 64
      start k h = omega (arith, h)
