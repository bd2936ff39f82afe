-- ===== src/Core/Settle/Drain.antt =====
-- fiber/mod.rs, `drain_disposables`: a drain leaves no obligation behind.
use cordis_rs.Base.{
  ℕ, ◌≡◌, refl, ap, ◌∙◌, inl, inr, Bool, true, false, Option, none, some, List, [], ◌∷◌, arith,
  Option-cases, Bool-cases, ℕ_eq, ◌==◌, if◌then◌else◌, lookup, lookup-remove, contains,
  contains-append, map, reverse, reverse-cons,
}
use cordis_rs.Core.Gated.{DisposableList, tokens, remove_token}
use cordis_rs.Core.Settle.{Fiber, run_claimed, run_tokens_contained, drain_disposables}

contains-reverse : (xs : List ℕ) (x : ℕ) → contains (reverse xs) x ≡ contains xs x
contains-reverse [] x = refl
contains-reverse (y ∷ xs) x =
    ap (λ l. contains l x) (reverse-cons y xs)
    ∙ contains-append x (reverse xs) (y ∷ [])
    ∙ rw (contains-reverse xs x) (ground arith)

module _ {Cleanup : Type 0} where
  abbrev pub obligation : DisposableList Cleanup → ℕ → Option Cleanup
  obligation journal token = lookup token journal.entries

  tokens-contains :
      (entries : List (ℕ × Cleanup)) (token : ℕ) (cleanup : Cleanup)
      → lookup token entries ≡ some cleanup
      → contains (map (λ e. e.0) entries) token ≡ true
  tokens-contains [] token cleanup h = absurd (ground arith)
  tokens-contains ((k, c) ∷ entries) token cleanup h = elim (Bool-cases (k == token)) [
    | inl b ↦ ground arith
    | inr b ↦ ground (arith, tokens-contains entries token cleanup)
  ]

  remove_token-obligation :
      (journal : DisposableList Cleanup) (claimed token : ℕ)
      → obligation (remove_token journal claimed).1 token
        ≡ (if claimed == token then none else obligation journal token)
  unfolding remove_token
  remove_token-obligation journal claimed token = lookup-remove claimed token journal.entries

  module _ (runs : Cleanup → DisposableList Cleanup → DisposableList Cleanup) where
    -- A cleanup may take obligations out of the journal, and puts none in: the gate is closed.
    abbrev pub IsClosed : Type 0
    IsClosed =
        (cleanup : Cleanup) (journal : DisposableList Cleanup) (token : ℕ)
        → obligation journal token ≡ none
        → obligation (runs cleanup journal) token ≡ none

    module _ {Failure : Type 0} where
      claimed_stays :
          (claimed : Option Cleanup) (journal : DisposableList Cleanup)
          (fiber : Fiber Cleanup Failure) (token : ℕ)
          → IsClosed
          → obligation journal token ≡ none
          → obligation (run_claimed runs claimed journal fiber).journal token ≡ none
      claimed_stays none journal fiber token c h = h
      claimed_stays (some cleanup) journal fiber token c h = c cleanup journal token h

      run_tokens_contained_stays :
          (ts : List ℕ) (fiber : Fiber Cleanup Failure) (token : ℕ)
          → IsClosed
          → obligation fiber.journal token ≡ none
          → obligation (run_tokens_contained runs ts fiber).journal token ≡ none
      unfolding run_tokens_contained
      run_tokens_contained_stays [] fiber token c h = h
      run_tokens_contained_stays (t ∷ ts) fiber token c h =
          let (claimed, journal) = remove_token fiber.journal t in
          run_tokens_contained_stays ts (run_claimed runs claimed journal fiber) token c (
            claimed_stays claimed journal fiber token c
              (remove_token-obligation fiber.journal t token ∙ either (t == token)))
        where
          either : (b : Bool) → (if b then none else obligation fiber.journal token) ≡ none
          either true = refl
          either false = h

      run_tokens_contained_claims :
          (ts : List ℕ) (fiber : Fiber Cleanup Failure) (token : ℕ)
          → IsClosed
          → contains ts token ≡ true
          → obligation (run_tokens_contained runs ts fiber).journal token ≡ none
      unfolding run_tokens_contained
      run_tokens_contained_claims [] fiber token c h = absurd (ground arith)
      run_tokens_contained_claims (t ∷ ts) fiber token c h =
          let (claimed, journal) = remove_token fiber.journal t in
          elim (Bool-cases (t == token)) [
            | inl b ↦
                run_tokens_contained_stays ts (run_claimed runs claimed journal fiber) token c (
                  claimed_stays claimed journal fiber token c
                    (remove_token-obligation fiber.journal t token ∙ rw b refl))
            | inr b ↦
                run_tokens_contained_claims ts (run_claimed runs claimed journal fiber) token c
                  (ground arith)
          ]

      -- When no cleanup puts an obligation in, a drain leaves the journal without any: what is applied
      -- next begins with an empty journal.
      pub drain_disposables_empties :
          (fiber : Fiber Cleanup Failure) (token : ℕ)
          → IsClosed
          → obligation (drain_disposables runs fiber).journal token ≡ none
      unfolding drain_disposables tokens
      drain_disposables_empties fiber token c =
          elim (Option-cases (obligation fiber.journal token)) [
            | inl e ↦ run_tokens_contained_stays (reverse (tokens fiber.journal)) fiber token c e
            | inr (cleanup, e) ↦
                run_tokens_contained_claims (reverse (tokens fiber.journal)) fiber token c (
                  contains-reverse (tokens fiber.journal) token
                  ∙ tokens-contains fiber.journal.entries token cleanup e)
          ]
