-- ===== src/Core/Effects/Obligations.antt =====
-- effect.rs, the cleanup obligations of one generation between their registrations, the manual
-- `disarm` and `dispose` of their handles, and the drain of the generation, which claims its
-- worklist one obligation at a time while the others go on.
pub mod Once
use mathlib.Core.List.{map-append}
use cordis_rs.Base.{
  ℕ, zero, suc, ◌+◌, ◌≤◌, ◌<◌, ◌^◌, ◌≡◌, ◌≢◌, refl, sym, ap, subst, ◌∙◌, ◌++◌, arith, inl, inr,
  Bool, true, false, not, ◌&&◌, Option, none, some, List, [], ◌∷◌, reverse, map, length, lookup,
  remove, nat_eq, leb, ℕ_eq, if◌then◌else◌, Bool-cases, Option-cases, All, ◌==◌, Result, ok, err,
}
use cordis_rs.Core.Gated.{
  Liveness, DisposableList, GatedPublishError, new_journal, push, push_gated, remove_token, tokens,
}
use cordis_rs.Core.Gated.Journal.{IsJournal, push-commits, push_gated-cases}

-- The journal, the worklist of a drain, and the tokens of the obligations that were run and of those
-- that were released without a run.
pub record Generation (Cleanup : Type 0) : Type 0 where
  pub journal : DisposableList Cleanup
  pub worklist : List ℕ
  pub ran : List ℕ
  pub released : List ℕ

pub data Action (Cleanup : Type 0) : Type 0 where
  registers : (gate locked : Liveness) → Cleanup → Action Cleanup
  disarms disposes : (owner_lives : Bool) → (token : ℕ) → Action Cleanup
  drains next : Action Cleanup

module _ {Cleanup : Type 0} where
  abbrev pub new_generation : Generation Cleanup
  new_generation = record { journal = new_journal; worklist = []; ran = []; released = [] }

  -- `register_cleanup`, which publishes nothing but its obligation
  pub register_cleanup :
      Liveness
      → Liveness
      → Cleanup
      → DisposableList Cleanup
      → Result ℕ GatedPublishError × DisposableList Cleanup × Unit {0}
  register_cleanup gate locked cleanup journal =
      push_gated gate locked journal cleanup (λ s. (true, s)) tt

  -- A claim of an obligation, and where it goes.
  abbrev pub claimed :
      (List ℕ → Generation Cleanup → Generation Cleanup)
      → List ℕ
      → ℕ
      → Generation Cleanup
      → Bool × Generation Cleanup
  claimed log done token g =
      let (cleanup, journal) = remove_token g.journal token in
      elim cleanup [
        | none ↦ (false, g)
        | some c ↦ (true, log (token ∷ done) (record g { journal = journal }))
      ]

  abbrev pub log_run : List ℕ → Generation Cleanup → Generation Cleanup
  log_run tokens g = record g { ran = tokens }

  abbrev pub log_release : List ℕ → Generation Cleanup → Generation Cleanup
  log_release tokens g = record g { released = tokens }

  -- `EffectRegistration::disarm`
  pub disarm_effect : Bool → ℕ → Generation Cleanup → Bool × Generation Cleanup
  disarm_effect false token g = (false, g)
  disarm_effect true token g = claimed log_release g.released token g

  -- `EffectRegistration::dispose`, up to the run of the cleanup that it claimed
  pub dispose_effect : Bool → ℕ → Generation Cleanup → Bool × Generation Cleanup
  dispose_effect false token g = (false, g)
  dispose_effect true token g = claimed log_run g.ran token g

  -- The drain's next claim.
  abbrev pub drain_next : List ℕ → Generation Cleanup → Generation Cleanup
  drain_next [] g = g
  drain_next (token ∷ worklist) g =
      (claimed log_run g.ran token (record g { worklist = worklist })).1

  pub act : Action Cleanup → Generation Cleanup → Generation Cleanup
  unfolding register_cleanup disarm_effect dispose_effect
  act (registers gate locked cleanup) g = record g {
    journal = (register_cleanup gate locked cleanup g.journal).1;
  }
  act (disarms owner_lives token) g = (disarm_effect owner_lives token g).1
  act (disposes owner_lives token) g = (dispose_effect owner_lives token g).1
  act drains g = record g { worklist = reverse (tokens g.journal) }
  act next g = drain_next g.worklist g

  pub run : List (Action Cleanup) → Generation Cleanup → Generation Cleanup
  unfolding act
  run [] g = g
  run (action ∷ actions) g = run actions (act action g)
