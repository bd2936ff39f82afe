-- ===== src/Core/Events/Blame.antt =====
-- events/dispatch.rs and update.rs: the first hook of a list that does not pass, and the failure that
-- names it.
use mathlib.Core.Option
use cordis_rs.Base.{
  ℕ, ◌≡◌, refl, ap, inl, inr, Option, none, some, List, [], ◌∷◌, ◌++◌, Option-cases,
}
use cordis_rs.Core.Events.Dispatch.{InvocationFailure, correlate}

-- A failure that says what the raw one says, and names the occurrence unless that one named another.
abbrev pub IsNamed : (failure raw : InvocationFailure) → ℕ → Type 0
IsNamed failure raw id =
    (failure.kind ≡ raw.kind)
    × (failure.diagnostic ≡ raw.diagnostic)
    × (failure.registration ≡ some (Option.get_or raw.registration id))

pub correlate-IsNamed : (raw : InvocationFailure) (id : ℕ) → IsNamed (correlate raw id) raw id
correlate-IsNamed raw id = elim (Option-cases raw.registration) [
  | inl e ↦ (refl, refl, rw (e) refl)
  | inr (other, e) ↦ (refl, refl, rw (e) refl)
]

-- A failure that names an occurrence keeps it.
pub correlate_named :
    (failure : InvocationFailure) (id other : ℕ)
    → failure.registration ≡ some other
    → correlate failure id ≡ failure
correlate_named failure id other e = rw (e) refl

module _ {Hook State : Type 0} (step : Hook → State → Option State) where
  -- The state behind hooks that all pass.
  unfoldable pub pass_all : List Hook → State → Option State
  pass_all [] s = some s
  pass_all (hook ∷ hooks) s = elim (step hook s) [ none ↦ none | some t ↦ pass_all hooks t ]

  -- The hooks before one pass, and that one fails.
  pub record Stops (Fails : Hook → List Hook → State → Type 0) (hooks : List Hook) (start : State)
      : Type 0 where
    pub before : List Hook
    pub hook : Hook
    pub after : List Hook
    pub state : State
    pub split : hooks ≡ before ++ (hook ∷ after)
    pub walked : pass_all before start ≡ some state
    pub fails : Fails hook after state

  module _ (Fails : Hook → List Hook → State → Type 0) where
    pub Stops-here :
        (hook : Hook) (hooks : List Hook) (s : State)
        → Fails hook hooks s
        → Stops Fails (hook ∷ hooks) s
    unfolding pass_all
    Stops-here hook hooks s f = record {
      before = [];
      hook = hook;
      after = hooks;
      state = s;
      split = refl;
      walked = refl;
      fails = f;
    }

    pub Stops-later :
        (hook : Hook) (hooks : List Hook) (s t : State)
        → step hook s ≡ some t
        → Stops Fails hooks t
        → Stops Fails (hook ∷ hooks) s
    unfolding pass_all
    Stops-later hook hooks s t e o = record {
      before = hook ∷ o.before;
      hook = o.hook;
      after = o.after;
      state = o.state;
      split = ap (◌∷◌ hook) o.split;
      walked = rw (e, pass_all) o.walked;
      fails = o.fails;
    }
