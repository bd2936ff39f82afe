-- ===== src/Core/Attribution/Frames.antt =====
-- settle_ctx.rs: the frames that the scopes of a task hold, before and after each step.
use mathlib.Core.Option
use cordis_rs.Base.{
  ℕ, ◌≡◌, ◌⊎◌, refl, sym, ap, inl, inr, Bool, true, ◌&&◌, Option, none, some, List, [], ◌∷◌, any,
  Bool-cases, and-eq-true,
}
use cordis_rs.Core.Attribution.{
  Frame, SettleCtx, Guard, nested, scoped, attributed, Operation, is_active_for,
  run_task_wait_is_doomed, owns, doomed_in, enter, own, capture, pop_last, pop_nested, end_scope,
}

abbrev pub In : Frame → List Frame → Type 0
In f [] = ⊥
In f (x ∷ xs) = (f ≡ x) ⊎ In f xs

abbrev pub InCtx : Frame → SettleCtx → Type 0
InCtx f ctx = In f ctx.settling ⊎ (ctx.run_owner ≡ some f)

abbrev pub InScopes : Frame → List SettleCtx → Type 0
InScopes f [] = ⊥
InScopes f (ctx ∷ scopes) = InCtx f ctx ⊎ InScopes f scopes

-- A body of a frame is still open.
abbrev pub IsOpen : Frame → List Guard → Type 0
IsOpen f [] = ⊥
IsOpen f (nested x ∷ guards) = (f ≡ x) ⊎ IsOpen f guards
IsOpen f (scoped x ∷ guards) = (f ≡ x) ⊎ IsOpen f guards
IsOpen f (attributed ∷ guards) = IsOpen f guards

pub enter-scopes :
    (frame : Frame) (scopes : List SettleCtx) (guards : List Guard) (f : Frame)
    → InScopes f (enter frame (record { scopes = scopes; guards = guards })).scopes
    → (f ≡ frame) ⊎ InScopes f scopes
enter-scopes frame [] guards f (inl (inl (inl e))) = inl e
enter-scopes frame [] guards f (inl (inl (inr h))) = absurd h
enter-scopes frame [] guards f (inl (inr e)) = absurd (cc)
enter-scopes frame [] guards f (inr h) = absurd h
enter-scopes frame (ctx ∷ scopes) guards f (inl (inl (inl e))) = inl e
enter-scopes frame (ctx ∷ scopes) guards f (inl (inl (inr h))) = inr (inl (inl h))
enter-scopes frame (ctx ∷ scopes) guards f (inl (inr e)) = inr (inl (inr e))
enter-scopes frame (ctx ∷ scopes) guards f (inr h) = inr (inr h)

pub enter-guards :
    (frame : Frame) (scopes : List SettleCtx) (guards : List Guard) (f : Frame)
    → (f ≡ frame) ⊎ IsOpen f guards
    → IsOpen f (enter frame (record { scopes = scopes; guards = guards })).guards
enter-guards frame [] guards f h = h
enter-guards frame (ctx ∷ scopes) guards f h = h

pub own-scopes :
    (frame : Frame) (scopes : List SettleCtx) (guards : List Guard) (f : Frame)
    → InScopes f (own frame (record { scopes = scopes; guards = guards })).scopes
    → (f ≡ frame) ⊎ InScopes f scopes
own-scopes frame scopes guards f (inl (inl h)) = absurd h
own-scopes frame scopes guards f (inl (inr e)) = inl (sym (some_inj frame f e))
  where
    some_inj : (a b : Frame) → some a ≡ some b → a ≡ b
    some_inj a b h = ap (λ o. Option.get_or o a) h
own-scopes frame scopes guards f (inr h) = inr h

pub capture-scopes :
    (scopes : List SettleCtx) (guards : List Guard) (f : Frame)
    → InCtx f (capture (record { scopes = scopes; guards = guards }))
    → InScopes f scopes
capture-scopes [] guards f (inl h) = absurd h
capture-scopes [] guards f (inr e) = absurd (cc)
capture-scopes (ctx ∷ scopes) guards f h = inl h

pub pop_last-In : (f : Frame) (frames : List Frame) → In f (pop_last frames) → In f frames
pop_last-In f [] h = h
pop_last-In f (x ∷ frames) h = inr h

pub pop_nested-scopes :
    (f : Frame) (scopes : List SettleCtx) → InScopes f (pop_nested scopes) → InScopes f scopes
pop_nested-scopes f [] h = h
pop_nested-scopes f (ctx ∷ scopes) (inl (inl h)) = inl (inl (pop_last-In f ctx.settling h))
pop_nested-scopes f (ctx ∷ scopes) (inl (inr e)) = inl (inr e)
pop_nested-scopes f (ctx ∷ scopes) (inr h) = inr h

pub end_scope-scopes :
    (f : Frame) (scopes : List SettleCtx) → InScopes f (end_scope scopes) → InScopes f scopes
end_scope-scopes f [] h = h
end_scope-scopes f (ctx ∷ scopes) h = inr h

pub any-In :
    (active : ℕ → Bool) (fiber : ℕ) (frames : List Frame)
    → any (is_active_for active fiber) frames ≡ true
    → (f : Frame) × In f frames × (is_active_for active fiber f ≡ true)
any-In active fiber [] h = absurd (cc)
any-In active fiber (x ∷ frames) h = elim (Bool-cases (is_active_for active fiber x)) [
  | inl b ↦ (x, inl refl, b)
  | inr b ↦ let (f, i, a) = any-In active fiber frames (rw (b) at h) in (f, inr i, a)
]

pub doomed-frame :
    (active : ℕ → Bool) (fiber : ℕ) (draining : Bool) (operation : Operation)
    (scopes : List SettleCtx)
    → doomed_in active fiber draining operation scopes ≡ true
    → (f : Frame) × InScopes f scopes × (is_active_for active fiber f ≡ true)
doomed-frame active fiber draining operation [] h = absurd (cc)
doomed-frame active fiber draining operation (ctx ∷ scopes) h =
    elim (Bool-cases (any (is_active_for active fiber) ctx.settling)) [
      | inl b ↦ let (f, i, a) = any-In active fiber ctx.settling b in (f, inl (inl i), a)
      | inr b ↦ owner ctx.run_owner refl (rw (b) at h)
    ]
  where
    owner :
        (o : Option Frame)
        → ctx.run_owner ≡ o
        → (owns active fiber o && run_task_wait_is_doomed draining operation) ≡ true
        → (f : Frame) × InScopes f (ctx ∷ scopes) × (is_active_for active fiber f ≡ true)
    owner none e k = absurd (cc)
    owner (some f) e k = (f, inl (inr e), (and-eq-true _ _ k).0)
