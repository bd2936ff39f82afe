-- ===== src/Core/Attribution/Refusal.antt =====
-- settle_ctx.rs: a lifecycle operation is refused only while a body of its Fiber still runs.
use cordis_rs.Base.{
  ℕ, ◌+◌, ◌<◌, ◌≡◌, ◌⊎◌, refl, ap, subst, ◌∙◌, arith, inl, inr, Bool, true, false, List, [], ◌∷◌,
  nat_eq, Bool-cases, and-eq-true,
}
use cordis_rs.Core.Attribution.{
  Frame, SettleCtx, Guard, nested, scoped, attributed, Task, Attributions, Operation, is_doomed,
  put, set, enter, own, attribute, capture, pop_nested, end_scope, leave, Action, brackets,
  runs_task, transfers, leaves, fresh_frame, act, run, idle,
}
use cordis_rs.Core.Attribution.Frames.{
  InScopes, IsOpen, enter-scopes, enter-guards, own-scopes, capture-scopes, pop_nested-scopes,
  end_scope-scopes, doomed-frame,
}

-- Every frame is an earlier one, and one whose flag is set belongs to a body that is open.
record Sound (w : Attributions) : Type 0 where
  fresh : (t : ℕ) (f : Frame) → InScopes f (w.tasks t).scopes → f.flag < w.next
  live :
      (t : ℕ) (f : Frame)
      → InScopes f (w.tasks t).scopes
      → w.active f.flag ≡ true
      → (u : ℕ) × IsOpen f (w.tasks u).guards

same : (a b : ℕ) → nat_eq a b ≡ true → a ≡ b
same a b h = ground arith

itself : (a : ℕ) → nat_eq a a ≡ true
itself a = ground arith

at_target :
    (t : ℕ) (task : Task) (w : Attributions) (f : Frame)
    → IsOpen f task.guards
    → (u : ℕ) × IsOpen f (put t task w u).guards
at_target t task w f h = (t, rw (itself t) h)

at_some :
    (t : ℕ) (task : Task) (w : Attributions) (f : Frame)
    → (IsOpen f (w.tasks t).guards → IsOpen f task.guards)
    → (u : ℕ) × IsOpen f (w.tasks u).guards
    → (u : ℕ) × IsOpen f (put t task w u).guards
at_some t task w f k (u, h) = elim (Bool-cases (nat_eq u t)) [
  | inl b ↦ at_target t task w f (k (subst (λ v. IsOpen f (w.tasks v).guards) (same u t b) h))
  | inr b ↦ (u, rw (b) h)
]

-- The change of one task keeps what holds, when it keeps the bodies of the frames whose flags stay
-- set, and its frames are old ones or those of its open bodies.
put-Sound :
    (t : ℕ) (task : Task) (active : ℕ → Bool) (next : ℕ) (w : Attributions)
    → Sound w
    → ((f : Frame)
        → f.flag < w.next
        → active f.flag ≡ true
        → (w.active f.flag ≡ true) × (IsOpen f (w.tasks t).guards → IsOpen f task.guards))
    → ((f : Frame)
        → InScopes f task.scopes
        → ((f.flag < next) × IsOpen f task.guards) ⊎ ((u : ℕ) × InScopes f (w.tasks u).scopes))
    → ((n : ℕ) → n < w.next → n < next)
    → Sound (record { active = active; next = next; tasks = put t task w })
put-Sound t task active next w s kept origin grows = record {
  fresh = λ u f h. elim (Bool-cases (nat_eq u t)) [
    | inl b ↦ from_fresh f (origin f (rw (b) at h))
    | inr b ↦ grows f.flag (s.fresh u f (rw (b) at h))
  ];
  live = λ u f h a. elim (Bool-cases (nat_eq u t)) [
    | inl b ↦ from_live f a (origin f (rw (b) at h))
    | inr b ↦ old f a u (rw (b) at h)
  ];
}
  where
    from_fresh :
        (f : Frame)
        → ((f.flag < next) × IsOpen f task.guards) ⊎ ((u : ℕ) × InScopes f (w.tasks u).scopes)
        → f.flag < next
    from_fresh f (inl (l, o)) = l
    from_fresh f (inr (u, h)) = grows f.flag (s.fresh u f h)

    old :
        (f : Frame)
        → active f.flag ≡ true
        → (u : ℕ) → InScopes f (w.tasks u).scopes
        → (v : ℕ) × IsOpen f (put t task w v).guards
    old f a u h = let (b, k) = kept f (s.fresh u f h) a in at_some t task w f k (s.live u f h b)

    from_live :
        (f : Frame)
        → active f.flag ≡ true
        → ((f.flag < next) × IsOpen f task.guards) ⊎ ((u : ℕ) × InScopes f (w.tasks u).scopes)
        → (v : ℕ) × IsOpen f (put t task w v).guards
    from_live f a (inl (l, o)) = at_target t task w f o
    from_live f a (inr (u, h)) = old f a u h

next_grows : (n k : ℕ) → k < n → k < n + 1
next_grows n k h = omega (arith, h)

-- A fresh flag is set for nobody's old frame.
set_fresh :
    (active : ℕ → Bool) (flag n : ℕ) → flag < n → set n true active flag ≡ true → active flag ≡ true
set_fresh active flag n l h = ground (arith, l, h)

begin-Sound :
    (t : ℕ) (frame : Frame) (task : Task) (w : Attributions)
    → frame.flag ≡ w.next
    → Sound w
    → ((f : Frame) → InScopes f task.scopes → (f ≡ frame) ⊎ InScopes f (w.tasks t).scopes)
    → ((f : Frame) → (f ≡ frame) ⊎ IsOpen f (w.tasks t).guards → IsOpen f task.guards)
    → Sound (record { active = set w.next true w.active; next = w.next + 1; tasks = put t task w })
begin-Sound t frame task w e s scopes guards =
    put-Sound t task (set w.next true w.active) (w.next + 1) w s
      (λ f l a. (set_fresh w.active f.flag w.next l a, λ o. guards f (inr o)))
      (λ f h. origin f (scopes f h)) (λ k l. next_grows w.next k l)
  where
    below : (a n : ℕ) → a ≡ n → a < n + 1
    below a n h = omega (arith, h)

    origin :
        (f : Frame)
        → (f ≡ frame) ⊎ InScopes f (w.tasks t).scopes
        → ((f.flag < w.next + 1) × IsOpen f task.guards) ⊎ ((u : ℕ) × InScopes f (w.tasks u).scopes)
    origin f (inl q) = inl (below f.flag w.next (ap (λ x. x.flag) q ∙ e), guards f (inl q))
    origin f (inr h) = inr (t, h)

unset : (flag : ℕ) (active : ℕ → Bool) → set flag false active flag ≡ true → ⊥
unset flag active a = ground (arith, a)

-- The end of a body that has a frame.
end-Sound :
    (t : ℕ) (frame : Frame) (guards : List Guard) (scopes : List SettleCtx) (w : Attributions)
    → ((f : Frame) → IsOpen f (w.tasks t).guards → (f ≡ frame) ⊎ IsOpen f guards)
    → ((f : Frame) → InScopes f scopes → InScopes f (w.tasks t).scopes)
    → Sound w
    → Sound (record w {
      active = set frame.flag false w.active;
      tasks = put t (record { scopes = scopes; guards = guards }) w;
    })
end-Sound t frame guards scopes w opens inner s =
    put-Sound t (record { scopes = scopes; guards = guards }) (set frame.flag false w.active) w.next
      w s (λ f l a. (still f a, λ o. other f a (opens f o))) (λ f h. inr (t, inner f h)) (λ k l. l)
  where
    still : (f : Frame) → set frame.flag false w.active f.flag ≡ true → w.active f.flag ≡ true
    still f a = ground (arith, a)

    other :
        (f : Frame)
        → set frame.flag false w.active f.flag ≡ true
        → (f ≡ frame) ⊎ IsOpen f guards
        → IsOpen f guards
    other f a (inr o) = o
    other f a (inl q) =
        absurd
          (unset frame.flag w.active (subst (λ x. set frame.flag false w.active x.flag ≡ true) q a))

transfer-Sound :
    (t : ℕ) (task : Task) (w : Attributions)
    → Sound w
    → ((f : Frame) → IsOpen f (w.tasks t).guards → IsOpen f task.guards)
    → ((f : Frame) → InScopes f task.scopes → (u : ℕ) × InScopes f (w.tasks u).scopes)
    → Sound (record w { tasks = put t task w })
transfer-Sound t task w s opens scopes =
    put-Sound t task w.active w.next w s (λ f l a. (a, opens f)) (λ f h. inr (scopes f h))
      (λ k l. l)

leave-Sound :
    (t : ℕ) (guards : List Guard) (w : Attributions)
    → (w.tasks t).guards ≡ guards
    → Sound w
    → Sound (leave t guards w)
leave-Sound t [] w e s = s
leave-Sound t (nested frame ∷ guards) w e s =
    end-Sound t frame guards (pop_nested (w.tasks t).scopes) w (λ f o. subst (IsOpen f) e o)
      (λ f h. pop_nested-scopes f (w.tasks t).scopes h) s
leave-Sound t (scoped frame ∷ guards) w e s =
    end-Sound t frame guards (end_scope (w.tasks t).scopes) w (λ f o. subst (IsOpen f) e o)
      (λ f h. end_scope-scopes f (w.tasks t).scopes h) s
leave-Sound t (attributed ∷ guards) w e s =
    transfer-Sound t (record { scopes = end_scope (w.tasks t).scopes; guards = guards }) w s
      (λ f o. subst (IsOpen f) e o) (λ f h. (t, end_scope-scopes f (w.tasks t).scopes h))

act-Sound : (action : Action) (w : Attributions) → Sound w → Sound (act action w)
unfolding act
act-Sound (brackets t fiber) w s =
    begin-Sound t (fresh_frame fiber w) (enter (fresh_frame fiber w) (w.tasks t)) w refl s
      (λ f h. enter-scopes (fresh_frame fiber w) (w.tasks t).scopes (w.tasks t).guards f h)
      (λ f h. enter-guards (fresh_frame fiber w) (w.tasks t).scopes (w.tasks t).guards f h)
act-Sound (runs_task t fiber) w s =
    begin-Sound t (fresh_frame fiber w) (own (fresh_frame fiber w) (w.tasks t)) w refl s
      (λ f h. own-scopes (fresh_frame fiber w) (w.tasks t).scopes (w.tasks t).guards f h) (λ f h. h)
act-Sound (transfers u t) w s =
    transfer-Sound t (attribute (capture (w.tasks u)) (w.tasks t)) w s (λ f o. o) (λ f h. from f h)
  where
    from :
        (f : Frame)
        → InScopes f (attribute (capture (w.tasks u)) (w.tasks t)).scopes
        → (v : ℕ) × InScopes f (w.tasks v).scopes
    from f (inl h) = (u, capture-scopes (w.tasks u).scopes (w.tasks u).guards f h)
    from f (inr h) = (t, h)
act-Sound (leaves t) w s = leave-Sound t (w.tasks t).guards w refl s

run-Sound : (actions : List Action) (w : Attributions) → Sound w → Sound (run actions w)
unfolding run
run-Sound [] w s = s
run-Sound (action ∷ actions) w s = run-Sound actions (act action w) (act-Sound action w s)

idle-Sound : Sound idle
unfolding idle
idle-Sound = record { fresh = λ t f h. absurd h; live = λ t f h a. absurd h }

-- Whatever bodies begin, end and hand their attribution to other tasks: an operation on a Fiber is
-- refused to a task only while a body of that Fiber is open in some task. A snapshot that outlives
-- the body refuses nothing.
pub run-refusal :
    (actions : List Action) (t fiber : ℕ) (draining : Bool) (operation : Operation)
    → is_doomed (run actions idle) t fiber draining operation ≡ true
    → (u : ℕ) × (f : Frame) × IsOpen f ((run actions idle).tasks u).guards × (f.fiber ≡ fiber)
unfolding is_doomed
run-refusal actions t fiber draining operation h =
    let w = run actions idle in
    let (f, i, a) = doomed-frame w.active fiber draining operation (w.tasks t).scopes h in
    let (set, this) = and-eq-true _ _ a in
    let (u, o) = (run-Sound actions idle idle-Sound).live t f i set in
    (u, f, o, same f.fiber fiber this)
