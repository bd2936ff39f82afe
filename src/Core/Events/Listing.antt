-- ===== src/Core/Events/Listing.antt =====
-- store.rs, `EventHooks`: the tombstones of `order` are never seen. The listeners that `iter` gives
-- are a plain ordered list, whatever was added, removed and compacted.
use cordis_rs.Base.{
  ℕ, ◌+◌, ◌-◌, ◌<◌, ◌||◌, ◌≡◌, refl, sym, ap, ap₂, ◌∙◌, inl, inr, Bool, true, false, not, Option,
  none, some, List, [], ◌∷◌, ◌++◌, ℕ_eq, ◌==◌, beq_cases, beq_refl, beq_of_ne, arith, ltb,
  if◌then◌else◌, lookup, insert, remove, lookup-insert, lookup-insert_self, lookup-insert_ne,
  lookup-remove, lookup-remove_ne, filter, length, All, All-append, All-map, Bool-cases,
  Option-cases,
}
use mathlib.Core.Option.{some-injective, none-ne-some}
use cordis_rs.Core.Events.{
  Hook, EventHooks, listed, keep, iter, is_some, compact_if_sparse, add, remove_hook, no_hooks,
}

All-filter : (P : ℕ → Type 0) (p : ℕ → Bool) (xs : List ℕ) → All P xs → All P (filter p xs)
All-filter P p [] a = tt
All-filter P p (x ∷ xs) a = elim (Bool-cases (p x)) [
  | inl b ↦ rw b (a.0, All-filter P p xs a.1)
  | inr b ↦ rw b (All-filter P p xs a.1)
]

keep-append {ℓ} : {A : Type ℓ} (o : Option A) (xs ys : List A) → keep o (xs ++ ys) ≡ keep o xs ++ ys
keep-append none xs ys = refl
keep-append (some a) xs ys = refl

-- What a client does to the listeners of one Event name; a dispatch compacts.
pub data HookOp (Callback : Type 0) : Type 0 where
  added : Hook Callback → HookOp Callback
  removed : (id : ℕ) → HookOp Callback
  compacted : HookOp Callback

module _ {Callback : Type 0} where
  -- A registration takes the next identity.
  abbrev pub identified : ℕ → Hook Callback → Hook Callback
  identified next h = record h { id = next }

  pub apply_op : HookOp Callback → EventHooks Callback × ℕ → EventHooks Callback × ℕ
  apply_op (added h) (hooks, next) = (add hooks (identified next h), next + 1)
  apply_op (removed id) (hooks, next) = ((remove_hook hooks id).1, next)
  apply_op compacted (hooks, next) = (compact_if_sparse hooks, next)

  pub apply_ops : List (HookOp Callback) → EventHooks Callback × ℕ → EventHooks Callback × ℕ
  apply_ops [] s = s
  apply_ops (op ∷ ops) s = apply_ops ops (apply_op op s)

  -- The specification: an ordered list of the live listeners.
  abbrev pub list_op : HookOp Callback → List (Hook Callback) × ℕ → List (Hook Callback) × ℕ
  list_op (added h) (live, next) = (
    if h.options.prepend then identified next h ∷ live else live ++ (identified next h ∷ []),
    next + 1,
  )
  list_op (removed id) (live, next) = (filter (λ h. not (h.id == id)) live, next)
  list_op compacted (live, next) = (live, next)

  abbrev pub list_ops : List (HookOp Callback) → List (Hook Callback) × ℕ → List (Hook Callback) × ℕ
  list_ops [] s = s
  list_ops (op ∷ ops) s = list_ops ops (list_op op s)

  -- The order holds identities already handed out, and a listener stands under its own.
  pub record IsHooks (hooks : EventHooks Callback) (next : ℕ) : Type 0 where
    pub handed_out : All (λ id. id < next) hooks.order
    pub keyed : (id : ℕ) (h : Hook Callback) → lookup id hooks.entries ≡ some h → h.id ≡ id

  listed-append :
      (entries : List (ℕ × Hook Callback)) (xs ys : List ℕ)
      → listed entries (xs ++ ys) ≡ listed entries xs ++ listed entries ys
  listed-append entries [] ys = refl
  listed-append entries (id ∷ xs) ys =
      ap (keep (lookup id entries)) (listed-append entries xs ys)
      ∙ keep-append (lookup id entries) (listed entries xs) (listed entries ys)

  -- A listener under a new identity does not show at the identities handed out before.
  listed-insert :
      (next : ℕ) (h : Hook Callback) (entries : List (ℕ × Hook Callback)) (order : List ℕ)
      → All (λ id. id < next) order
      → listed (insert next h entries) order ≡ listed entries order
  listed-insert next h entries [] a = refl
  listed-insert next h entries (id ∷ order) a =
      ap₂ keep (lookup-insert_ne next id h entries (λ e. omega (arith, e, a.0)))
        (listed-insert next h entries order a.1)

  listed-insert_self :
      (next : ℕ) (h : Hook Callback) (entries : List (ℕ × Hook Callback))
      → listed (insert next h entries) (next ∷ []) ≡ h ∷ []
  listed-insert_self next h entries = ap (λ o. keep o []) (lookup-insert_self next h entries)

  listed-retain :
      (entries : List (ℕ × Hook Callback)) (order : List ℕ)
      → listed entries (filter (λ id. is_some (lookup id entries)) order) ≡ listed entries order
  listed-retain entries [] = refl
  listed-retain entries (id ∷ order) = elim (Option-cases (lookup id entries)) [
    | inl e ↦ rw (e, listed) (listed-retain entries order)
    | inr (h, e) ↦ rw (e, listed) (rw e (ap (◌∷◌ h) (listed-retain entries order)))
  ]

  pub iter-compact_if_sparse :
      (hooks : EventHooks Callback) → iter (compact_if_sparse hooks) ≡ iter hooks
  unfolding compact_if_sparse
  iter-compact_if_sparse hooks =
      elim (Bool-cases (
        ltb (length hooks.order - length hooks.entries) 32
        || ltb (length hooks.order - length hooks.entries) (length hooks.entries))) [
          | inl b ↦ rw b refl
          | inr b ↦ rw b (listed-retain hooks.entries hooks.order)
        ]

  compact_if_sparse-IsHooks :
      (hooks : EventHooks Callback) (next : ℕ)
      → IsHooks hooks next
      → IsHooks (compact_if_sparse hooks) next
  unfolding compact_if_sparse
  compact_if_sparse-IsHooks hooks next v =
      elim (Bool-cases (
        ltb (length hooks.order - length hooks.entries) 32
        || ltb (length hooks.order - length hooks.entries) (length hooks.entries))) [
          | inl b ↦ rw b v
          | inr b ↦ rw b (record {
            handed_out = All-filter (λ id. id < next) _ hooks.order v.handed_out;
            keyed = v.keyed;
          })
        ]

  -- A listener found under another identity than `id` has another identity.
  keep-remove :
      (id j : ℕ) (o : Option (Hook Callback)) (rest : List (Hook Callback))
      → ((h : Hook Callback) → o ≡ some h → h.id ≡ j)
      → keep (if id == j then none else o) (filter (λ h. not (h.id == id)) rest)
        ≡ filter (λ h. not (h.id == id)) (keep o rest)
  keep-remove id j none rest k = elim (Bool-cases (id == j)) [
    | inl b ↦ rw b refl
    | inr b ↦ rw b refl
  ]
  keep-remove id j (some h) rest k = elim (beq_cases id j) [
    | inl (b, e) ↦ rw (b, k h refl ∙ sym e, beq_refl id) refl
    | inr (b, e) ↦ rw (b, beq_of_ne h.id id (λ q. e (sym q ∙ k h refl))) refl
  ]

  listed-remove :
      (id : ℕ) (entries : List (ℕ × Hook Callback)) (order : List ℕ)
      → ((j : ℕ) (h : Hook Callback) → lookup j entries ≡ some h → h.id ≡ j)
      → listed (remove id entries) order ≡ filter (λ h. not (h.id == id)) (listed entries order)
  listed-remove id entries [] k = refl
  listed-remove id entries (j ∷ order) k =
      ap₂ keep (lookup-remove id j entries) (listed-remove id entries order k)
      ∙ keep-remove id j (lookup j entries) (listed entries order) (k j)

  older-listed :
      (hooks : EventHooks Callback) (next : ℕ) (h : Hook Callback)
      → IsHooks hooks next
      → listed (insert next h (compact_if_sparse hooks).entries) (compact_if_sparse hooks).order
        ≡ iter hooks
  older-listed hooks next h v =
      listed-insert next h _ _ (compact_if_sparse-IsHooks hooks next v).handed_out
      ∙ iter-compact_if_sparse hooks

  older-handed_out :
      (hooks : EventHooks Callback) (next : ℕ)
      → IsHooks hooks next
      → All (λ id. id < next + 1) (compact_if_sparse hooks).order
  older-handed_out hooks next v =
      All-map (λ id. id < next) (λ id. id < next + 1) _ (λ id l. omega (arith, l))
        (compact_if_sparse-IsHooks hooks next v).handed_out

  iter-placed :
      (prepend : Bool) (hooks : EventHooks Callback) (h : Hook Callback)
      → IsHooks hooks h.id
      → listed (insert h.id h (compact_if_sparse hooks).entries) (
          if prepend
          then h.id ∷ (compact_if_sparse hooks).order
          else (compact_if_sparse hooks).order ++ (h.id ∷ []))
        ≡ (if prepend then h ∷ iter hooks else iter hooks ++ (h ∷ []))
  iter-placed true hooks h v =
      ap₂ keep (lookup-insert_self h.id h (compact_if_sparse hooks).entries)
        (older-listed hooks h.id h v)
  iter-placed false hooks h v =
      listed-append (insert h.id h (compact_if_sparse hooks).entries)
        (compact_if_sparse hooks).order (h.id ∷ [])
      ∙ ap₂ (◌++◌) (older-listed hooks h.id h v)
          (listed-insert_self h.id h (compact_if_sparse hooks).entries)

  iter-add :
      (hooks : EventHooks Callback) (h : Hook Callback)
      → IsHooks hooks h.id
      → iter (add hooks h) ≡ (if h.options.prepend then h ∷ iter hooks else iter hooks ++ (h ∷ []))
  unfolding add
  iter-add hooks h v = iter-placed h.options.prepend hooks h v

  order-placed :
      (prepend : Bool) (hooks : EventHooks Callback) (next : ℕ)
      → IsHooks hooks next
      → All
          (λ id. id < next + 1)
          (if prepend
            then next ∷ (compact_if_sparse hooks).order
            else (compact_if_sparse hooks).order ++ (next ∷ []))
  order-placed true hooks next v = (omega arith, older-handed_out hooks next v)
  order-placed false hooks next v =
      All-append (λ id. id < next + 1) (compact_if_sparse hooks).order (next ∷ [])
        (older-handed_out hooks next v) (omega arith, tt)

  keyed-insert :
      (h : Hook Callback) (entries : List (ℕ × Hook Callback))
      → ((id : ℕ) (g : Hook Callback) → lookup id entries ≡ some g → g.id ≡ id)
      → (id : ℕ) (g : Hook Callback) → lookup id (insert h.id h entries) ≡ some g
      → g.id ≡ id
  keyed-insert h entries k id g f = elim (beq_cases h.id id) [
    | inl (b, q) ↦
        ap (λ z. z.id) (some-injective g h (sym f ∙ lookup-insert h.id id h entries ∙ rw b refl))
        ∙ q
    | inr (b, q) ↦ k id g (sym (lookup-insert_ne h.id id h entries q) ∙ f)
  ]

  add-IsHooks :
      (hooks : EventHooks Callback) (h : Hook Callback)
      → IsHooks hooks h.id
      → IsHooks (add hooks h) (h.id + 1)
  unfolding add
  add-IsHooks hooks h v = record {
    handed_out = order-placed h.options.prepend hooks h.id v;
    keyed =
        keyed-insert h (compact_if_sparse hooks).entries
          (compact_if_sparse-IsHooks hooks h.id v).keyed;
  }

  remove_hook-IsHooks :
      (hooks : EventHooks Callback) (next id : ℕ)
      → IsHooks hooks next
      → IsHooks (remove_hook hooks id).1 next
  unfolding remove_hook
  remove_hook-IsHooks hooks next id v = record {
    handed_out = v.handed_out;
    keyed = λ j g f. elim (beq_cases id j) [
      | inl (b, q) ↦ absurd (none-ne-some g (rw (lookup-remove id j hooks.entries, b) at f))
      | inr (b, q) ↦ v.keyed j g (sym (lookup-remove_ne id j hooks.entries q) ∙ f)
    ];
  }

  -- What an implementation state stands for.
  abbrev pub view : EventHooks Callback × ℕ → List (Hook Callback) × ℕ
  view s = (iter s.0, s.1)

  apply_op-IsHooks :
      (op : HookOp Callback) (hooks : EventHooks Callback) (next : ℕ)
      → IsHooks hooks next
      → IsHooks (apply_op op (hooks, next)).0 (apply_op op (hooks, next)).1
  unfolding apply_op
  apply_op-IsHooks (added h) hooks next v = add-IsHooks hooks (identified next h) v
  apply_op-IsHooks (removed id) hooks next v = remove_hook-IsHooks hooks next id v
  apply_op-IsHooks compacted hooks next v = compact_if_sparse-IsHooks hooks next v

  apply_op-list_op :
      (op : HookOp Callback) (hooks : EventHooks Callback) (next : ℕ)
      → IsHooks hooks next
      → view (apply_op op (hooks, next)) ≡ list_op op (view (hooks, next))
  unfolding apply_op remove_hook
  apply_op-list_op (added h) hooks next v =
      ap (λ l. (l, next + 1)) (iter-add hooks (identified next h) v)
  apply_op-list_op (removed id) hooks next v =
      ap (λ l. (l, next)) (listed-remove id hooks.entries hooks.order v.keyed)
  apply_op-list_op compacted hooks next v = ap (λ l. (l, next)) (iter-compact_if_sparse hooks)

  apply_ops-from :
      (ops : List (HookOp Callback)) (hooks : EventHooks Callback) (next : ℕ)
      → IsHooks hooks next
      → view (apply_ops ops (hooks, next)) ≡ list_ops ops (view (hooks, next))
  unfolding apply_ops
  apply_ops-from [] hooks next v = refl
  apply_ops-from (op ∷ ops) hooks next v =
      apply_ops-from ops _ _ (apply_op-IsHooks op hooks next v)
      ∙ ap (list_ops ops) (apply_op-list_op op hooks next v)

-- From no listeners on, and through any sequence of registrations, removals and compactions, the
-- listeners that `iter` gives are those of the plain ordered list: a registration goes to the front
-- or to the back, a removal takes out the one identity, and a compaction changes nothing.
pub apply_ops-list_ops :
    {Callback : Type 0} (ops : List (HookOp Callback)) (next : ℕ)
    → view (apply_ops ops (no_hooks, next)) ≡ list_ops ops ([], next)
apply_ops-list_ops ops next =
    apply_ops-from ops no_hooks next
      (record { handed_out = tt; keyed = λ id h e. absurd (none-ne-some h e) })
