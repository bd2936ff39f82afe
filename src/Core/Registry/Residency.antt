-- ===== src/Core/Registry/Residency.antt =====
-- registry.rs: every claim is one resident and one member of its allocation.
use mathlib.Core.Option
use cordis_rs.Base.{
  ℕ, ◌+◌, ◌-◌, ◌≡◌, refl, sym, ap, subst, ◌∙◌, inl, inr, false, Option, none, some, List, [], ◌∷◌,
  ◌++◌, ℕ_eq, arith, nat_eq_iff, ◌==◌, ◌⊎◌, ◌≢◌, beq_cases, Bool-cases, Option-cases, if◌then◌else◌,
  lookup, insert, remove, lookup-insert, lookup-remove, count, count-append,
}
use cordis_rs.Core.Registry.{
  PluginKey, PluginKey_eq, PluginGroup, Registry, take, allocation_of, joined, attach_fiber,
  fibers_of, detach_for_removal,
}

abbrev pub one : Option ℕ → ℕ
one none = 0
one (some at) = 1

abbrev pub once_at : ℕ → Option ℕ → ℕ
once_at at none = 0
once_at at (some other) = if other == at then 1 else 0

abbrev pub key_of : Option PluginGroup → Option PluginKey
key_of none = none
key_of (some group) = some group.id

-- A Fiber is resident once when it has a claim and not otherwise, it is a member once of the
-- allocation of its claim and of no other, and a current allocation has a group with its key.
pub record IsRegistry (registry : Registry) : Type 0 where
  pub resident : (f : ℕ) → count f registry.residents ≡ one (lookup f registry.claims)
  pub member :
      (at f : ℕ)
      → count f (fibers_of (lookup at registry.groups)) ≡ once_at at (lookup f registry.claims)
  pub current :
      (key : PluginKey) (at : ℕ)
      → lookup key registry.allocations ≡ some at
      → key_of (lookup at registry.groups) ≡ some key

some_inj {ℓ} : {A : Type ℓ} (a b : A) → some a ≡ some b → a ≡ b
some_inj a b h = ap (λ o. Option.get_or o a) h

pub still_mapped :
    (key k : PluginKey) (allocations : List (PluginKey × ℕ)) (at : ℕ)
    → lookup k (remove key allocations) ≡ some at
    → lookup k allocations ≡ some at
still_mapped key k allocations at h = elim (Bool-cases (key == k)) [
  | inl b ↦ absurd (ground (arith, sym (lookup-remove key k allocations) ∙ h, b))
  | inr b ↦ rw b at (sym (lookup-remove key k allocations) ∙ h)
]

pub count-take :
    (f d : ℕ) (fibers : List ℕ)
    → count d (take f fibers) ≡ count d fibers - (if f == d then 1 else 0)
count-take f d [] = omega arith
count-take f d (x ∷ fibers) = elim (beq_cases x f) [
  | inl (b, q) ↦ rw (b, subst (λ z. (z == d) ≡ (f == d)) (sym q) refl) (omega arith)
  | inr (b, q) ↦
      rw (b, count-take f d fibers)
        (elim (beq_cases f d) [
          | inl (c, r) ↦ rw (c, subst (λ z. (x == z) ≡ false) r b) (omega arith)
          | inr (c, r) ↦ rw c (omega arith)
        ])
]

module _ (address : ℕ) (key : PluginKey) (fiber : ℕ) (registry : Registry)
    (h : IsRegistry registry) where
  at : ℕ
  at = allocation_of address (lookup key registry.allocations)

  fibers-joined :
      (g : Option PluginGroup) → fibers_of (some (joined key fiber g)) ≡ fibers_of g ++ (fiber ∷ [])
  fibers-joined none = refl
  fibers-joined (some group) = refl

  attached : Registry
  attached = record {
    allocations = insert key at registry.allocations;
    groups = insert at (joined key fiber (lookup at registry.groups)) registry.groups;
    residents = registry.residents ++ (fiber ∷ []);
    claims = insert fiber at registry.claims;
  }

  attached-resident :
      lookup fiber registry.claims ≡ none
      → (f : ℕ) → count f attached.residents ≡ one (lookup f attached.claims)
  unfolding attached
  attached-resident n f =
      count-append f registry.residents (fiber ∷ [])
      ∙ rw (h.resident f, lookup-insert fiber f at registry.claims)
          (elim (beq_cases fiber f) [
            | inl (b, q) ↦ rw (b, subst (λ z. lookup z registry.claims ≡ none) q n) (omega arith)
            | inr (b, q) ↦ rw b (omega arith)
          ])

  attached-member :
      lookup fiber registry.claims ≡ none
      → (a f : ℕ)
      → count f (fibers_of (lookup a attached.groups)) ≡ once_at a (lookup f attached.claims)
  unfolding attached
  attached-member n a f =
      rw
        (
          lookup-insert at a (joined key fiber (lookup at registry.groups)) registry.groups,
          lookup-insert fiber f at registry.claims,
        )
        (elim (beq_cases at a) [
          | inl (b, q) ↦ rw b (
              ap (count f) (fibers-joined (lookup at registry.groups))
              ∙ count-append f (fibers_of (lookup at registry.groups)) (fiber ∷ [])
              ∙ rw (h.member at f) (elim (beq_cases fiber f) [
                | inl (c, r) ↦
                    rw (c, subst (λ z. lookup z registry.claims ≡ none) r n, b) (omega arith)
                | inr (c, r) ↦ rw c (
                    subst
                      (λ z.
                        once_at at (lookup f registry.claims) + (0 + 0)
                        ≡ once_at z (lookup f registry.claims))
                      q (omega arith))
              ]))
          | inr (b, q) ↦
              rw (b, h.member a f)
                (elim (beq_cases fiber f) [
                  | inl (c, r) ↦ rw (c, subst (λ z. lookup z registry.claims ≡ none) r n, b) refl
                  | inr (c, r) ↦ rw c refl
                ])
        ])

  -- The allocation that is joined is new, or has the key.
  allocation_of-group :
      lookup address registry.groups ≡ none
      → (lookup at registry.groups ≡ none) ⊎ (key_of (lookup at registry.groups) ≡ some key)
  unfolding at
  allocation_of-group n = elim (Option-cases (lookup key registry.allocations)) [
    | inl e ↦ rw e (inl n)
    | inr (a, e) ↦ rw e (inr (h.current key a e))
  ]

  joined-key :
      (g : Option PluginGroup)
      → (g ≡ none) ⊎ (key_of g ≡ some key)
      → key_of (some (joined key fiber g)) ≡ some key
  joined-key none _ = refl
  joined-key (some group) (inl e) = absurd (ground arith)
  joined-key (some group) (inr e) = e

  attached-current :
      lookup address registry.groups ≡ none
      → (k : PluginKey) (a : ℕ) → lookup k attached.allocations ≡ some a
      → key_of (lookup a attached.groups) ≡ some k
  unfolding attached
  attached-current n k a e =
      rw (lookup-insert at a (joined key fiber (lookup at registry.groups)) registry.groups)
        (found (sym (lookup-insert key k at registry.allocations) ∙ e))
    where
      found :
          (if key == k then some at else lookup k registry.allocations) ≡ some a
          → key_of (
              if at == a
              then some (joined key fiber (lookup at registry.groups))
              else lookup a registry.groups)
            ≡ some k
      found r = elim (beq_cases key k) [
        | inl (b, q) ↦
            let same : at ≡ a = some_inj at a (rw b at r) in
            rw ((nat_eq_iff at a).1 same)
              (joined-key (lookup at registry.groups) (allocation_of-group n) ∙ ap some q)
        | inr (b, q) ↦
            let old : key_of (lookup a registry.groups) ≡ some k = h.current k a (rw b at r) in
            elim (beq_cases at a) [
              | inl (c, s) ↦ absurd (
                  apart (allocation_of-group n)
                    (subst (λ z. key_of (lookup z registry.groups) ≡ some k) (sym s) old) q)
              | inr (c, s) ↦ rw c old
            ]
      ]
        where
          apart :
              (lookup at registry.groups ≡ none) ⊎ (key_of (lookup at registry.groups) ≡ some key)
              → key_of (lookup at registry.groups) ≡ some k
              → key ≢ k
              → ⊥
          apart (inl x) y z = ground (arith, rw x at y)
          apart (inr x) y z = z (some_inj key k (sym x ∙ y))

-- What an attempt to attach leaves.
abbrev pub Kept : Option Registry → Type 0
Kept none = Unit
Kept (some registry) = IsRegistry registry

pub attach_fiber-Kept :
    (address : ℕ) (key : PluginKey) (fiber : ℕ) (registry : Registry)
    → IsRegistry registry
    → lookup address registry.groups ≡ none
    → Kept (attach_fiber address key fiber registry)
unfolding attach_fiber attached at
attach_fiber-Kept address key fiber registry h n =
    elim (Option-cases (lookup fiber registry.claims)) [
      | inr (claim, e) ↦ rw (e, attach_fiber) tt
      | inl e ↦
          rw (e, attach_fiber)
            (record {
              resident = attached-resident address key fiber registry h e;
              member = attached-member address key fiber registry h e;
              current = attached-current address key fiber registry h n;
            })
    ]

pub detach_for_removal-IsRegistry {κ} :
    {Recursion : Type κ} (refuses : List ℕ → Option Recursion) (key : PluginKey)
    (registry : Registry)
    → IsRegistry registry
    → IsRegistry (detach_for_removal refuses key registry).1
unfolding detach_for_removal
detach_for_removal-IsRegistry refuses key registry h =
    elim (Option-cases (lookup key registry.allocations)) [
      | inl e ↦ rw (e, detach_for_removal) h
      | inr (a, e) ↦ elim (Option-cases (refuses (fibers_of (lookup a registry.groups)))) [
        | inr (recursion, r) ↦ rw (e, detach_for_removal, r) h
        | inl r ↦
            rw (e, detach_for_removal, r)
              (record {
                resident = h.resident;
                member = h.member;
                current = λ k b c. h.current k b (still_mapped key k registry.allocations b c);
              })
      ]
    ]
